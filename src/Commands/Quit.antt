-- ===== src/Commands/Quit.antt =====
-- `QUIT` of src/commands/command_manager.c and the input loop of src/redis/client.c.
use latte_redis_server.Prelude.{
  ℕ, suc, ◌≡◌, refl, ◌==◌, if◌then◌else◌, Bool-cases, inl, inr, length, ltb,
}
use latte_redis_server.Client.{Client, reset_redis_client}
use latte_redis_server.Reply.{add_reply}
use latte_redis_server.Client.Process.{Env, returned, turn, continue, redis_process_input_buffer}
use latte_redis_server.Commands.{CommandEnv, quit_command}

-- Once `QUIT` has run and the client has been reset, the input loop ends at once, on any fuel for one round: whatever bytes are
-- left, no request behind it is parsed or run, and neither the server nor the client changes.
pub process_input_buffer-quit_command :
    {S : Type 0} (env : Env S) (p : CommandEnv) (fuel : ℕ) (s : S) (c : Client)
    → redis_process_input_buffer env (suc fuel) s (reset_redis_client (quit_command p c))
      ≡ returned (if c.qb_pos == 0 then 0 else 1) s (reset_redis_client (quit_command p c))
unfolding redis_process_input_buffer continue turn quit_command add_reply reset_redis_client
process_input_buffer-quit_command env p fuel s c =
    elim (Bool-cases (ltb c.qb_pos (length c.querybuf))) [ inl e ↦ rw e refl | inr e ↦ rw e refl ]
