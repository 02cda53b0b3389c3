-- ===== src/Slowlog/Args.antt =====
-- The arguments that `slowlog_entry_new` keeps.
use latte_redis_server.Prelude.{
  ℕ, zero, suc, ◌≤◌, ◌<◌, ◌≡◌, refl, ap, List, [], ◌∷◌, ◌++◌, Bool, true, false, arith, length,
  some, get_elem?, min,
}
use latte_redis_server.Object.{codes, Object, string_object}
use latte_redis_server.Slowlog.{
  Finished, ObjectApi, entry_new, copy_args, copy_arg, more_arguments, entry_max_argc,
}

module _ (o : ObjectApi) where
  length-copy_args :
      (b : Bool) (argc n : ℕ) (args : List Object)
      → n ≤ length args
      → length (copy_args o b argc n args) ≡ n
  unfolding copy_args
  length-copy_args b argc zero args h = refl
  length-copy_args b argc (suc n) [] h = absurd (omega arith)
  length-copy_args b argc (suc n) (a ∷ args) h =
      ap suc (length-copy_args b argc n args (omega arith))

  -- An entry keeps every argument of a command of at most 32, and 32 of a longer one.
  pub length-entry_new-argv :
      (now id : ℕ) (c : Finished) → length (entry_new o now id c).argv ≡ min 32 (length c.argv)
  unfolding entry_new
  length-entry_new-argv now id c = ground (
    arith,
    length-copy_args true 32 32 c.argv,
    length-copy_args false (length c.argv) (length c.argv) c.argv,
  )

  last-copy_args :
      (argc n : ℕ) (args : List Object)
      → n < length args
      → get_elem? (copy_args o true argc (suc n) args) n ≡ some (more_arguments o argc)
  unfolding copy_args
  last-copy_args argc zero [] h = absurd (omega arith)
  last-copy_args argc zero (a ∷ args) h = refl
  last-copy_args argc (suc n) [] h = absurd (omega arith)
  last-copy_args argc (suc n) (a ∷ args) h = last-copy_args argc n args (omega arith)

  -- The last kept argument of a command with more than 32 says "1 more arguments", however many
  -- were left out.
  pub entry_new-argv-last :
      (now id : ℕ) (c : Finished)
      → entry_max_argc < length c.argv
      → get_elem? (entry_new o now id c).argv 31
        ≡ some (string_object (codes "... (" ++ (o.decimal 1 ++ codes " more arguments)")))
  unfolding entry_new more_arguments
  entry_new-argv-last now id c h = ground (arith, last-copy_args 32 31 c.argv)

  at-copy_args :
      (b : Bool) (argc n i : ℕ) (args : List Object) (a : Object)
      → suc i < n
      → get_elem? args i ≡ some a
      → get_elem? (copy_args o b argc n args) i ≡ some (copy_arg o a a.payload)
  unfolding copy_args
  at-copy_args b argc zero i args a h e = absurd (omega arith)
  at-copy_args b argc (suc n) i [] a h e = cc
  at-copy_args b argc (suc n) zero (x ∷ args) a h e = ground arith
  at-copy_args b argc (suc n) (suc i) (x ∷ args) a h e =
      at-copy_args b argc n i args a (omega arith) e

  -- Every earlier argument is kept in its place: cut to 128 bytes with a note of the bytes left
  -- out if it is a longer encoded string, else shared if it is a shared object, else copied.
  pub entry_new-argv :
      (now id i : ℕ) (c : Finished) (a : Object)
      → suc i < min 32 (length c.argv)
      → get_elem? c.argv i ≡ some a
      → get_elem? (entry_new o now id c).argv i ≡ some (copy_arg o a a.payload)
  unfolding entry_new
  entry_new-argv now id i c a h e = ground (
    arith,
    at-copy_args true 32 32 i c.argv a,
    at-copy_args false (length c.argv) (length c.argv) i c.argv a,
  )
