-- ===== src/CommandManager/Ids.antt =====
-- The identifiers that `acl_get_command_id` of src/commands/command_manager.c gives out.
use latte_redis_server.Prelude.{
  ℕ, ◌+◌, ◌≡◌, ◌≢◌, refl, List, [], ◌∷◌, Bool, true, false, Option, none, some, arith,
  if◌then◌else◌, ◌∙◌,
}
use latte_redis_server.CommandManager.{
  ManagerApi, CommandManager, skip_last_bit, id_of, acl_get_command_id,
}

-- Every identifier of the list is another number than `n`.
abbrev pub Avoids : ℕ → List ℕ → Type 0
Avoids n [] = n ≡ n
Avoids n (id ∷ ids) = (id ≢ n) × Avoids n ids

module _ {R C : Type 0} (p : ManagerApi R C) where
  skip_last_bit_ne : (n : ℕ) → skip_last_bit p n ≢ 1023
  unfolding skip_last_bit
  skip_last_bit_ne n = ground arith

  -- Run after run, the names get identifiers from a manager whose next one is never 1023.
  unfoldable pub ids_of : CommandManager R C → List (List ℕ) → List ℕ × CommandManager R C
  ids_of cm [] = ([], cm)
  ids_of cm (name ∷ names) =
      let (id, cm') = acl_get_command_id p cm name in
      let (ids, cm'') = ids_of cm' names in (id ∷ ids, cm'')

  -- No identifier in the tree is 1023, and the next one is not.
  pub record NeverLast (cm : CommandManager R C) : Type 0 where
    pub next_lem : cm.nextid ≢ 1023
    pub found_lem : (s : List ℕ) → p.rax_find cm.command_id s ≢ some 1023

  -- What the tree is relied on for: an inserted identifier is found, and no other changes.
  pub record RaxLaws : Type 0 where
    pub same : List ℕ → List ℕ → Bool
    pub same_refl : (s : List ℕ) → same s s ≡ true
    pub find-insert :
        (r : R) (s t : List ℕ) (id : ℕ)
        → p.rax_find (p.rax_insert r s id) t ≡ (if same s t then some id else p.rax_find r t)

  if_ne :
      (b : Bool) (id : ℕ) (o : Option ℕ)
      → id ≢ 1023
      → o ≢ some 1023
      → (if b then some id else o) ≢ some 1023
  if_ne true id o h k e = h (ground arith)
  if_ne false id o h k e = k e

  id_of-NeverLast :
      (laws : RaxLaws) (cm : CommandManager R C) (s : List ℕ) (o : Option ℕ)
      → NeverLast cm
      → o ≢ some 1023
      → ((id_of p cm s o).0 ≢ 1023) × NeverLast (id_of p cm s o).1
  unfolding id_of
  id_of-NeverLast laws cm s (some id) h k = ((λ e. k (rw e refl)), h)
  id_of-NeverLast laws cm s none h k = (
    h.next_lem,
    record {
      next_lem = skip_last_bit_ne (cm.nextid + 1);
      found_lem = λ t.
          rw (laws.find-insert cm.command_id s t cm.nextid) (
            if_ne (laws.same s t) cm.nextid (p.rax_find cm.command_id t) h.next_lem
              (h.found_lem t));
    },
  )

  -- Whatever names are asked for, no identifier is 1023, the last bit of the users' bitmaps, if
  -- none was before.
  pub ids_of-Avoids :
      (laws : RaxLaws) (cm : CommandManager R C) (names : List (List ℕ))
      → NeverLast cm
      → Avoids 1023 (ids_of cm names).0
  unfolding ids_of acl_get_command_id
  ids_of-Avoids laws cm [] h = refl
  ids_of-Avoids laws cm (name ∷ names) h =
      let s = p.sds_to_lower (p.sds_new name) in
      let (ne, h') = id_of-NeverLast laws cm s (p.rax_find cm.command_id s) h (h.found_lem s) in
      (ne, ids_of-Avoids laws (id_of p cm s (p.rax_find cm.command_id s)).1 names h')

  again :
      (laws : RaxLaws) (cm : CommandManager R C) (s : List ℕ) (o : Option ℕ)
      → p.rax_find cm.command_id s ≡ o
      → p.rax_find (id_of p cm s o).1.command_id s ≡ some (id_of p cm s o).0
  unfolding id_of
  again laws cm s (some id) h = h
  again laws cm s none h = laws.find-insert cm.command_id s s cm.nextid ∙ rw (laws.same_refl s) refl

  -- Asking for a name again, or for one that is the same in lower case, gives the identifier it
  -- has and changes nothing.
  pub acl_get_command_id-again :
      (laws : RaxLaws) (cm : CommandManager R C) (name other : List ℕ)
      → p.sds_to_lower (p.sds_new other) ≡ p.sds_to_lower (p.sds_new name)
      → acl_get_command_id p (acl_get_command_id p cm name).1 other ≡ acl_get_command_id p cm name
  unfolding acl_get_command_id id_of
  acl_get_command_id-again laws cm name other e =
      let s = p.sds_to_lower (p.sds_new name) in
      rw (e, again laws cm s (p.rax_find cm.command_id s) refl) refl
