-- ===== src/Config/Modules.antt =====
-- The modules that a configuration names, over its lines.
use latte_redis_server.Prelude.{
  ℕ, zero, suc, ◌+◌, ◌-◌, ◌/◌, ◌≤◌, ◌<◌, ◌≡◌, refl, ap, ◌∙◌, List, [], ◌∷◌, ◌++◌, true, false,
  Option, none, some, map, sym, length, take, ltb, append_assoc, append-nil, length-append, arith,
  Bool-cases, inl, inr, ltb→lt,
}
use latte_redis_server.Config.{
  ModuleEntry, VectorApi, module_entry_new, move_modules, config_load_modules_add,
  config_load_modules_load,
}

-- A list of values, from the last one to the first.
abbrev pub backwards {ℓ} : {X : Type ℓ} → List X → List X
backwards [] = []
backwards (x ∷ xs) = backwards xs ++ (x ∷ [])

-- What a vector is relied on for; `items` is the list of its values, in order.
pub record VectorLaws {X V : Type 0} (vectors : VectorApi X V) (items : V → List X) : Type 0 where
  pub items-new : items vectors.vector_new ≡ []
  pub size-items : (v : V) → vectors.vector_size v ≡ length (items v)
  pub items-push : (v : V) (x : X) → items (vectors.vector_push v x) ≡ items v ++ (x ∷ [])
  pub items-pop :
      (v : V) (xs : List X) (x : X)
      → items v ≡ xs ++ (x ∷ [])
      → (items (vectors.vector_pop v).0 ≡ xs) × ((vectors.vector_pop v).1 ≡ x)

module _ {X V : Type 0} (vectors : VectorApi X V) (items : V → List X)
    (laws : VectorLaws vectors items) where
  length-backwards : (xs : List X) → length (backwards xs) ≡ length xs
  length-backwards [] = refl
  length-backwards (x ∷ xs) =
      omega (arith, length-backwards xs, length-append (backwards xs) (x ∷ []))

  -- What is moved, when `i` rounds are over.
  record Moved (old : V) (rs : List X) (n : ℕ) (o : Option V) : Type 0 where
    after : V
    done : o ≡ some after
    kept : items after ≡ items old ++ take n rs

  move_modules-stop :
      (fuel i : ℕ) (old new : V)
      → ltb i (vectors.vector_size new) ≡ false
      → move_modules vectors (suc fuel) i old new ≡ some old
  unfolding move_modules
  move_modules-stop fuel i old new h = rw h refl

  move_modules-again :
      (fuel i : ℕ) (old new : V)
      → ltb i (vectors.vector_size new) ≡ true
      → move_modules vectors (suc fuel) i old new
        ≡ move_modules vectors fuel
            (i + 1)
            (vectors.vector_push old (vectors.vector_pop new).1)
            (vectors.vector_pop new).0
  unfolding move_modules
  move_modules-again fuel i old new h = rw h refl

  size-backwards :
      (new : V) (rs : List X) → items new ≡ backwards rs → vectors.vector_size new ≡ length rs
  size-backwards new rs e = laws.size-items new ∙ ap length e ∙ length-backwards rs

  stopped-Moved :
      (rs : List X) (fuel i n : ℕ) (old new : V)
      → ltb i (vectors.vector_size new) ≡ false
      → n ≡ 0
      → Moved old rs n (move_modules vectors (suc fuel) i old new)
  stopped-Moved rs fuel i n old new b z = record {
    after = old;
    done = move_modules-stop fuel i old new b;
    kept = rw (z, append-nil (items old)) refl;
  }

  pushed-Moved :
      (r : X) (rs : List X) (n m : ℕ) (old old' : V) (o : Option V)
      → items old' ≡ items old ++ (r ∷ [])
      → n ≡ suc m
      → Moved old' rs m o
      → Moved old (r ∷ rs) n o
  pushed-Moved r rs n m old old' o e k moved = record {
    after = moved.after;
    done = moved.done;
    kept = moved.kept ∙ rw (e, k) (append_assoc (items old) (r ∷ []) (take m rs));
  }

  move_modules-Moved :
      (rs : List X) (fuel i n : ℕ) (old new : V)
      → items new ≡ backwards rs
      → length rs ≤ fuel
      → n ≡ (length rs - i + 1) / 2
      → Moved old rs n (move_modules vectors (suc fuel) i old new)
  move_modules-Moved [] fuel i n old new e h k =
      let size = size-backwards new [] e in
      stopped-Moved [] fuel i n old new (ground (arith, size)) (omega arith)
  move_modules-Moved (r ∷ rs) zero i n old new e h k = absurd (omega arith)
  move_modules-Moved (r ∷ rs) (suc fuel) i n old new e h k =
      let size = size-backwards new (r ∷ rs) e in
      elim (Bool-cases (ltb i (vectors.vector_size new))) [
        | inl b ↦
            let (left, x) = laws.items-pop new (backwards rs) r e in
            let new' = (vectors.vector_pop new).0 in
            let old' = vectors.vector_push old (vectors.vector_pop new).1 in
            let m = (length rs - (i + 1) + 1) / 2 in
            let below : i < length rs + 1 =
              ground (arith, size, ltb→lt i (vectors.vector_size new) b) in
            rw (move_modules-again (suc fuel) i old new b) (
              pushed-Moved r rs n m old old' (move_modules vectors (suc fuel) (i + 1) old' new')
                (laws.items-push old (vectors.vector_pop new).1 ∙ ap (λ y. items old ++ (y ∷ [])) x)
                (omega (arith, k, below))
                (move_modules-Moved rs fuel (i + 1) m old' new' left (omega arith) refl))
        | inr b ↦
            let above : length rs + 1 ≤ i = ground (arith, size) in
            stopped-Moved (r ∷ rs) (suc fuel) i n old new b (omega (arith, k, above))
      ]

  -- Of `n` modules that are added at a time, of which a line of the configuration makes just one, only the last `(n + 1) / 2` are put
  -- behind those that are there, the last one first, and the others are lost: the loop compares its
  -- index with a size that falls with every round. The loop ends on the fuel given.
  pub config_load_modules_add-half :
      (old new : V) (rs : List X)
      → items new ≡ backwards rs
      → (after : V) × (config_load_modules_add vectors (some old) new ≡ some after)
        × (items after ≡ items old ++ take ((length rs + 1) / 2) rs)
  unfolding config_load_modules_add
  config_load_modules_add-half old new rs e =
      let n = (length rs + 1) / 2 in
      let size = size-backwards new rs e in
      let moved =
        move_modules-Moved rs (vectors.vector_size new) 0 n old new e (omega (arith, size))
          (omega arith) in
      (moved.after, moved.done, moved.kept)

-- The path of a module and its arguments, as a line of the configuration gives them.
abbrev pub Line : Type 0
Line = List ℕ × List (List ℕ)

module _ {V : Type 0} (vectors : VectorApi ModuleEntry V) (sds_new : List ℕ → List ℕ) where
  abbrev next_line : (V → Option (Option V)) → Option V → Option (Option V)
  next_line next none = none
  next_line next (some v) = next v

  -- The lines that name modules, one after the other: each is loaded and then added to what is there.
  unfoldable pub add_lines : List Line → Option V → Option (Option V)
  add_lines [] o = some o
  add_lines (l ∷ lines) o =
      next_line (λ v. add_lines lines (some v))
        (config_load_modules_add vectors o (config_load_modules_load vectors sds_new l.0 l.1))

  -- The entry that a line makes.
  abbrev pub line_entry : Line → ModuleEntry
  line_entry l = record { path = sds_new l.0; args = map sds_new l.1 }

  abbrev pub items_of : (V → List ModuleEntry) → Option V → List ModuleEntry
  items_of items none = []
  items_of items (some v) = items v

  module _ (items : V → List ModuleEntry) (laws : VectorLaws vectors items) where
    loaded_items :
        (l : Line) → items (config_load_modules_load vectors sds_new l.0 l.1) ≡ line_entry l ∷ []
    unfolding config_load_modules_load module_entry_new
    loaded_items l =
        laws.items-push vectors.vector_new (line_entry l)
        ∙ ap (λ xs. xs ++ (line_entry l ∷ [])) laws.items-new

    added_line :
        (o : Option V) (l : Line)
        → (after : V) × (config_load_modules_add vectors o
              (config_load_modules_load vectors sds_new l.0 l.1)
            ≡ some after)
          × (items after ≡ items_of items o ++ (line_entry l ∷ []))
    unfolding config_load_modules_add
    added_line none l = (config_load_modules_load vectors sds_new l.0 l.1, refl, loaded_items l)
    added_line (some old) l =
        config_load_modules_add-half vectors items laws old
          (config_load_modules_load vectors sds_new l.0 l.1) (line_entry l ∷ []) (loaded_items l)

    -- However many lines of the configuration name modules, each line's loop ends, and the modules of the
    -- configuration are then those that were there and behind them one for each line, in order, with the
    -- path and the arguments of the line.
    pub add_lines_lem :
        (o : Option V) (lines : List Line)
        → (after : Option V) × (add_lines lines o ≡ some after)
          × (items_of items after ≡ items_of items o ++ map line_entry lines)
    unfolding add_lines
    add_lines_lem o [] = (o, refl, sym (append-nil (items_of items o)))
    add_lines_lem o (l ∷ lines) =
        let (v, added, one) = added_line o l in
        let (after, rest, all) = add_lines_lem (some v) lines in
        (
          after,
          ap (next_line (λ t. add_lines lines (some t))) added ∙ rest,
          all
              ∙ ap (λ xs. xs ++ map line_entry lines) one
              ∙ append_assoc (items_of items o) (line_entry l ∷ []) (map line_entry lines),
        )
