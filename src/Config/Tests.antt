-- ===== src/Config/Tests.antt =====
-- Modules of two lines of a configuration, with lists for vectors.
use latte_redis_server.Prelude.{ℕ, ◌≡◌, refl, ap, List, [], ◌∷◌, ◌++◌, Option, some, length}
use latte_redis_server.Object.{codes}
use latte_redis_server.Config.{ModuleEntry, VectorApi, config_load_modules_add, move_modules}
use latte_redis_server.Config.Modules.{VectorLaws, add_lines, items_of, add_lines_lem}

abbrev pub entry : List ℕ → ModuleEntry
entry path = record { path = path; args = [] }

abbrev Entries : Type 0
Entries = List ModuleEntry

abbrev pop : Entries → Entries × ModuleEntry
pop [] = ([], entry [])
pop (x ∷ []) = ([], x)
pop (x ∷ y ∷ xs) = let rest = pop (y ∷ xs) in (x ∷ rest.0, rest.1)

abbrev vectors : VectorApi ModuleEntry Entries
vectors = record {
  vector_new = [];
  vector_size = length;
  vector_push = λ v x. v ++ (x ∷ []);
  vector_pop = pop;
}

pop-append :
    (xs : Entries) (x : ModuleEntry)
    → ((pop (xs ++ (x ∷ []))).0 ≡ xs) × ((pop (xs ++ (x ∷ []))).1 ≡ x)
pop-append [] x = (refl, refl)
pop-append (y ∷ []) x = (refl, refl)
pop-append (y ∷ z ∷ xs) x = let h = pop-append (z ∷ xs) x in (ap (λ t. y ∷ t) h.0, h.1)

laws : VectorLaws vectors (λ v. v)
laws = record {
  items-new = refl;
  size-items = λ v. refl;
  items-push = λ v x. refl;
  items-pop = λ v xs x e. rw e (pop-append xs x);
}

-- Two lines, behind a module that is there.
add_lines_example :
    (after : Option Entries) × (add_lines vectors
        (λ t. t)
        ((codes "b.so", codes "x" ∷ []) ∷ (codes "c.so", []) ∷ [])
        (some (entry (codes "a.so") ∷ []))
      ≡ some after)
    × (items_of vectors (λ t. t) (λ v. v) after
        ≡ entry (codes "a.so")
          ∷ record { path = codes "b.so"; args = codes "x" ∷ [] }
          ∷ entry (codes "c.so")
          ∷ [])
add_lines_example =
    add_lines_lem vectors (λ t. t) (λ v. v) laws (some (entry (codes "a.so") ∷ []))
      ((codes "b.so", codes "x" ∷ []) ∷ (codes "c.so", []) ∷ [])

-- Of two modules added at a time, which no line makes, the first is lost.
two_at_a_time :
    config_load_modules_add vectors (some []) (entry (codes "b.so") ∷ entry (codes "c.so") ∷ [])
    ≡ some (entry (codes "c.so") ∷ [])
unfolding config_load_modules_add move_modules
two_at_a_time = refl
