-- ===== src/ListApi.antt =====
-- `list_t` of the list library, which is not part of the repository: the calls that the server
-- makes of it, and what it relies on. `items` is the list of the stored values, head first.
use latte_redis_server.Prelude.{ℕ, List, [], ◌∷◌, ◌++◌, length, ◌≡◌, refl}

-- Everything but the last item.
abbrev pub but_last {ℓ} : {A : Type ℓ} → List A → List A
but_last [] = []
but_last (x ∷ []) = []
but_last (x ∷ y ∷ xs) = x ∷ but_last (y ∷ xs)

pub record ListApi (L A : Type 0) : Type 0 where
  pub new : L
  pub size : L → ℕ
  pub add_node_tail : L → A → L
  -- `list_del_node(l, list_last(l))`
  pub del_last : L → L

pub record ListLaws {L A : Type 0} (api : ListApi L A) (items : L → List A) : Type 0 where
  pub items-new : items api.new ≡ []
  pub size-eq : (l : L) → api.size l ≡ length (items l)
  pub items-add_node_tail : (l : L) (a : A) → items (api.add_node_tail l a) ≡ items l ++ (a ∷ [])
  pub items-del_last : (l : L) → items (api.del_last l) ≡ but_last (items l)

-- Lists themselves meet the laws.
abbrev pub plain : {A : Type 0} → ListApi (List A) A
plain = record {
  new = [];
  size = length;
  add_node_tail = λ l a. l ++ (a ∷ []);
  del_last = but_last;
}

pub plain-laws : {A : Type 0} → ListLaws (plain {A = A}) (λ l. l)
plain-laws = record {
  items-new = refl;
  size-eq = λ l. refl;
  items-add_node_tail = λ l a. refl;
  items-del_last = λ l. refl;
}
