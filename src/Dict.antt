-- ===== src/Dict.antt =====
-- `dict_t` of the dictionary library, which is not part of the repository: the calls that the
-- server makes of it, and what it relies on. `eq` is the dictionary's key comparison.
pub mod Assoc
use latte_redis_server.Prelude.{
  ℕ, suc, ◌≡◌, ◌≢◌, refl, List, [], ◌∷◌, Bool, true, false, Option, none, some, arith, length,
  if◌then◌else◌, ◌↔◌,
}
use mathlib.Core.Option

pub record DictApi (K V T : Type 0) : Type 0 where
  pub new : T
  pub size : T → ℕ
  -- the value of the entry that `dict_find` returns
  pub find : T → K → Option V
  -- `dict_add_raw`: a new entry with no value yet, or NULL
  pub add_raw : T → K → Option T
  -- `dict_set_val` on the entry of a key
  pub set_val : T → K → V → T
  -- `dict_delete_key`: `none` is `DICT_ERR`
  pub delete_key : T → K → Option T

pub record DictLaws {K V T : Type 0} (dict : DictApi K V T) (eq : K → K → Bool) : Type 0 where
  pub eq_iff : (k j : K) → (eq k j ≡ true) ↔ (k ≡ j)
  pub size-new : dict.size dict.new ≡ 0
  pub find-new : (k : K) → dict.find dict.new k ≡ none
  pub add_raw-existing : (t : T) (k : K) (v : V) → dict.find t k ≡ some v → dict.add_raw t k ≡ none
  pub add_raw-fresh :
      (t : T) (k : K) → dict.find t k ≡ none → (t' : T) × (dict.add_raw t k ≡ some t')
  pub find-add_raw_ne :
      (t t' : T) (k j : K)
      → dict.add_raw t k ≡ some t'
      → eq k j ≡ false
      → dict.find t' j ≡ dict.find t j
  pub find-add_raw_self :
      (t t' : T) (k : K) → dict.add_raw t k ≡ some t' → (v : V) × (dict.find t' k ≡ some v)
  pub size-add_raw :
      (t t' : T) (k : K) → dict.add_raw t k ≡ some t' → dict.size t' ≡ suc (dict.size t)
  pub find-set_val :
      (t : T) (k j : K) (v w : V)
      → dict.find t k ≡ some w
      → dict.find (dict.set_val t k v) j ≡ (if eq k j then some v else dict.find t j)
  pub size-set_val : (t : T) (k : K) (v : V) → dict.size (dict.set_val t k v) ≡ dict.size t
  pub delete_key-missing : (t : T) (k : K) → dict.find t k ≡ none → dict.delete_key t k ≡ none
  pub delete_key-present :
      (t : T) (k : K) (v : V) → dict.find t k ≡ some v → (t' : T) × (dict.delete_key t k ≡ some t')
  pub find-delete_key :
      (t t' : T) (k j : K)
      → dict.delete_key t k ≡ some t'
      → dict.find t' j ≡ (if eq k j then none else dict.find t j)
  pub size-delete_key :
      (t t' : T) (k : K) → dict.delete_key t k ≡ some t' → dict.size t ≡ suc (dict.size t')
