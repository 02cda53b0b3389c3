-- ===== src/Object.antt =====
-- `latte_object_t`, as far as the server's code reads it (the type is declared outside the
-- repository): a type tag, a payload behind `ptr` and `encoding`, a flag for the shared reference
-- count, and the access clock `lru`. An `sds` is the list of its bytes.
use Prim.Native.Char.{code}
use Prim.Native.String.{String}
use latte_redis_server.Prelude.{ℕ, List, [], ◌∷◌, Bool, true, false}
use latte_redis_server.Prelude.Int.{ℤ}

-- The bytes of an ASCII literal of the source.
abbrev pub codes : String → List ℕ
codes String.[] = []
codes (String.◌∷◌ c s) = code c ∷ codes s

-- An encoded `sds`, or an integer kept in the pointer (`OBJ_ENCODING_INT`).
pub data Payload : Type 0 where
  text : List ℕ → Payload
  integer : ℤ → Payload

pub record Object : Type 0 where
  pub is_string : Bool
  pub payload : Payload
  pub is_shared : Bool
  pub lru : ℕ

-- `latte_object_new(OBJ_STRING, s)`
abbrev pub string_object : List ℕ → Object
string_object s = record { is_string = true; payload = text s; is_shared = false; lru = 0 }
