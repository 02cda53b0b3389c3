-- ===== src/Path.antt =====
-- `get_absolute_path` of src/redis/server.c.
pub mod Up
pub mod Tests
use latte_redis_server.Prelude.{
  ℕ, zero, suc, ◌-◌, List, [], ◌∷◌, ◌++◌, Bool, true, false, not, ◌&&◌, Option, none, some, ltb,
  leb, ◌==◌, if◌then◌else◌, length, get_elem?,
}
use latte_redis_server.Prelude.Int.{ℤ, pos, negsuc}

-- What belongs to the libraries: `sds_new`, `sds_trim(s, " \r\n\t")` and `sds_range`.
pub record PathApi : Type 0 where
  pub sds_new : List ℕ → List ℕ
  pub sds_trim : List ℕ → List ℕ
  pub sds_range : List ℕ → ℤ → ℤ → List ℕ

-- The result: NULL, a path, a read in front of the string, or fuel used up, which the source does not
-- have.
pub data Absolute : Type 0 where
  null overrun starved : Absolute
  path : List ℕ → Absolute

-- A character that is `/`; the byte behind a string is zero.
abbrev pub is_slash : Option ℕ → Bool
is_slash none = false
is_slash (some b) = b == b'/'

abbrev pub has_char : Option ℕ → ℕ → Bool
has_char none b = false
has_char (some x) b = x == b

-- `while(*p != '/') { p--; trimlen++; }`, with `p` at an index of the string: the last `trimlen`
unfoldable pub walk : List ℕ → ℕ → ℕ → Option ℕ
walk s zero trimlen = if is_slash (get_elem? s 0) then some trimlen else none
walk s (suc i) trimlen =
    let rest = walk s i (suc trimlen) in
    if is_slash (get_elem? s (suc i)) then some trimlen else rest

-- The current directory with `/` at its end.
unfoldable pub with_slash : List ℕ → List ℕ
with_slash cwd =
    if ltb 0 (length cwd) && not (is_slash (get_elem? cwd (length cwd - 1)))
    then cwd ++ (b'/' ∷ [])
    else cwd

-- The condition of the loop: the path begins with `../`.
unfoldable pub goes_up : List ℕ → Bool
goes_up relpath =
    leb 3 (length relpath)
    && (has_char (get_elem? relpath 0) b'.'
        && (has_char (get_elem? relpath 1) b'.' && has_char (get_elem? relpath 2) b'/'))

module _ (p : PathApi) where
  unfoldable pub trimmed_path : List ℕ → Option ℕ → Option (List ℕ)
  trimmed_path abspath none = none
  trimmed_path abspath (some trimlen) = some (p.sds_range abspath (pos 0) (negsuc trimlen))

  -- The path without its last element, unless it is `/`.
  unfoldable pub remove_last : List ℕ → Option (List ℕ)
  unfolding walk trimmed_path
  remove_last abspath =
      let cut = trimmed_path abspath (walk abspath (length abspath - 2) 1) in
      if ltb 1 (length abspath) then cut else some abspath

  unfoldable pub up_again : (List ℕ → Absolute) → Option (List ℕ) → Absolute
  up_again next none = overrun
  up_again next (some abspath) = next abspath

  -- the loop, on fuel, and the two parts glued together
  unfoldable pub up_loop : ℕ → List ℕ → List ℕ → Absolute
  unfolding remove_last up_again
  up_loop zero relpath abspath = starved
  up_loop (suc fuel) relpath abspath =
      let again =
        up_again (up_loop fuel (p.sds_range relpath (pos 3) (negsuc 0))) (remove_last abspath) in
      if goes_up relpath then again else path (abspath ++ relpath)

  unfoldable pub from_cwd : List ℕ → Option (List ℕ) → Absolute
  unfolding up_loop with_slash
  from_cwd relpath none = null
  from_cwd relpath (some cwd) = up_loop (suc (length relpath)) relpath (with_slash cwd)

  -- `cwd` is what `getcwd` gives.
  unfoldable pub get_absolute_path : Option (List ℕ) → List ℕ → Absolute
  unfolding from_cwd
  get_absolute_path cwd filename =
      let relpath = p.sds_trim (p.sds_new filename) in
      if is_slash (get_elem? relpath 0) then path relpath else from_cwd relpath cwd
