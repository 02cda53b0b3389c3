-- ===== src/Path/Tests.antt =====
-- A relative path made absolute.
use latte_redis_server.Prelude.{
  ℕ, ◌-◌, ◌≡◌, refl, ap, ◌∙◌, sym, List, [], ◌∷◌, some, length, take, drop, append-nil, false,
  arith,
}
use latte_redis_server.Prelude.Slices.{take-append_self}
use latte_redis_server.Prelude.Int.{ℤ, pos, negsuc}
use latte_redis_server.Object.{codes}
use latte_redis_server.Path.{PathApi, path, with_slash, goes_up, get_absolute_path}
use latte_redis_server.Path.Up.{PathLaws, AllNoSlash, directory, get_absolute_path-ups}

-- The first index, and the last one counted from the end.
abbrev range : List ℕ → ℤ → ℤ → List ℕ
range s (pos a) (negsuc k) = drop a (take (length s - k) s)
range s first last = s

abbrev pub path_api : PathApi
path_api = record { sds_new = λ s. s; sds_trim = λ s. s; sds_range = range }

take_all : (s : List ℕ) → take (length s) s ≡ s
take_all s = ap (take (length s)) (sym (append-nil s)) ∙ take-append_self s []

minus_zero : (n : ℕ) → n - 0 ≡ n
minus_zero n = omega arith

path_laws : PathLaws path_api
path_laws = record {
  range-from =
      λ s a. ap (λ n. drop a (take n s)) (minus_zero (length s)) ∙ ap (drop a) (take_all s);
  range-to = λ s k. refl;
}

abbrev elements : List (List ℕ)
elements = codes "redis" ∷ codes "home" ∷ []

elements-AllNoSlash : AllNoSlash elements
elements-AllNoSlash =
    ((refl, (refl, (refl, (refl, (refl, tt))))), ((refl, (refl, (refl, (refl, tt)))), tt))

home : with_slash (codes "/home/redis") ≡ directory elements
unfolding with_slash
home = refl

no_more : goes_up (codes "latte.conf") ≡ false
unfolding goes_up
no_more = refl

-- Three elements up from a directory of two.
get_absolute_path-ups_example :
    get_absolute_path path_api (some (codes "/home/redis")) (codes "../../../latte.conf")
    ≡ path (codes "/latte.conf")
get_absolute_path-ups_example =
    get_absolute_path-ups path_api path_laws (codes "../../../latte.conf") (codes "/home/redis")
      elements 3 (codes "latte.conf") refl refl no_more elements-AllNoSlash home
