-- ===== src/Metric.antt =====
-- src/experiment/metric.c: rates, sampled into a ring for each name. `none` is a signed overflow, a
-- division by zero or a read through a null pointer.
pub mod Ring
mod Tests
use latte_redis_server.Prelude.{
  ℕ, ◌+◌, ◌-◌, ◌*◌, ◌/◌, ◌%◌, ◌^◌, List, [], ◌∷◌, Bool, true, false, Option, none, some, ltb, leb,
  ◌&&◌, ◌==◌, if◌then◌else◌, set, replicate,
}
use latte_redis_server.Prelude.Int.{ℤ, pos, negsuc, pos_part, neg_part, ◌+ℤ◌, ◌-ℤ◌, ◌*ℤ◌, ltb_ℤ}

abbrev pub metric_samples : ℕ
metric_samples = 16

pub record MetricEntry : Type 0 where
  pub last_sample_base : ℤ
  pub last_sample_value : ℤ
  pub idx : ℕ
  pub samples : List ℤ

-- `samples` is the `size_t` of the metric, taken to fit an `int`.
unfoldable pub metric_entry_new : ℤ → MetricEntry
metric_entry_new samples = record {
  last_sample_base = pos 0;
  last_sample_value = pos 0;
  idx = 0;
  samples = replicate (if ltb_ℤ (pos 0) samples then pos_part samples else metric_samples) (pos 0);
}

-- A result of `long long` arithmetic.
unfoldable pub in_range : ℤ → Option ℤ
in_range z = if ltb (pos_part z) (2 ^ 63) && leb (neg_part z) (2 ^ 63) then some z else none

-- Division by a positive number, which rounds towards zero.
unfoldable pub quotient : ℤ → ℕ → ℤ
quotient (pos n) d = pos (n / d)
quotient (negsuc n) d = pos 0 -ℤ pos ((n + 1) / d)

abbrev bind_range : Option ℤ → (ℤ → Option ℤ) → Option ℤ
bind_range none f = none
bind_range (some z) f = f z

-- `base > 0 ? (value * factor) / base : 0`, with the two differences it is made of.
unfoldable pub average : MetricEntry → ℤ → ℤ → ℤ → Option ℤ
average e current_value current_base factor =
    bind_range (in_range (current_base -ℤ e.last_sample_base)) (λ base.
      bind_range (in_range (current_value -ℤ e.last_sample_value)) (λ value.
        if ltb_ℤ (pos 0) base
        then bind_range (in_range (value *ℤ factor)) (λ z. some (quotient z (pos_part base)))
        else some (pos 0)))

unfoldable pub push_sample : ℕ → MetricEntry → Option ℤ → Option MetricEntry
push_sample samples e none = none
push_sample samples e (some avg) =
    if samples == 0
    then none
    else some (record e { samples = set e.samples e.idx avg; idx = (e.idx + 1) % samples })

unfoldable pub sampled : ℕ → MetricEntry → ℤ → ℤ → ℤ → Option MetricEntry
unfolding push_sample
sampled samples e current_value current_base factor =
    if ltb_ℤ (pos 0) e.last_sample_base
    then push_sample samples e (average e current_value current_base factor)
    else some e

unfoldable pub track_last : ℤ → ℤ → Option MetricEntry → Option MetricEntry
track_last current_value current_base none = none
track_last current_value current_base (some e) =
    some (record e { last_sample_base = current_base; last_sample_value = current_value })

-- `metric_track_instantaneous` on what `dict_find` returns for the name: the entry put under it.
unfoldable pub metric_track_instantaneous : ℕ → Option MetricEntry → ℤ → ℤ → ℤ → Option MetricEntry
unfolding track_last
metric_track_instantaneous samples none current_value current_base factor =
    track_last current_value current_base (some (metric_entry_new (pos samples)))
metric_track_instantaneous samples (some e) current_value current_base factor =
    track_last current_value current_base (sampled samples e current_value current_base factor)

unfoldable pub sum_samples : List ℤ → Option ℤ → Option ℤ
sum_samples [] sum = sum
sum_samples (x ∷ xs) none = none
sum_samples (x ∷ xs) (some sum) = sum_samples xs (in_range (sum +ℤ x))

-- `sum / metric->samples`: the divisor is a `size_t`, so that the sum is taken modulo 2^64.
unfoldable pub mean : ℕ → Option ℤ → Option ℕ
mean samples none = none
mean samples (some sum) =
    if samples == 0
    then none
    else some ((pos_part sum + (2 ^ 64 - neg_part sum)) % 2 ^ 64 / samples)

-- `metric_get_instantaneous` on what `dict_find` returns: a missing name is read through NULL. The
-- result is the number that is then converted to `long long`.
unfoldable pub metric_get_instantaneous : ℕ → Option MetricEntry → Option ℕ
unfolding mean
metric_get_instantaneous samples none = none
metric_get_instantaneous samples (some e) = mean samples (sum_samples e.samples (some (pos 0)))
