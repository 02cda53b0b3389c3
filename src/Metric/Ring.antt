-- ===== src/Metric/Ring.antt =====
-- The ring of samples that `metric_track_instantaneous` of src/experiment/metric.c writes.
use latte_redis_server.Prelude.{
  ℕ, suc, ◌+◌, ◌*◌, ◌/◌, ◌%◌, ◌^◌, ◌<◌, ◌≡◌, refl, true, false, Option, none, some, ◌==◌, set,
  length, arith,
}
use latte_redis_server.Prelude.Int.{ℤ, pos, ◌-ℤ◌, ◌*ℤ◌, ltb_ℤ}
use latte_redis_server.Metric.{
  MetricEntry, in_range, quotient, average, push_sample, sampled, metric_track_instantaneous,
}

-- One place for each sample, the next one to write is one of them, and the last value and time are not
-- negative and fit.
pub record IsRing (n : ℕ) (e : MetricEntry) : Type 0 where
  pub value : ℕ
  pub base : ℕ
  pub length_lem : length e.samples ≡ n
  pub idx_lem : e.idx < n
  pub value_lem : e.last_sample_value ≡ pos value
  pub base_lem : e.last_sample_base ≡ pos base
  pub value_fits : value < 2 ^ 63
  pub base_fits : base < 2 ^ 63

-- What is known of a name: nothing, or a ring.
abbrev pub KnownRing : ℕ → Option MetricEntry → Type 0
KnownRing n none = Unit {0}
KnownRing n (some e) = IsRing n e

-- The difference of the values, by the factor, is in the range of `long long`.
abbrev pub ProductFits : ℤ → ℤ → Option MetricEntry → Type 0
ProductFits v f none = Unit {0}
ProductFits v f (some e) = (z : ℤ) × (in_range ((v -ℤ e.last_sample_value) *ℤ f) ≡ some z)

positive : (n : ℕ) → 0 < n → ltb_ℤ (pos 0) (pos n) ≡ true
positive n h = ground arith

times : (k f : ℕ) → pos k *ℤ pos f ≡ pos (k * f)
unfolding ◌*ℤ◌
times k f = ground arith

not_zero : (n : ℕ) → 0 < n → (n == 0) ≡ false
not_zero n h = ground arith

diff : (v k : ℕ) → pos (v + k) -ℤ pos v ≡ pos k
unfolding ◌-ℤ◌
diff v k = ground arith

fits : (k : ℕ) → k < 2 ^ 63 → in_range (pos k) ≡ some (pos k)
unfolding in_range
fits k h = ground arith

-- What tracking a value writes.
abbrev Written : ℕ → MetricEntry → Option MetricEntry → Type 0
Written n e o = (e' : MetricEntry) × (o ≡ some e') × (length e'.samples ≡ n) × (e'.idx < n)

-- A value that has grown by `k` over a time `d`, for an entry that has been tracked before, where the
-- numbers fit: the sample written at the index is `k * f / d`, and the index moves on by one.
pub metric_track_instantaneous_lem :
    (n : ℕ) (e : MetricEntry) (v k b d f : ℕ)
    → e.last_sample_value ≡ pos v
    → e.last_sample_base ≡ pos (suc b)
    → d < 2 ^ 63
    → 0 < d
    → 0 < n
    → k < 2 ^ 63
    → k * f < 2 ^ 63
    → metric_track_instantaneous n (some e) (pos (v + k)) (pos (suc b + d)) (pos f)
      ≡ some (record {
        last_sample_base = pos (suc b + d);
        last_sample_value = pos (v + k);
        idx = (e.idx + 1) % n;
        samples = set e.samples e.idx (pos (k * f / d));
      })
unfolding metric_track_instantaneous sampled average push_sample quotient
metric_track_instantaneous_lem n e v k b d f hv hb hd h0 hn hk hf =
    rw
      (
        hv,
        hb,
        diff v k,
        diff (suc b) d,
        fits k hk,
        fits d hd,
        positive (suc b) (omega arith),
        positive d h0,
        times k f,
        fits (k * f) hf,
        not_zero n hn,
      )
      refl
