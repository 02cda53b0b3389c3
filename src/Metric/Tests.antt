-- ===== src/Metric/Tests.antt =====
-- The metric functions at concrete inputs: a ring of two samples.
use latte_redis_server.Prelude.{◌≡◌, refl, [], ◌∷◌, some, arith}
use latte_redis_server.Prelude.Int.{◌+ℤ◌, pos, negsuc}
use latte_redis_server.Metric.{
  MetricEntry, metric_track_instantaneous, metric_get_instantaneous, sum_samples, in_range,
}
use latte_redis_server.Metric.Ring.{metric_track_instantaneous_lem}

abbrev entry : MetricEntry
entry = record {
  last_sample_base = pos 1000;
  last_sample_value = pos 10;
  idx = 1;
  samples = pos 4 ∷ pos 0 ∷ [];
}

-- Six more commands in 2000 microseconds are three in a thousandth of a second.
metric_track_instantaneous_lem_example :
    metric_track_instantaneous 2 (some entry) (pos 16) (pos 3000) (pos 1000)
    ≡ some (record {
      last_sample_base = pos 3000;
      last_sample_value = pos 16;
      idx = 0;
      samples = pos 4 ∷ pos 3 ∷ [];
    })
metric_track_instantaneous_lem_example =
    metric_track_instantaneous_lem 2 entry 10 6 999 2000 1000 refl refl (omega arith) (omega arith)
      (omega arith) (omega arith) (omega arith)

mean_of_entry : metric_get_instantaneous 2 (some entry) ≡ some 2
unfolding metric_get_instantaneous sum_samples in_range ◌+ℤ◌
mean_of_entry = refl

-- A negative sum is read as a large number: the mean of -4 and 0.
mean_of_negative :
    metric_get_instantaneous 2 (some (record entry { samples = negsuc 3 ∷ pos 0 ∷ [] }))
    ≡ some 9223372036854775806
unfolding metric_get_instantaneous sum_samples in_range ◌+ℤ◌
mean_of_negative = refl
