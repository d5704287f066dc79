-- ===== src/Kvp/Diagnostics/CloudInit/Durations.antt =====
-- The durations of cloud-init's events: microseconds that a `u64` holds.
use azure_init.Prelude.{
  ℕ, ◌+◌, ◌*◌, ◌/◌, ◌≤◌, ◌<◌, ◌≡◌, ◌⊎◌, inl, inr, Option-cases, none, some, arith,
}
use azure_init.Result.{ok}
use azure_init.Text.{u64_max}
use azure_init.Kvp.Diagnostics.Model.{Duration}
use azure_init.Kvp.Diagnostics.External.{External}
use azure_init.Kvp.Diagnostics.Json.{SerdeJson}
use azure_init.Kvp.Diagnostics.CloudInit.{duration_us}

abbrev pub micros : Duration → ℕ
micros d = d.secs * 1000000 + d.nanos / 1000

-- Casting a float to `u64` gives a `u64`.
module _ (ext : External) (json : SerdeJson)
    (cast_bound : (x : json.Float) → json.round_u64 x ≤ u64_max) where
  abbrev Bounded : json.Number → Duration → Type 0
  Bounded seconds d =
      (d.nanos < 1000000000)
      × (micros d ≤ u64_max)
      × ((json.number_u64 seconds ≡ none)
          ⊎ ((json.number_u64 seconds ≡ some d.secs) × (d.nanos ≡ 0)))

  float_bounds :
      (seconds : json.Number) (d : Duration)
      → json.number_u64 seconds ≡ none
      → duration_us ext json seconds ≡ ok d
      → Bounded seconds d
  unfolding duration_us
  float_bounds seconds d e h = elim (Option-cases (json.number_f64 seconds)) [
    | inl n ↦ ground arith
    | inr (x, n) ↦ ground (arith, cast_bound (json.times_million x))
  ]

  whole_bounds :
      (seconds : json.Number) (d : Duration) (s : ℕ)
      → json.number_u64 seconds ≡ some s
      → duration_us ext json seconds ≡ ok d
      → Bounded seconds d
  unfolding duration_us
  whole_bounds seconds d s e h = ground arith

  -- A duration that is accepted has fewer than 1,000,000,000 nanoseconds beside its seconds, and
  -- its microseconds fit a `u64`; a whole number of seconds is kept exactly.
  pub duration_us_bounds :
      (seconds : json.Number) (d : Duration)
      → duration_us ext json seconds ≡ ok d
      → (d.nanos < 1000000000)
        × (micros d ≤ u64_max)
        × ((json.number_u64 seconds ≡ none)
            ⊎ ((json.number_u64 seconds ≡ some d.secs) × (d.nanos ≡ 0)))
  unfolding duration_us
  duration_us_bounds seconds d h = elim (Option-cases (json.number_u64 seconds)) [
    | inl e ↦ float_bounds seconds d e h
    | inr (s, e) ↦ whole_bounds seconds d s e h
  ]
