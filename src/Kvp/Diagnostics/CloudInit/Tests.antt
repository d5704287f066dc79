-- ===== src/Kvp/Diagnostics/CloudInit/Tests.antt =====
-- The theorems about cloud-init's events applied to a key and a duration, with stand-ins for the
-- other crates.
use azure_init.Prelude.{
  ℕ, ◌*◌, ◌≤◌, ◌<◌, ◌≡◌, ◌⊎◌, refl, none, some, [], arith, min, Bytes, codes, length, ltb, contains,
  bytes_eq,
}
use azure_init.Result.{ok}
use azure_init.Text.{u64_max, split, all_digits, to_decimal}
use azure_init.Kvp.Diagnostics.Model.{Duration}
use azure_init.Kvp.Diagnostics.External.{External}
use azure_init.Kvp.Diagnostics.Json.{SerdeJson}
use azure_init.Kvp.Diagnostics.Writer.{chunk_key}
use azure_init.Kvp.Diagnostics.CloudInit.{CloudInitKey, parse_key, split_key, duration_us}
use azure_init.Kvp.Diagnostics.CloudInit.Keys.{split_key-chunk_key}
use azure_init.Kvp.Diagnostics.CloudInit.Durations.{micros, duration_us_bounds}

-- A UUID is a text of more than 20 bytes here.
abbrev ext : External
ext = record {
  Timestamp = ℕ;
  is_uuid = λ b. ltb 20 (length b);
  to_rfc3339 = λ _ _. [];
  parse_rfc3339 = λ _. some 0;
  base64_encode = λ b. b;
  base64_decode = some;
  gz_compress = λ b. b;
  gz_decompress = λ b. some (b, []);
  zlib_compress = λ b. b;
  zlib_decompress = λ b. some (b, []);
  parse_float_seconds = λ _. none;
}

-- Every number is a `u64` here.
abbrev json : SerdeJson
json = record {
  Value = Bytes;
  Number = ℕ;
  Float = ℕ;
  parse_value = some;
  parse_string = some;
  get = λ _ _. none;
  as_str = some;
  as_u64 = λ _. none;
  as_number = λ _. none;
  number_u64 = some;
  number_f64 = λ _. none;
  remove = λ _ v. some v;
  equal = bytes_eq;
  times_million = λ x. x * 1000000;
  in_u64_range = λ x. ltb x u64_max;
  round_u64 = λ x. min x u64_max;
}

abbrev event : Bytes
event = codes "CLOUD_INIT|100|start|test|b7a822ba-4eea-46c0-b559-e84396101132"

abbrev event_key : CloudInitKey
event_key = record {
  kind = codes "start";
  name = codes "test";
  vm_id = none;
  event_id = codes "b7a822ba-4eea-46c0-b559-e84396101132";
}

event_parsed : parse_key ext event ≡ ok event_key
unfolding parse_key split bytes_eq contains all_digits
event_parsed = refl

split_key-chunk_key_example :
    (split_key ext event ≡ ok (event, none))
    × (split_key ext (chunk_key event 7) ≡ ok (event, some 7))
split_key-chunk_key_example =
    split_key-chunk_key ext event event_key 7 event_parsed (omega arith) (unfold to_decimal in refl)

abbrev three_seconds : Duration
three_seconds = record { secs = 3; nanos = 0 }

three_accepted : duration_us ext json 3 ≡ ok three_seconds
unfolding duration_us
three_accepted = refl

duration_us_bounds_example :
    (three_seconds.nanos < 1000000000)
    × (micros three_seconds ≤ u64_max)
    × ((json.number_u64 3 ≡ none) ⊎ ((json.number_u64 3 ≡ some 3) × (three_seconds.nanos ≡ 0)))
duration_us_bounds_example =
    duration_us_bounds ext json (λ x. omega arith) 3 three_seconds three_accepted
