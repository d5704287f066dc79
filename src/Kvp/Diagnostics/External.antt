-- ===== src/Kvp/Diagnostics/External.antt =====
-- What the diagnostics take from other crates: `uuid`, `chrono`, `base64` and `flate2`.
use azure_init.Prelude.{Option, Bytes, Bool}
use azure_init.Kvp.Diagnostics.Model.{Duration}

-- `chrono::SecondsFormat`
pub data SecondsFormat : Type 0 where
  secs millis micros nanos : SecondsFormat

-- Functions of the other crates. A decompressor returns the bytes and the input that is left.
pub record External : Type 1 where
  pub Timestamp : Type 0
  pub is_uuid : Bytes → Bool
  pub to_rfc3339 : SecondsFormat → Timestamp → Bytes
  pub parse_rfc3339 : Bytes → Option Timestamp
  pub base64_encode : Bytes → Bytes
  pub base64_decode : Bytes → Option Bytes
  pub gz_compress : Bytes → Bytes
  pub gz_decompress : Bytes → Option (Bytes × Bytes)
  pub zlib_compress : Bytes → Bytes
  pub zlib_decompress : Bytes → Option (Bytes × Bytes)
  -- `value.parse::<f64>()` and then `Duration::try_from_secs_f64`.
  pub parse_float_seconds : Bytes → Option Duration
