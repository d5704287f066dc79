-- ===== src/Kvp/Diagnostics/Json.antt =====
-- What the reader of cloud-init's events takes from serde_json, and from `f64`.
use azure_init.Prelude.{ℕ, Bool, Option, Bytes}

-- `serde_json::Value`, `Number` and `f64`; `remove` is `as_object_mut` and then `Map::remove`.
pub record SerdeJson : Type 1 where
  pub Value : Type 0
  pub Number : Type 0
  pub Float : Type 0
  pub parse_value : Bytes → Option Value
  pub parse_string : Bytes → Option Bytes
  pub get : Bytes → Value → Option Value
  pub as_str : Value → Option Bytes
  pub as_u64 : Value → Option ℕ
  pub as_number : Value → Option Number
  pub number_u64 : Number → Option ℕ
  pub number_f64 : Number → Option Float
  pub remove : Bytes → Value → Option Value
  pub equal : Value → Value → Bool
  -- `x * 1_000_000.0`, `(0.0..u64::MAX as f64).contains(&x)` and `x.round() as u64`.
  pub times_million : Float → Float
  pub in_u64_range : Float → Bool
  pub round_u64 : Float → ℕ
