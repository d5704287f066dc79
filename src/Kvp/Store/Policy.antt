-- ===== src/Kvp/Store/Policy.antt =====
-- The pool's names and size limits, and the validation of keys and values (store.rs).
use azure_init.Prelude.{
  ℕ, ◌+◌, ◌-◌, ◌^◌, [], ◌∷◌, ltb, if◌then◌else◌, Bytes, codes, contains, length,
}
use azure_init.Result.{Result, ok, err}
use azure_init.Kvp.Error.{
  KvpError, empty_key, key_contains_null, key_too_large, value_contains_null, value_too_large,
}

abbrev pub wire_max_key_bytes : ℕ
wire_max_key_bytes = 512

abbrev pub wire_max_value_bytes : ℕ
wire_max_value_bytes = 2048

abbrev pub safe_max_key_bytes : ℕ
safe_max_key_bytes = 254

abbrev pub safe_max_value_bytes : ℕ
safe_max_value_bytes = 1022

abbrev pub max_unique_keys : ℕ
max_unique_keys = 1024

abbrev pub record_size : ℕ
record_size = wire_max_key_bytes + wire_max_value_bytes

-- `usize::MAX` on a 64-bit target.
abbrev pub usize_max : ℕ
usize_max = 2 ^ 64 - 1

pub data KvpPool : Type 0 where
  external guest auto auto_external auto_internal : KvpPool

unfoldable pub file_name : KvpPool → Bytes
file_name external = codes ".kvp_pool_0"
file_name guest = codes ".kvp_pool_1"
file_name auto = codes ".kvp_pool_2"
file_name auto_external = codes ".kvp_pool_3"
file_name auto_internal = codes ".kvp_pool_4"

pub data PoolMode : Type 0 where
  safe unsafe : PoolMode

unfoldable pub max_key_size : PoolMode → ℕ
max_key_size safe = safe_max_key_bytes
max_key_size unsafe = wire_max_key_bytes

unfoldable pub max_value_size : PoolMode → ℕ
max_value_size safe = safe_max_value_bytes
max_value_size unsafe = wire_max_value_bytes

unfoldable pub validate_key : Bytes → ℕ → Result KvpError (Unit {0})
validate_key [] max = err empty_key
validate_key (b ∷ key) max =
    if contains 0 (b ∷ key)
    then err key_contains_null
    else if ltb max (length (b ∷ key))
    then err (key_too_large max (length (b ∷ key)))
    else ok tt

unfoldable pub validate_value : Bytes → ℕ → Result KvpError (Unit {0})
validate_value value max =
    if contains 0 value
    then err value_contains_null
    else if ltb max (length value)
    then err (value_too_large max (length value))
    else ok tt
