-- ===== src/Kvp/Error.antt =====
-- libazureinit-kvp/src/error.rs, and the kinds of `std::io::Error` that the crate tells apart.
use azure_init.Prelude.{ℕ, String, Bytes}

-- `io::ErrorKind`; the messages of errors are not modelled. `os n` is any other kind.
pub data ErrorKind : Type 0 where
  not_found invalid_data invalid_input unexpected_eof other : ErrorKind
  os : ℕ → ErrorKind

-- A field's name is a literal; a maximum and an actual size are numbers of bytes.
pub data KvpError : Type 0 where
  empty_key : KvpError
  empty_event_field : String → KvpError
  io : ErrorKind → KvpError
  event_field_contains_delimiter : String → KvpError
  event_field_too_long : String → ℕ → ℕ → KvpError
  invalid_uuid : String → KvpError
  too_many_chunks : ℕ → KvpError
  key_contains_null : KvpError
  key_too_large : ℕ → ℕ → KvpError
  max_unique_keys_exceeded : ℕ → KvpError
  payload_not_utf8 : KvpError
  unsupported_encoding : Bytes → KvpError
  value_too_large : ℕ → ℕ → KvpError
  value_contains_null : KvpError
