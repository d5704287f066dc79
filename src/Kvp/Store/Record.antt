-- ===== src/Kvp/Store/Record.antt =====
-- The fixed-width record: `encode_record`, `decode_record` and `record_count_from_len` (store.rs).
pub mod RoundTrip
use azure_init.Prelude.{
  ℕ, zero, suc, ◌+◌, ◌-◌, ◌/◌, ◌%◌, ◌≡◌, Bool, true, false, ◌&&◌, not, [], ◌∷◌, ◌++◌, arith, ltb,
  ◌==◌, if◌then◌else◌, Bytes, length, take, drop, replicate, min,
}
use azure_init.Result.{Result, ok, err, ◌>>=◌}
use azure_init.Utf8.{is_utf8}
use azure_init.Kvp.Error.{ErrorKind, other, invalid_data}
use azure_init.Kvp.Store.Policy.{wire_max_key_bytes, wire_max_value_bytes, record_size}

-- A key and its value.
abbrev pub Entry : Type 0
Entry = Bytes × Bytes

-- The field up to its first NUL byte, or all of it.
unfoldable pub until_nul : Bytes → Bytes
until_nul [] = []
until_nul (b ∷ bs) = if b == 0 then [] else b ∷ until_nul bs

-- `str::from_utf8(..).map_err(InvalidData)`.
abbrev pub from_utf8 : Bytes → Result ErrorKind Bytes
from_utf8 bs = if is_utf8 bs then ok bs else err invalid_data

unfoldable pub decode_record : Bytes → Result ErrorKind Entry
decode_record block = if not (length block == record_size) then err other else do
  key ← from_utf8 (until_nul (take wire_max_key_bytes block))
  value ← from_utf8 (until_nul (drop wire_max_key_bytes block))
  ok (key, value)

-- A field of `width` zero bytes with the text copied to its front, cut at the field's end.
unfoldable pub zero_padded : ℕ → Bytes → Bytes
zero_padded width text = let n = min (length text) width in take n text ++ replicate (width - n) 0

unfoldable pub encode_record : Bytes → Bytes → Bytes
encode_record key value =
    zero_padded wire_max_key_bytes key ++ zero_padded wire_max_value_bytes value

unfoldable pub record_count_from_len : ℕ → Result ErrorKind ℕ
record_count_from_len len =
    if ltb 0 len && not (len % record_size == 0) then err other else ok (len / record_size)
