-- ===== src/Kvp/Store/Record/RoundTrip.antt =====
-- Encoding a record and decoding it.
use azure_init.Prelude.{
  ℕ, zero, suc, ◌-◌, ◌≤◌, ◌≡◌, refl, [], ◌∷◌, ◌++◌, arith, Bytes, length, take, replicate, min,
  Lacks, length-append, length-take, length-replicate, take_all, take-append, drop-append,
}
use azure_init.Result.{ok}
use azure_init.Utf8.{IsUtf8}
use azure_init.Kvp.Store.Policy.{wire_max_key_bytes, wire_max_value_bytes, record_size}
use azure_init.Kvp.Store.Record.{Entry, until_nul, decode_record, zero_padded, encode_record}

-- Text that a field of `width` bytes holds without loss.
pub record Fits (width : ℕ) (text : Bytes) : Type 0 where
  pub short : length text ≤ width
  pub no_nul : Lacks 0 text
  pub utf8 : IsUtf8 text

abbrev pub EntryFits : Entry → Type 0
EntryFits (k, v) = Fits wire_max_key_bytes k × Fits wire_max_value_bytes v

pub length-zero_padded : (width : ℕ) (text : Bytes) → length (zero_padded width text) ≡ width
unfolding zero_padded
length-zero_padded width text =
    let n = min (length text) width in
    omega (
      arith,
      length-append (take n text) (replicate (width - n) 0),
      length-take n text,
      length-replicate {A = ℕ} (width - n) 0,
    )

until_nul-zeros : (n : ℕ) → until_nul (replicate n 0) ≡ []
unfolding until_nul replicate
until_nul-zeros zero = refl
until_nul-zeros (suc n) = refl

until_nul-padded : (text : Bytes) (n : ℕ) → Lacks 0 text → until_nul (text ++ replicate n 0) ≡ text
unfolding until_nul
until_nul-padded [] n h = until_nul-zeros n
until_nul-padded (b ∷ text) n (hb, h) = ground (arith, until_nul-padded text n h)

pub until_nul-zero_padded :
    (width : ℕ) (text : Bytes)
    → length text ≤ width
    → Lacks 0 text
    → until_nul (zero_padded width text) ≡ text
unfolding zero_padded
until_nul-zero_padded width text short h =
    let e : min (length text) width ≡ length text = omega arith in
    rw (e, take_all (length text) text (omega arith)) (until_nul-padded text _ h)

-- A block whose two fields hold the entry's texts decodes to the entry.
pub decode_fields :
    (key_field value_field : Bytes) (e : Entry)
    → length key_field ≡ wire_max_key_bytes
    → length value_field ≡ wire_max_value_bytes
    → until_nul key_field ≡ e.0
    → until_nul value_field ≡ e.1
    → IsUtf8 e.0
    → IsUtf8 e.1
    → decode_record (key_field ++ value_field) ≡ ok e
unfolding decode_record
decode_fields kf vf (k, v) lk lv uk uv hk hv =
    rw (take-append wire_max_key_bytes kf vf lk, drop-append wire_max_key_bytes kf vf lk, uk, uv)
      (ground (arith, length-append kf vf))

pub length-encode_record : (k v : Bytes) → length (encode_record k v) ≡ record_size
unfolding encode_record
length-encode_record k v = omega (
  arith,
  length-append (zero_padded wire_max_key_bytes k) (zero_padded wire_max_value_bytes v),
  length-zero_padded wire_max_key_bytes k,
  length-zero_padded wire_max_value_bytes v,
)

-- An entry whose key and value fit their fields, hold no NUL byte and are UTF-8 is read back from
-- its record unchanged.
pub decode_record-encode_record :
    (e : Entry) → EntryFits e → decode_record (encode_record e.0 e.1) ≡ ok e
unfolding encode_record
decode_record-encode_record (k, v) (hk, hv) =
    decode_fields _ _ (k, v) (length-zero_padded _ k) (length-zero_padded _ v)
      (until_nul-zero_padded _ k hk.short hk.no_nul) (until_nul-zero_padded _ v hv.short hv.no_nul)
      hk.utf8 hv.utf8
