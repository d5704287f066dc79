-- ===== src/Kvp/Diagnostics/CloudInit.antt =====
-- The events that cloud-init writes into the pool (diagnostics/cloud_init.rs).
pub mod Keys
pub mod Durations
mod Tests
use azure_init.Prelude.{
  ℕ, ◌*◌, ◌/◌, ◌%◌, ◌^◌, Bool, true, false, ◌&&◌, ◌||◌, not, Option, none, some, List, [], ◌∷◌,
  ◌++◌, ltb, ◌==◌, if◌then◌else◌, Bytes, codes, contains, length, drop, bytes_eq,
}
use azure_init.Result.{Result, ok, err, ok_or, ◌>>=◌, ◌>>◌}
use azure_init.Text.{bar, split, rsplit_once, starts_with, is_empty, all_digits, u64_max}
use azure_init.Kvp.Report.{strip_suffix}
use azure_init.Kvp.Diagnostics.Model.{
  Encoding, zlib_b64, gz_b64, success, failure, DiagnosticKey, DiagnosticPayload, text, DecodeError,
  malformed, undecodable, Duration, Diagnostic, started, finished, observed, parse_unsigned,
}
use azure_init.Kvp.Diagnostics.External.{External}
use azure_init.Kvp.Diagnostics.Json.{SerdeJson}
use azure_init.Kvp.Diagnostics.Encode.{decompress}

abbrev pub cloud_init_prefix : Bytes
cloud_init_prefix = codes "CLOUD_INIT"

pub record CloudInitKey : Type 0 where
  pub kind : Bytes
  pub name : Bytes
  pub vm_id : Option Bytes
  pub event_id : Bytes

abbrev pub require : Bool → Result DecodeError (Unit {0})
require true = ok tt
require false = err malformed

abbrev pub is_some : {A : Type 0} → Option A → Bool
is_some none = false
is_some (some a) = true

-- `iter().any(|field| field.is_empty())`
unfoldable pub any_empty : List Bytes → Bool
any_empty [] = false
any_empty (field ∷ fields) = is_empty field || any_empty fields

-- `is_ascii_whitespace`
abbrev is_space : ℕ → Bool
is_space b = (b == b' ') || (b == b'\t') || (b == b'\n') || (b == 0x0c) || (b == b'\r')

unfoldable pub drop_spaces : Bytes → Bytes
drop_spaces [] = []
drop_spaces (b ∷ bs) = let rest = drop_spaces bs in if is_space b then rest else b ∷ rest

-- `rsplit_once` of a text: cut at its last occurrence.
unfoldable pub rsplit_text : Bytes → Bytes → Option (Bytes × Bytes)
rsplit_text sep [] = none
rsplit_text sep (b ∷ bs) = elim (rsplit_text sep bs) [
  | none ↦ if starts_with sep (b ∷ bs) then some ([], drop (length sep) (b ∷ bs)) else none
  | some p ↦ some (b ∷ p.0, p.1)
]

-- `strip_prefix('"')` and then `strip_suffix("\"}")`.
abbrev pub strip_quotes : Bytes → Option Bytes
strip_quotes [] = none
strip_quotes (b ∷ bs) = if b == b'"' then strip_suffix (b'"' ∷ b'}' ∷ []) bs else none

-- `Duration::from_micros`
abbrev pub from_micros : ℕ → Duration
from_micros n = record { secs = n / 1000000; nanos = n % 1000000 * 1000 }

module _ (ext : External) where
  open ext use {is_uuid}

  -- `fields`, which `base` is split into, with the VM's id where there is one.
  abbrev checked_key :
      Bytes → List Bytes → Bytes → Bytes → CloudInitKey → Result DecodeError CloudInitKey
  checked_key base fields prefix incarnation key = do
    require (
        bytes_eq prefix cloud_init_prefix
        && not (contains 0 base)
        && not (any_empty fields)
        && all_digits incarnation)
    require (vm_ok key.vm_id)
    require (is_uuid key.event_id)
    ok key
    where
      vm_ok : Option Bytes → Bool
      vm_ok none = true
      vm_ok (some vm) = is_uuid vm

  unfoldable pub key_of_fields : Bytes → List Bytes → Result DecodeError CloudInitKey
  unfolding any_empty
  key_of_fields base (prefix ∷ incarnation ∷ kind ∷ name ∷ event_id ∷ []) =
      checked_key base (prefix ∷ incarnation ∷ kind ∷ name ∷ event_id ∷ []) prefix incarnation
        (record { kind = kind; name = name; vm_id = none; event_id = event_id })
  key_of_fields base (prefix ∷ incarnation ∷ kind ∷ name ∷ vm_id ∷ event_id ∷ []) =
      checked_key base (prefix ∷ incarnation ∷ kind ∷ name ∷ vm_id ∷ event_id ∷ []) prefix
        incarnation (record { kind = kind; name = name; vm_id = some vm_id; event_id = event_id })
  key_of_fields base _ = err malformed

  unfoldable pub parse_key : Bytes → Result DecodeError CloudInitKey
  unfolding key_of_fields
  parse_key base = key_of_fields base (split bar base)

  -- Whether a key of these fields ends in a chunk's index.
  unfoldable pub indexed : List Bytes → Result DecodeError Bool
  indexed (_ ∷ _ ∷ _ ∷ _ ∷ _ ∷ []) = ok false
  indexed (_ ∷ _ ∷ _ ∷ _ ∷ _ ∷ last ∷ []) = ok (not (is_uuid last))
  indexed (_ ∷ _ ∷ _ ∷ _ ∷ _ ∷ _ ∷ _ ∷ []) = ok true
  indexed _ = err malformed

  abbrev base_and_index : Bytes → Bool → Result DecodeError (Bytes × Option ℕ)
  base_and_index key false = ok (key, none)
  base_and_index key true = do
    p ← ok_or (rsplit_once bar key) malformed
    n ← parse_unsigned p.1
    ok (p.0, some n)

  unfoldable pub split_key : Bytes → Result DecodeError (Bytes × Option ℕ)
  unfolding indexed parse_key
  split_key key = do
    has_index ← indexed (split bar key)
    p ← base_and_index key has_index
    checked ← parse_key p.0
    ok p

  unfoldable pub decode_compressed : Bytes → Result DecodeError DiagnosticPayload
  unfolding drop_spaces decompress
  decode_compressed encoded = do
    compressed ← ok_or (ext.base64_decode (drop_spaces encoded)) undecodable
    decompress ext compressed
        (if starts_with (0x1f ∷ 0x8b ∷ []) compressed then gz_b64 else zlib_b64)

module _ (ext : External) (json : SerdeJson) where
  open ext use {Timestamp, parse_rfc3339}
  open json use {
    Value, Number, parse_value, parse_string, get, as_str, as_u64, as_number, number_u64,
    number_f64, remove, equal, times_million, in_u64_range, round_u64,
  }

  abbrev get_str : Bytes → Value → Option Bytes
  get_str field v = elim (get field v) [ none ↦ none | some w ↦ as_str w ]

  abbrev float_micros : Number → Result DecodeError Duration
  float_micros seconds = do
    x ← ok_or (number_f64 seconds) malformed
    require (in_u64_range (times_million x))
    ok (from_micros (round_u64 (times_million x)))

  unfoldable pub duration_us : Number → Result DecodeError Duration
  duration_us seconds = elim (number_u64 seconds) [
    | none ↦ float_micros seconds
    | some s ↦ if ltb u64_max (s * 1000000) then err malformed else ok (from_micros (s * 1000000))
  ]

  abbrev is_envelope : Option Value → Bool
  is_envelope none = false
  is_envelope (some v) = is_some (get (codes "encoding") v) && is_some (get (codes "data") v)

  abbrev open_envelope : Value → Result DecodeError (DiagnosticPayload × Option Encoding)
  open_envelope envelope = do
    encoding ← ok_or (get_str (codes "encoding") envelope) malformed
    (if bytes_eq encoding (codes "gz+b64") then ok tt else err undecodable)
    encoded ← ok_or (get_str (codes "data") envelope) malformed
    payload ← decode_compressed ext encoded
    ok (payload, some gz_b64)

  unfoldable pub decode_message :
      Bytes → Bool → Result DecodeError (DiagnosticPayload × Option Encoding)
  unfolding decode_compressed
  decode_message message compressed =
      if not compressed && not (is_envelope (parse_value message))
      then ok (text message, none)
      else do envelope ← ok_or (parse_value message) malformed; open_envelope envelope

  abbrev eq_text : Option Bytes → Bytes → Bool
  eq_text none t = false
  eq_text (some s) t = bytes_eq s t

  -- The last `match` of `diagnostic`: the kind decides which diagnostic it is.
  unfoldable pub build_by_kind :
      Bytes
      → DiagnosticKey Timestamp
      → Value
      → DiagnosticPayload
      → Result DecodeError (Diagnostic Timestamp)
  unfolding duration_us
  build_by_kind kind key metadata payload =
      if bytes_eq kind (codes "start")
      then (do
        require (
            not (
              is_some (get (codes "result") metadata) || is_some (get (codes "duration") metadata)))
        ok (started (record { key = key; payload = payload })))
      else if bytes_eq kind (codes "finish")
      then (do
        result ←
            (if eq_text (get_str (codes "result") metadata) (codes "SUCCESS")
              then ok success
              else if eq_text (get_str (codes "result") metadata) (codes "FAIL")
              then ok failure
              else err malformed)
        field ← ok_or (get (codes "duration") metadata) malformed
        number ← ok_or (as_number field) malformed
        duration ← duration_us number
        ok (
            finished
              (record { key = key; payload = payload; result = result; duration = duration })))
      else ok (observed (record { key = key; payload = payload; result = none; duration = none }))

  unfoldable pub diagnostic :
      CloudInitKey → Value → Bytes → Result DecodeError (Diagnostic Timestamp)
  unfolding build_by_kind decode_message
  diagnostic source metadata message = do
    require (
        eq_text (get_str (codes "name") metadata) source.name
        && eq_text (get_str (codes "type") metadata) source.kind)
    ts ← ok_or (get_str (codes "ts") metadata) malformed
    timestamp ← ok_or (parse_rfc3339 ts) malformed
    (payload, encoding) ← decode_message message (bytes_eq source.kind (codes "compressed"))
    build_by_kind source.kind
        (record {
          agent = cloud_init_prefix;
          vm_id = source.vm_id;
          name = source.name;
          event_id = source.event_id;
          timestamp = timestamp;
          encoding = encoding;
        })
        metadata payload

  unfoldable pub decode_single : Bytes → Bytes → Result DecodeError (Diagnostic Timestamp)
  unfolding parse_key diagnostic
  decode_single base value = do
    key ← parse_key ext base
    metadata ← ok_or (parse_value value) malformed
    require (not (is_some (get (codes "msg_i") metadata)))
    message ← ok_or (get_str (codes "msg") metadata) malformed
    diagnostic key metadata message

  -- The metadata of a chunk, and its piece of the escaped message.
  unfoldable pub chunk_parts : Bytes → Result DecodeError (Value × Bytes)
  unfolding rsplit_text
  chunk_parts value = do
    (prefix, message) ← ok_or (rsplit_text (codes ",\"msg\":") value) malformed
    fragment ← ok_or (strip_quotes message) malformed
    metadata ← ok_or (parse_value (prefix ++ b'}' ∷ [])) malformed
    ok (metadata, fragment)

  abbrev eq_index : Option ℕ → ℕ → Bool
  eq_index none n = false
  eq_index (some m) n = m == n

  abbrev get_u64 : Bytes → Value → Option ℕ
  get_u64 field v = elim (get field v) [ none ↦ none | some w ↦ as_u64 w ]

  -- `metadata.get_or_insert(current)`, where the two must be equal.
  abbrev keep_first : Option Value → Value → Result DecodeError Value
  keep_first none current = ok current
  keep_first (some first) current = if equal first current then ok first else err malformed

  -- One round of the loop of `decode_chunks`.
  unfoldable pub add_chunk :
      Option Value × Bytes → ℕ → Bytes → Result DecodeError (Option Value × Bytes)
  unfolding chunk_parts
  add_chunk (metadata, escaped) index value = do
    (current, fragment) ← chunk_parts value
    require (eq_index (get_u64 (codes "msg_i") current) index)
    rest ← ok_or (remove (codes "msg_i") current) malformed
    first ← keep_first metadata rest
    ok (some first, escaped ++ fragment)

  unfoldable pub add_chunks :
      Option Value × Bytes → List (ℕ × Bytes) → Result DecodeError (Option Value × Bytes)
  unfolding add_chunk
  add_chunks state [] = ok state
  add_chunks state ((index, value) ∷ chunks) = do
    next ← add_chunk state index value
    add_chunks next chunks

  unfoldable pub decode_event_chunks :
      Bytes → List (ℕ × Bytes) → Result DecodeError (Diagnostic Timestamp)
  unfolding parse_key add_chunks diagnostic
  decode_event_chunks base chunks = do
    key ← parse_key ext base
    (metadata, escaped) ← add_chunks (none, []) chunks
    message ← ok_or (parse_string (b'"' ∷ escaped ++ b'"' ∷ [])) malformed
    first ← ok_or metadata malformed
    diagnostic key first message
