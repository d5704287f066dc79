-- ===== src/Kvp/Diagnostics/Reader.antt =====
-- `DiagnosticReader` (diagnostics/reader.rs): chunks put in order and decoded, and the metadata of a
-- DIAG group.
pub mod Chunks
pub mod RoundTrip
use azure_init.Prelude.{
  ℕ, zero, suc, ◌+◌, ◌-◌, ◌*◌, ◌^◌, ◌≡◌, refl, Bool, true, false, ◌&&◌, ◌||◌, not, Option, none,
  some, List, [], ◌∷◌, ◌++◌, ltb, leb, ◌==◌, if◌then◌else◌, Bytes, codes, contains, length,
  bytes_eq,
}
use azure_init.Result.{Result, ok, err, ok_or, ◌>>=◌, ◌>>◌}
use azure_init.Text.{bar, split, split_once, rsplit_once, is_empty, all_digits, value_from}
use azure_init.Kvp.Diagnostics.Model.{
  diagnostic_version_id, Encoding, zlib_b64, gz_b64, other, Outcome, success, failure, outcome_str,
  DiagnosticPayload, DecodeError, malformed, duplicate_chunk, incomplete_group, Duration,
  DiagnosticKey, Diagnostic, started, finished, observed, RawKeyValue, parse_unsigned,
}
use azure_init.Kvp.Diagnostics.External.{External}
use azure_init.Kvp.Diagnostics.Encode.{decode_payload}

pub record Chunk : Type 0 where
  pub position : ℕ
  pub index : ℕ
  pub raw : RawKeyValue

unfoldable pub split_chunk_key : Bytes → Result DecodeError (Bytes × ℕ)
split_chunk_key key = do
  (base, index) ← ok_or (rsplit_once bar key) malformed
  n ← parse_unsigned index
  ok (base, n)

-- `sort_by_key` is stable: a chunk goes before those of the same index that stood behind it.
unfoldable pub insert_chunk : Chunk → List Chunk → List Chunk
insert_chunk c [] = c ∷ []
insert_chunk c (d ∷ ds) = if leb c.index d.index then c ∷ d ∷ ds else d ∷ insert_chunk c ds

unfoldable pub sort_chunks : List Chunk → List Chunk
unfolding insert_chunk
sort_chunks [] = []
sort_chunks (c ∷ cs) = insert_chunk c (sort_chunks cs)

-- `windows(2).any(|pair| pair[0].index == pair[1].index)`
unfoldable pub has_repeat : List Chunk → Bool
has_repeat [] = false
has_repeat (c ∷ []) = false
has_repeat (c ∷ d ∷ ds) = (c.index == d.index) || has_repeat (d ∷ ds)

-- No chunk's index differs from its place, counted from `expected`.
unfoldable pub in_place : ℕ → List Chunk → Bool
in_place expected [] = true
in_place expected (c ∷ cs) = (c.index == expected) && in_place (suc expected) cs

-- The sorted chunks, or why they are refused.
unfoldable pub order_chunks : List Chunk → Result DecodeError (List Chunk)
unfolding sort_chunks has_repeat in_place
order_chunks chunks =
    if has_repeat (sort_chunks chunks)
    then err duplicate_chunk
    else if in_place 0 (sort_chunks chunks)
    then ok (sort_chunks chunks)
    else err incomplete_group

abbrev pub values : List Chunk → Bytes
values [] = []
values (c ∷ cs) = c.raw.value ++ values cs

unfoldable pub parse_decimal_duration : Bytes → Result DecodeError Duration
parse_decimal_duration value = whole_or_fraction (split_once b'.' value) value
  where
    fraction_nanos : Bytes → Result DecodeError ℕ
    fraction_nanos fraction =
        if is_empty fraction || ltb 9 (length fraction) || not (all_digits fraction)
        then err malformed
        else ok (value_from 0 fraction * 10 ^ (9 - length fraction))

    whole_or_fraction : Option (Bytes × Bytes) → Bytes → Result DecodeError Duration
    whole_or_fraction none whole = do s ← parse_unsigned whole; ok (record { secs = s; nanos = 0 })
    whole_or_fraction (some (whole, fraction)) _ = do
      s ← parse_unsigned whole
      n ← fraction_nanos fraction
      ok (record { secs = s; nanos = n })

abbrev parse_result : Bytes → Result DecodeError (Option Outcome)
parse_result token =
    if is_empty token
    then ok none
    else if bytes_eq token (outcome_str success)
    then ok (some success)
    else if bytes_eq token (outcome_str failure)
    then ok (some failure)
    else err malformed

abbrev parse_encoding : Bytes → Option Encoding
parse_encoding token =
    if bytes_eq token (codes "none")
    then none
    else if bytes_eq token (codes "zlib+b64")
    then some zlib_b64
    else if bytes_eq token (codes "gz+b64")
    then some gz_b64
    else some (other token)

abbrev require : Bool → Result DecodeError (Unit {0})
require true = ok tt
require false = err malformed

module _ (ext : External) where
  open ext use {Timestamp, is_uuid, parse_rfc3339, parse_float_seconds}

  abbrev or_float : Bytes → Result DecodeError Duration → Result DecodeError Duration
  or_float value (ok d) = ok d
  or_float value (err e) = ok_or (parse_float_seconds value) malformed

  unfoldable pub parse_duration : Bytes → Result DecodeError Duration
  parse_duration value = or_float value (parse_decimal_duration value)

  unfoldable pub decode_chunks : List Chunk → Option Encoding → Result DecodeError DiagnosticPayload
  decode_chunks chunks encoding = do
    ordered ← order_chunks chunks
    decode_payload ext (values ordered) encoding

  abbrev parse_opt_duration : Bytes → Result DecodeError (Option Duration)
  parse_opt_duration value =
      if is_empty value then ok none else do d ← parse_duration value; ok (some d)

  -- The last `match` of `decode_diag_group`: the kind decides what must be given.
  unfoldable pub build_diagnostic :
      Bytes
      → DiagnosticKey Timestamp
      → Option Outcome
      → Option Duration
      → List Chunk
      → Result DecodeError (Diagnostic Timestamp)
  build_diagnostic kind key result duration chunks =
      if bytes_eq kind (codes "start")
      then as_start result duration
      else if bytes_eq kind (codes "finish")
      then as_finish result duration
      else if bytes_eq kind (codes "event")
      then (do
        payload ← decode_chunks chunks key.encoding
        ok (
            observed
              (record { key = key; payload = payload; result = result; duration = duration })))
      else err malformed
    where
      as_start : Option Outcome → Option Duration → Result DecodeError (Diagnostic Timestamp)
      as_start none none = do
        payload ← decode_chunks chunks key.encoding
        ok (started (record { key = key; payload = payload }))
      as_start _ _ = err malformed

      as_finish : Option Outcome → Option Duration → Result DecodeError (Diagnostic Timestamp)
      as_finish (some r) (some d) = do
        payload ← decode_chunks chunks key.encoding
        ok (finished (record { key = key; payload = payload; result = r; duration = d }))
      as_finish _ _ = err malformed

  unfoldable pub decode_fields :
      Bytes → List Bytes → List Chunk → Result DecodeError (Diagnostic Timestamp)
  decode_fields base
        (version ∷ agent ∷ vm_id ∷ kind ∷ name ∷ event_id ∷ timestamp ∷ encoding ∷ result ∷ duration
          ∷ [])
        chunks =
      do
        require (bytes_eq version diagnostic_version_id && not (contains 0 base))
        require (
            not (
              is_empty agent
              || is_empty vm_id
              || is_empty name
              || is_empty event_id
              || is_empty timestamp
              || is_empty encoding))
        require (is_uuid vm_id)
        parsed_timestamp ← ok_or (parse_rfc3339 timestamp) malformed
        parsed_result ← parse_result result
        parsed_duration ← parse_opt_duration duration
        build_diagnostic kind
            (record {
              agent = agent;
              vm_id = some vm_id;
              name = name;
              event_id = event_id;
              timestamp = parsed_timestamp;
              encoding = parse_encoding encoding;
            })
            parsed_result parsed_duration chunks
  decode_fields base _ chunks = err malformed

  unfoldable pub decode_diag_group : Bytes → List Chunk → Result DecodeError (Diagnostic Timestamp)
  unfolding decode_fields
  decode_diag_group base chunks = decode_fields base (split bar base) chunks
