-- ===== src/Kvp/Diagnostics/Writer.antt =====
-- `DiagnosticWriter` (diagnostics/writer.rs): from a diagnostic to the records of its payload.
use azure_init.Prelude.{
  ℕ, zero, suc, ◌-◌, ◌/◌, ◌^◌, Option, none, some, List, [], ◌∷◌, ◌++◌, ltb, if◌then◌else◌, Bytes,
  codes, contains, length, min, take, drop, String,
}
use azure_init.Result.{Result, ok, err, ok_or, ◌>>=◌, ◌>>◌}
use azure_init.Utf8.{is_char_boundary}
use azure_init.Text.{bar, is_empty, to_decimal, to_decimal_padded}
use azure_init.Kvp.Error.{
  KvpError, empty_event_field, event_field_contains_delimiter, key_contains_null,
  event_field_too_long, invalid_uuid, too_many_chunks, key_too_large,
}
use azure_init.Kvp.Store.Policy.{PoolMode}
use azure_init.Kvp.Store.Record.{Entry}
use azure_init.Kvp.Store.World
use azure_init.Kvp.Store.World.{Io, check}
use azure_init.Kvp.Store.Pool.{append_multiple}
use azure_init.Kvp.Diagnostics.Model.{
  diagnostic_version_id, max_chunk_bytes, kind_str, Encoding, encoding_str, Outcome, outcome_str,
  DiagnosticPayload, Duration, DiagnosticKey, Diagnostic, started, finished, observed, kind,
}
use azure_init.Kvp.Diagnostics.External.{External, SecondsFormat}
use azure_init.Kvp.Diagnostics.Encode.{encode_payload}

abbrev pub max_agent_bytes : ℕ
max_agent_bytes = 32

abbrev pub default_max_name_bytes : ℕ
default_max_name_bytes = 64

abbrev pub max_uuid_bytes : ℕ
max_uuid_bytes = 36

abbrev pub max_timestamp_bytes : ℕ
max_timestamp_bytes = 30

abbrev pub max_key_bytes : ℕ
max_key_bytes = 254

abbrev pub max_chunks : ℕ
max_chunks = 1023

pub data TimestampPrecision : Type 0 where
  seconds millis micros nanos : TimestampPrecision

unfoldable pub seconds_format : TimestampPrecision → SecondsFormat
seconds_format seconds = SecondsFormat.secs
seconds_format millis = SecondsFormat.millis
seconds_format micros = SecondsFormat.micros
seconds_format nanos = SecondsFormat.nanos

pub data DurationPrecision : Type 0 where
  whole milli micro nano : DurationPrecision

abbrev with_fraction : ℕ → Duration → Bytes
with_fraction digits d =
    to_decimal d.secs ++ b'.' ∷ to_decimal_padded digits (d.nanos / 10 ^ (9 - digits))

-- `DurationPrecision::format`
unfoldable pub format_duration : DurationPrecision → Duration → Bytes
format_duration whole d = to_decimal d.secs
format_duration milli d = with_fraction 3 d
format_duration micro d = with_fraction 6 d
format_duration nano d = with_fraction 9 d

unfoldable pub validate_field : String → Bytes → ℕ → Result KvpError (Unit {0})
validate_field field value max =
    if is_empty value
    then err (empty_event_field field)
    else if contains bar value
    then err (event_field_contains_delimiter field)
    else if contains 0 value
    then err key_contains_null
    else if ltb max (length value)
    then err (event_field_too_long field max (length value))
    else ok tt

-- The inner loop of `frame_records`: the last character boundary at or before `end`.
unfoldable pub back_off : Bytes → ℕ → ℕ
back_off value zero = zero
back_off value (suc end) =
    let rest = back_off value end in if is_char_boundary value (suc end) then suc end else rest

abbrev pub chunk_key : Bytes → ℕ → Bytes
chunk_key base n = base ++ bar ∷ to_decimal n

abbrev pub chunk_end : Bytes → ℕ
chunk_end value = back_off value (min (length value) max_chunk_bytes)

-- The loop of `frame_records`; the first number is how many records may still be added.
unfoldable pub frame_loop : ℕ → Bytes → List Entry → Bytes → Result KvpError (List Entry)
frame_loop zero base records value = err (too_many_chunks max_chunks)
frame_loop (suc slots) base records value =
    let key = chunk_key base (length records) in
    let records' = records ++ (key, take (chunk_end value) value) ∷ [] in
    let rest = frame_loop slots base records' (drop (chunk_end value) value) in
    if ltb max_key_bytes (length key)
    then err (key_too_large max_key_bytes (length key))
    else if is_empty (drop (chunk_end value) value)
    then ok records'
    else rest

unfoldable pub frame_records : Bytes → Bytes → Result KvpError (List Entry)
unfolding frame_loop
frame_records base value = frame_loop max_chunks base [] value

abbrev map_or_empty : {A : Type 0} → (A → Bytes) → Option A → Bytes
map_or_empty f none = []
map_or_empty f (some a) = f a

abbrev encoding_token : Option Encoding → Bytes
encoding_token none = codes "none"
encoding_token (some e) = encoding_str e

module _ (ext : External) where
  open ext use {Timestamp, is_uuid, to_rfc3339}

  unfoldable pub validate_uuid : String → Bytes → Result KvpError (Unit {0})
  validate_uuid field value = do
    validate_field field value max_uuid_bytes
    if is_uuid value then ok tt else err (invalid_uuid field)

  -- The fields of a diagnostic that `prepare_records` takes apart.
  pub record Parts : Type 0 where
    pub key : DiagnosticKey Timestamp
    pub payload : DiagnosticPayload
    pub result : Option Outcome
    pub duration : Option Duration

  unfoldable pub parts_of : Diagnostic Timestamp → Parts
  parts_of (started d) = record { key = d.key; payload = d.payload; result = none; duration = none }
  parts_of (finished d) = record {
    key = d.key;
    payload = d.payload;
    result = some d.result;
    duration = some d.duration;
  }
  parts_of (observed d) = record {
    key = d.key;
    payload = d.payload;
    result = d.result;
    duration = d.duration;
  }

  unfoldable pub prepare_records :
      Diagnostic Timestamp
      → TimestampPrecision
      → DurationPrecision
      → ℕ
      → Result KvpError (List Entry)
  prepare_records diagnostic timestamp_precision duration_precision max_name_bytes = do
    let p = parts_of diagnostic
    validate_field "agent" p.key.agent max_agent_bytes
    vm_id ← ok_or p.key.vm_id (empty_event_field "vm_id")
    validate_uuid "vm_id" vm_id
    validate_field "name" p.key.name max_name_bytes
    validate_uuid "event_id" p.key.event_id
    let timestamp = to_rfc3339 (seconds_format timestamp_precision) p.key.timestamp
    validate_field "timestamp" timestamp max_timestamp_bytes
    value ← encode_payload ext p.payload p.key.encoding
    frame_records
        (diagnostic_version_id
          ++ bar ∷ p.key.agent
          ++ bar ∷ vm_id
          ++ bar ∷ kind_str (kind diagnostic)
          ++ bar ∷ p.key.name
          ++ bar ∷ p.key.event_id
          ++ bar ∷ timestamp
          ++ bar ∷ encoding_token p.key.encoding
          ++ bar ∷ map_or_empty outcome_str p.result
          ++ bar ∷ map_or_empty (format_duration duration_precision) p.duration)
        value

  pub record DiagnosticWriter : Type 0 where
    pub store_mode : PoolMode
    pub agent : Bytes
    pub vm_id : Bytes
    pub max_name_bytes : ℕ
    pub timestamp_precision : TimestampPrecision
    pub duration_precision : DurationPrecision

  unfoldable pub new_writer : PoolMode → Bytes → Bytes → Result KvpError DiagnosticWriter
  new_writer mode agent vm_id = do
    validate_field "agent" agent max_agent_bytes
    validate_uuid "vm_id" vm_id
    ok (record {
      store_mode = mode;
      agent = agent;
      vm_id = vm_id;
      max_name_bytes = default_max_name_bytes;
      timestamp_precision = millis;
      duration_precision = micro;
    })

  unfoldable pub key_at :
      DiagnosticWriter → Bytes → Bytes → Option Encoding → Timestamp → DiagnosticKey Timestamp
  key_at writer event_id name encoding timestamp = record {
    agent = writer.agent;
    vm_id = some writer.vm_id;
    name = name;
    event_id = event_id;
    timestamp = timestamp;
    encoding = encoding;
  }

  unfoldable pub emit : DiagnosticWriter → Diagnostic Timestamp → Io (Unit {0})
  emit writer diagnostic =
      World.◌>>=◌
        (check (
          prepare_records diagnostic writer.timestamp_precision writer.duration_precision
            writer.max_name_bytes))
        (append_multiple writer.store_mode)

  -- `now` is what `Utc::now()` returns, and `fresh_id` the text of `Uuid::new_v4()`.
  unfoldable pub emit_start :
      DiagnosticWriter
      → Timestamp
      → Bytes
      → Bytes
      → DiagnosticPayload
      → Option Encoding
      → Io (Unit {0})
  emit_start writer now event_id name payload encoding =
      emit writer
        (started (record { key = key_at writer event_id name encoding now; payload = payload }))

  unfoldable pub emit_finish :
      DiagnosticWriter
      → Timestamp
      → Bytes
      → Bytes
      → DiagnosticPayload
      → Option Encoding
      → Outcome
      → Duration
      → Io (Unit {0})
  emit_finish writer now event_id name payload encoding result duration = emit writer (
      finished (record {
        key = key_at writer event_id name encoding now;
        payload = payload;
        result = result;
        duration = duration;
      }))

  unfoldable pub emit_event :
      DiagnosticWriter
      → Timestamp
      → Bytes
      → Bytes
      → DiagnosticPayload
      → Option Encoding
      → Option Outcome
      → Option Duration
      → Io (Unit {0})
  emit_event writer now fresh_id name payload encoding result duration = emit writer (
      observed (record {
        key = key_at writer fresh_id name encoding now;
        payload = payload;
        result = result;
        duration = duration;
      }))
