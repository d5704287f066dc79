-- ===== src/Kvp/Diagnostics/Model.antt =====
-- The diagnostic model (diagnostics/diagnostic.rs, diagnostics/mod.rs); text is its UTF-8 bytes.
-- A timestamp is a value of chrono's type, `T`.
use azure_init.Prelude.{ℕ, Option, Bytes, codes, ltb, not, ◌||◌, if◌then◌else◌}
use azure_init.Result.{Result, ok, err}
use azure_init.Text.{is_empty, all_digits, value_from, u64_max}

-- DIAGNOSTIC_VERSION_ID
abbrev pub diagnostic_version_id : Bytes
diagnostic_version_id = codes "DIAG"

-- MAX_CHUNK_BYTES
abbrev pub max_chunk_bytes : ℕ
max_chunk_bytes = 1022

pub data Kind : Type 0 where
  start finish event : Kind

-- `impl Display for Kind`
unfoldable pub kind_str : Kind → Bytes
kind_str start = codes "start"
kind_str finish = codes "finish"
kind_str event = codes "event"

pub data Encoding : Type 0 where
  zlib_b64 gz_b64 : Encoding
  other : Bytes → Encoding

-- `impl Display for Encoding`
unfoldable pub encoding_str : Encoding → Bytes
encoding_str zlib_b64 = codes "zlib+b64"
encoding_str gz_b64 = codes "gz+b64"
encoding_str (other token) = token

pub data Outcome : Type 0 where
  success : Outcome
  failure : Outcome

-- `Outcome::as_str`
unfoldable pub outcome_str : Outcome → Bytes
outcome_str success = codes "ok"
outcome_str failure = codes "error"

pub data DiagnosticPayload : Type 0 where
  text : Bytes → DiagnosticPayload
  bytes : Bytes → DiagnosticPayload

pub data DecodeError : Type 0 where
  unsupported_version incomplete_group duplicate_chunk undecodable malformed : DecodeError

-- `std::time::Duration`
pub record Duration : Type 0 where
  pub secs : ℕ
  pub nanos : ℕ

module _ (T : Type 0) where
  pub record DiagnosticKey : Type 0 where
    pub agent : Bytes
    pub vm_id : Option Bytes
    pub name : Bytes
    pub event_id : Bytes
    pub timestamp : T
    pub encoding : Option Encoding

  pub record DiagnosticStart : Type 0 where
    pub key : DiagnosticKey
    pub payload : DiagnosticPayload

  pub record DiagnosticFinish : Type 0 where
    pub key : DiagnosticKey
    pub payload : DiagnosticPayload
    pub result : Outcome
    pub duration : Duration

  pub record DiagnosticEvent : Type 0 where
    pub key : DiagnosticKey
    pub payload : DiagnosticPayload
    pub result : Option Outcome
    pub duration : Option Duration

  pub data Diagnostic : Type 0 where
    started : DiagnosticStart → Diagnostic
    finished : DiagnosticFinish → Diagnostic
    observed : DiagnosticEvent → Diagnostic

module _ {T : Type 0} where
  -- `Diagnostic::kind`
  unfoldable pub kind : Diagnostic T → Kind
  kind (started d) = start
  kind (finished d) = finish
  kind (observed d) = event

pub record RawKeyValue : Type 0 where
  pub key : Bytes
  pub value : Bytes
  pub error : Option DecodeError

-- `parse_unsigned`: a non-empty run of ASCII digits that a `u64` holds.
unfoldable pub parse_unsigned : Bytes → Result DecodeError ℕ
parse_unsigned value =
    if is_empty value || not (all_digits value)
    then err malformed
    else if ltb u64_max (value_from 0 value)
    then err malformed
    else ok (value_from 0 value)
