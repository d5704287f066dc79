-- ===== src/Kvp/Report.antt =====
-- libazureinit-kvp/src/report.rs: the provisioning report, how it is stored and how it is parsed.
pub mod Quoting
pub mod Fields
pub mod RoundTrip
pub mod Tests
use azure_init.Prelude.{
  ℕ, ◌≡◌, Bool, true, false, ◌||◌, Option, none, some, List, [], ◌∷◌, ◌++◌, map, ◌==◌,
  if◌then◌else◌, Bytes, codes, bytes_eq,
}
use mathlib.Core.Option
use azure_init.Result.{Result, ok, err, ok_or, ◌>>=◌, ◌>>◌}
use azure_init.Text.{bar, split_once, is_empty}
use azure_init.Kvp.Store.Policy.{PoolMode}
use azure_init.Kvp.Store.Record.{Entry}
use azure_init.Kvp.Store.World.{Io}
use azure_init.Kvp.Store.Pool.{insert}
use azure_init.Kvp.Diagnostics.Model.{DecodeError, malformed}

abbrev pub provisioning_report_key : Bytes
provisioning_report_key = codes "PROVISIONING_REPORT"

pub data ReportResult : Type 0 where
  success error : ReportResult

unfoldable pub result_str : ReportResult → Bytes
result_str success = codes "success"
result_str error = codes "error"

pub data ReportPpsType : Type 0 where
  no_pps os_disk running savable unknown : ReportPpsType

unfoldable pub from_wire : Bytes → Result DecodeError ReportPpsType
from_wire value =
    if bytes_eq value (codes "None")
    then ok no_pps
    else if bytes_eq value (codes "PreprovisionedOSDisk")
    then ok os_disk
    else if bytes_eq value (codes "Running")
    then ok running
    else if bytes_eq value (codes "Savable")
    then ok savable
    else if bytes_eq value (codes "Unknown")
    then ok unknown
    else err malformed

unfoldable pub pps_str : ReportPpsType → Bytes
pps_str no_pps = codes "None"
pps_str os_disk = codes "PreprovisionedOSDisk"
pps_str running = codes "Running"
pps_str savable = codes "Savable"
pps_str unknown = codes "Unknown"

pub record ProvisioningReport : Type 0 where
  pub result : ReportResult
  pub agent : Bytes
  pub vm_id : Bytes
  pub timestamp : Bytes
  pub pps_type : ReportPpsType
  pub reason : Option Bytes
  pub documentation_url : Option Bytes
  pub extra : List Entry

-- `now` is what `now_rfc3339` returns.
unfoldable pub success_report : Bytes → Bytes → Bytes → ReportPpsType → ProvisioningReport
success_report now agent vm_id pps_type = record {
  result = success;
  agent = agent;
  vm_id = vm_id;
  timestamp = now;
  pps_type = pps_type;
  reason = none;
  documentation_url = none;
  extra = [];
}

unfoldable pub failure_report : Bytes → Bytes → Bytes → Bytes → ReportPpsType → ProvisioningReport
failure_report now agent vm_id reason pps_type = record {
  result = error;
  agent = agent;
  vm_id = vm_id;
  timestamp = now;
  pps_type = pps_type;
  reason = some reason;
  documentation_url = none;
  extra = [];
}

unfoldable pub with_documentation_url : ProvisioningReport → Bytes → ProvisioningReport
with_documentation_url r url = record r { documentation_url = some url }

unfoldable pub with_extra : ProvisioningReport → Bytes → Bytes → ProvisioningReport
with_extra r key value = record r { extra = r.extra ++ (key, value) ∷ [] }

-- The functions of the csv and chrono crates that reports use: a record written with its
-- terminator, and the first record of a text, where the inner `none` is an error.
pub record Csv : Type 0 where
  pub write_record : List Bytes → Bytes
  pub first_record : Bytes → Option (Option (List Bytes))
  pub is_rfc3339 : Bytes → Bool

-- `str::strip_suffix`.
unfoldable pub strip_suffix : Bytes → Bytes → Option Bytes
strip_suffix suffix [] = none
strip_suffix suffix (b ∷ bs) =
    if bytes_eq (b ∷ bs) suffix
    then some []
    else Option.map (λ rest. b ∷ rest) (strip_suffix suffix bs)

abbrev or_whole : Option Bytes → Bytes → Bytes
or_whole none value = value
or_whole (some rest) value = rest

abbrev pub if_some : Bytes → Option Bytes → List Entry
if_some key none = []
if_some key (some value) = (key, value) ∷ []

abbrev pub fields_by : ProvisioningReport → ReportResult → List Entry
fields_by r success =
    (codes "agent", r.agent)
    ∷ (codes "pps_type", pps_str r.pps_type)
    ∷ (codes "vm_id", r.vm_id)
    ∷ (codes "timestamp", r.timestamp)
    ∷ r.extra
fields_by r error =
    if_some (codes "reason") r.reason
    ++ (codes "agent", r.agent)
      ∷ (r.extra
          ++ (codes "pps_type", pps_str r.pps_type)
            ∷ (codes "vm_id", r.vm_id)
            ∷ (codes "timestamp", r.timestamp)
            ∷ if_some (codes "documentation_url") r.documentation_url)

-- The keys and values that `encode` writes, in its order.
unfoldable pub report_fields : ProvisioningReport → List Entry
report_fields r = (codes "result", result_str r.result) ∷ fields_by r r.result

abbrev pub field_text : Entry → Bytes
field_text (key, value) = key ++ b'=' ∷ value

abbrev pub pop_newline : Bytes → Bytes
pop_newline bytes = or_whole (strip_suffix (b'\n' ∷ []) bytes) bytes

abbrev or_newline : Option Bytes → Bytes → Bytes
or_newline (some rest) value = rest
or_newline none value = pop_newline value

-- Without one `\r\n` or `\n` at the end.
abbrev pub strip_line_end : Bytes → Bytes
strip_line_end value = or_newline (strip_suffix (b'\r' ∷ b'\n' ∷ []) value) value

-- The states of `validate_report_quoting`.
pub data State : Type 0 where
  start unquoted quoted closed : State

abbrev line_break : ℕ → Bool
line_break b = (b == b'\r') || (b == b'\n')

unfoldable pub quote_step : State → ℕ → Option State
quote_step start b =
    if b == b'"'
    then some quoted
    else if b == bar
    then some start
    else if line_break b
    then none
    else some unquoted
quote_step unquoted b =
    if b == bar then some start else if (b == b'"') || line_break b then none else some unquoted
quote_step quoted b = if b == b'"' then some closed else some quoted
quote_step closed b = if b == b'"' then some quoted else if b == bar then some start else none

unfoldable pub quoting_from : State → Bytes → Result DecodeError (Unit {0})
quoting_from quoted [] = err malformed
quoting_from start [] = ok tt
quoting_from unquoted [] = ok tt
quoting_from closed [] = ok tt
quoting_from s (b ∷ bs) =
    if b == 0
    then err malformed
    else elim (quote_step s b) [ none ↦ err malformed | some s' ↦ quoting_from s' bs ]

unfoldable pub validate_report_quoting : Bytes → Result DecodeError (Unit {0})
unfolding quoting_from
validate_report_quoting value = quoting_from start value

-- The first field of a name, and the others.
unfoldable pub first_match : Bytes → List Entry → Option (Bytes × List Entry)
first_match name [] = none
first_match name ((k, v) ∷ fields) =
    if bytes_eq k name
    then some (v, fields)
    else Option.map (λ p. (p.0, (k, v) ∷ p.1)) (first_match name fields)

unfoldable pub has_field : Bytes → List Entry → Bool
has_field name [] = false
has_field name (e ∷ fields) = bytes_eq e.0 name || has_field name fields

-- The field's value, if there is one, and the fields that are left.
unfoldable pub take_field : List Entry → Bytes → Result DecodeError (Option Bytes × List Entry)
unfolding first_match has_field
take_field fields name = elim (first_match name fields) [
  | none ↦ ok (none, fields)
  | some p ↦ if has_field name p.1 then err malformed else ok (some p.0, p.1)
]

unfoldable pub parse_field : Bytes → Result DecodeError Entry
parse_field field = do
  e ← ok_or (split_once b'=' field) malformed
  if is_empty e.0 then err malformed else ok e

unfoldable pub parse_fields : List Bytes → Result DecodeError (List Entry)
unfolding parse_field
parse_fields [] = ok []
parse_fields (field ∷ rest) = do e ← parse_field field; es ← parse_fields rest; ok (e ∷ es)

unfoldable pub parse_result : Bytes → Result DecodeError ReportResult
parse_result value =
    if bytes_eq value (codes "success")
    then ok success
    else if bytes_eq value (codes "error")
    then ok error
    else err malformed

abbrev take_required : List Entry → Bytes → Result DecodeError (Bytes × List Entry)
take_required fields name = do p ← take_field fields name; v ← ok_or p.0 malformed; ok (v, p.1)

-- What only a failure's report has: its reason and its documentation.
abbrev take_failure :
    ReportResult → List Entry → Result DecodeError (Option Bytes × Option Bytes × List Entry)
take_failure success fields = ok (none, none, fields)
take_failure error fields = do
  (reason, fields) ← take_required fields (codes "reason")
  (url, fields) ← take_field fields (codes "documentation_url")
  ok (some reason, url, fields)

module _ (csv : Csv) where
  unfoldable pub encode : ProvisioningReport → Bytes
  unfolding report_fields
  encode r = pop_newline (csv.write_record (map field_text (report_fields r)))

  unfoldable pub report_of : List Entry → Result DecodeError ProvisioningReport
  unfolding take_field
  report_of fields = do
    (result_text, fields) ← take_required fields (codes "result")
    result ← parse_result result_text
    (agent, fields) ← take_required fields (codes "agent")
    (vm_id, fields) ← take_required fields (codes "vm_id")
    (timestamp, fields) ← take_required fields (codes "timestamp")
    (if csv.is_rfc3339 timestamp then ok tt else err malformed)
    (pps_text, fields) ← take_required fields (codes "pps_type")
    pps_type ← from_wire pps_text
    (reason, url, extra) ← take_failure result fields
    ok (record {
      result = result;
      agent = agent;
      vm_id = vm_id;
      timestamp = timestamp;
      pps_type = pps_type;
      reason = reason;
      documentation_url = url;
      extra = extra;
    })

  unfoldable pub from_str : Bytes → Result DecodeError ProvisioningReport
  unfolding report_of parse_fields
  from_str value = do
    let line = strip_line_end value
    validate_report_quoting line
    record_read ← ok_or (csv.first_record line) malformed
    data_read ← ok_or record_read malformed
    fields ← parse_fields data_read
    report_of fields

  unfoldable pub write_report : PoolMode → ProvisioningReport → Io (Unit {0})
  unfolding encode
  write_report mode report = insert mode provisioning_report_key (encode report)
