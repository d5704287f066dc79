-- ===== src/Kvp/Report/RoundTrip.antt =====
-- Storing a report and parsing it.
use azure_init.Prelude.{
  ◌≡◌, refl, ap, ◌∙◌, true, false, Option, none, some, List, [], ◌∷◌, ◌++◌, map, Bytes, codes, All,
  All-append, Lacks, contains, contains-Lacks,
}
use azure_init.Result.{ok}
use azure_init.Utf8.{IsUtf8}
use azure_init.Text.{is_empty}
use azure_init.Kvp.Store.Record.{Entry}
use azure_init.Kvp.Report.{
  ProvisioningReport, ReportResult, success, error, Csv, start, result_str, pps_str, report_fields,
  field_text, if_some, fields_by, strip_line_end, validate_report_quoting, report_of, encode,
  from_str,
}
use azure_init.Kvp.Report.Quoting.{
  WrittenLine, FieldText, validate_report_quoting_lem, no_newline, no_line_end,
  strip_suffix-newline,
}
use azure_init.Kvp.Report.Fields.{
  FieldKey, Context, parse_fields-map, report_of-success, report_of-error,
}

-- What is asked of the csv crate for fields that are not empty and hold no NUL byte: it writes them
-- as some line of the csv format and a newline, and reads valid text back from that line.
pub record CsvLaws (csv : Csv) : Type 0 where
  pub line : List Bytes → Bytes
  pub writes : (fs : List Bytes) → All FieldText fs → csv.write_record fs ≡ line fs ++ b'\n' ∷ []
  pub is_written : (fs : List Bytes) → All FieldText fs → WrittenLine fs (line fs)
  pub reads :
      (f : Bytes) (fs : List Bytes)
      → All FieldText (f ∷ fs)
      → All IsUtf8 (f ∷ fs)
      → csv.first_record (line (f ∷ fs)) ≡ some (some (f ∷ fs))

-- A failure has a reason, and a success has none, as the constructors leave it.
abbrev pub Reasoned : ReportResult → Option Bytes → Type 0
Reasoned success none = Unit
Reasoned success (some reason) = ⊥
Reasoned error none = ⊥
Reasoned error (some reason) = Unit

-- A report that can be stored without loss.
pub record Storable (csv : Csv) (r : ProvisioningReport) : Type 0 where
  pub reasoned : Reasoned r.result r.reason
  pub context : Context r.extra
  pub dated : csv.is_rfc3339 r.timestamp ≡ true
  pub no_nul : All (Lacks 0) (map field_text (report_fields r))
  pub utf8 : All IsUtf8 (map field_text (report_fields r))

abbrev kept : ReportResult → Option Bytes → Option Bytes
kept success url = none
kept error url = url

-- What is stored of a report: a success has no documentation.
abbrev pub stored : ProvisioningReport → ProvisioningReport
stored r = record r { documentation_url = kept r.result r.documentation_url }

-- A key without `=` by a test, as for the names of the standard fields.
named :
    (key value : Bytes) → is_empty key ≡ false → contains b'=' key ≡ false → FieldKey (key, value)
named key value h k = (h, contains-Lacks b'=' key k)

keys_good : (r : ProvisioningReport) → All FieldKey r.extra → All FieldKey (report_fields r)
unfolding report_fields contains
keys_good r c = (named (codes "result") (result_str r.result) refl refl, by_result r.result)
  where
    P : FieldKey (codes "pps_type", pps_str r.pps_type)
    P = named (codes "pps_type") (pps_str r.pps_type) refl refl

    V : FieldKey (codes "vm_id", r.vm_id)
    V = named (codes "vm_id") r.vm_id refl refl

    T : FieldKey (codes "timestamp", r.timestamp)
    T = named (codes "timestamp") r.timestamp refl refl

    A : FieldKey (codes "agent", r.agent)
    A = named (codes "agent") r.agent refl refl

    optional :
        (key : Bytes) (o : Option Bytes)
        → is_empty key ≡ false
        → contains b'=' key ≡ false
        → All FieldKey (if_some key o)
    optional key none h k = tt
    optional key (some v) h k = (named key v h k, tt)

    by_result : (result : ReportResult) → All FieldKey (fields_by r result)
    by_result success = (A, (P, (V, (T, c))))
    by_result error =
        All-append FieldKey (if_some (codes "reason") r.reason) _
          (optional (codes "reason") r.reason refl refl)
          (
            A,
            All-append FieldKey r.extra _ c
                (P, (V, (T, optional (codes "documentation_url") r.documentation_url refl refl))),
          )

module _ (csv : Csv) (r : ProvisioningReport) (c : Context r.extra) where
  report_back :
      csv.is_rfc3339 r.timestamp ≡ true
      → Reasoned r.result r.reason
      → report_of csv (report_fields r) ≡ ok (stored r)
  report_back t h = go r.result r.reason h
    where
      go :
          (result : ReportResult) (reason : Option Bytes)
          → Reasoned result reason
          → report_of csv (report_fields (record r { result = result; reason = reason }))
            ≡ ok (stored (record r { result = result; reason = reason }))
      go success none h =
          report_of-success csv r.agent r.vm_id r.timestamp r.pps_type r.documentation_url r.extra c
            t
      go success (some reason) h = absurd h
      go error none h = absurd h
      go error (some reason) h =
          report_of-error csv r.agent r.vm_id r.timestamp r.pps_type reason r.documentation_url
            r.extra c t

some_text : (e : Entry) → is_empty (field_text e) ≡ false
some_text ([], value) = refl
some_text (k ∷ key, value) = refl

field_texts :
    (es : List Entry) → All (Lacks 0) (map field_text es) → All FieldText (map field_text es)
field_texts [] h = tt
field_texts (e ∷ es) (z, zs) = ((some_text e, z), field_texts es zs)

-- The line that was written is read back as it was: nothing is stripped from it.
strip_line_end-accepted : (v : Bytes) → validate_report_quoting v ≡ ok tt → strip_line_end v ≡ v
unfolding validate_report_quoting
strip_line_end-accepted v h = rw (no_line_end start v h, no_newline start v h) refl

encode-line :
    (csv : Csv) (laws : CsvLaws csv) (r : ProvisioningReport)
    → All (Lacks 0) (map field_text (report_fields r))
    → encode csv r ≡ laws.line (map field_text (report_fields r))
unfolding encode
encode-line csv laws r z =
    let fs = map field_text (report_fields r) in
    rw (laws.writes fs (field_texts (report_fields r) z), strip_suffix-newline (laws.line fs)) refl

parsed :
    (csv : Csv) (laws : CsvLaws csv) (e : Entry) (es : List Entry)
    → All FieldKey (e ∷ es)
    → All (Lacks 0) (map field_text (e ∷ es))
    → All IsUtf8 (map field_text (e ∷ es))
    → from_str csv (laws.line (map field_text (e ∷ es))) ≡ report_of csv (e ∷ es)
unfolding from_str
parsed csv laws e es keys z u =
    let fs = map field_text (e ∷ es) in
    let texts = field_texts (e ∷ es) z in
    let accepted = validate_report_quoting_lem fs (laws.line fs) texts (laws.is_written fs texts) in
    rw
      (
        strip_line_end-accepted (laws.line fs) accepted,
        accepted,
        laws.reads (field_text e) (map field_text es) texts u,
        parse_fields-map (e ∷ es) keys,
      )
      refl

-- A storable report that is encoded and parsed again is the same report, but for the documentation
-- of a success, which is not stored: its context keeps its order and its repeated keys.
pub from_str-encode :
    (csv : Csv) (r : ProvisioningReport)
    → CsvLaws csv
    → Storable csv r
    → from_str csv (encode csv r) ≡ ok (stored r)
unfolding report_fields
from_str-encode csv r laws s =
    ap (from_str csv) (encode-line csv laws r s.no_nul)
    ∙ parsed csv laws (codes "result", result_str r.result) (fields_by r r.result)
        (keys_good r s.context.keys) s.no_nul s.utf8
    ∙ report_back csv r s.context s.dated s.reasoned
