-- ===== src/Kvp/Report/Fields.antt =====
-- The fields of a report, and finding them by name.
use azure_init.Prelude.{
  ◌≡◌, refl, ap, ◌∙◌, true, false, Option, none, some, List, [], ◌∷◌, ◌++◌, map, arith, ◌==◌, Bytes,
  codes, bytes_eq, All, Lacks, append-nil, Option-cases, inl, inr,
}
use mathlib.Core.Option
use azure_init.Result.{ok}
use azure_init.Text.{split_once, is_empty}
use azure_init.Kvp.Store.Record.{Entry}
use azure_init.Kvp.Report.{
  ProvisioningReport, ReportResult, success, error, ReportPpsType, no_pps, os_disk, running,
  savable, unknown, Csv, result_str, pps_str, from_wire, parse_result, report_fields, field_text,
  first_match, has_field, take_field, parse_field, parse_fields, report_of,
}

-- A key that a field can have: not empty, and without `=`.
abbrev pub FieldKey : Entry → Type 0
FieldKey e = (is_empty e.0 ≡ false) × Lacks b'=' e.0

pub split_once-field :
    (key value : Bytes) → Lacks b'=' key → split_once b'=' (key ++ b'=' ∷ value) ≡ some (key, value)
unfolding split_once
split_once-field [] value h = refl
split_once-field (k ∷ key) value (hk, h) =
    let other : (k == b'=') ≡ false = ground arith in rw (other, split_once-field key value h) refl

pub parse_fields-map :
    (es : List Entry) → All FieldKey es → parse_fields (map field_text es) ≡ ok es
unfolding parse_fields parse_field
parse_fields-map [] h = refl
parse_fields-map (e ∷ es) ((some_key, no_sign), h) =
    rw (split_once-field e.0 e.1 no_sign, some_key, parse_fields-map es h) refl

-- A name that none of these fields has.
abbrev pub Free : Bytes → List Entry → Type 0
Free name es = has_field name es ≡ false

has_field-append :
    (name : Bytes) (es fs : List Entry)
    → Free name es
    → has_field name (es ++ fs) ≡ has_field name fs
unfolding has_field
has_field-append name [] fs h = refl
has_field-append name (e ∷ es) fs h = ground (arith, has_field-append name es fs)

first_match-append :
    (name : Bytes) (es fs : List Entry)
    → Free name es
    → first_match name (es ++ fs) ≡ Option.map (λ p. (p.0, es ++ p.1)) (first_match name fs)
unfolding has_field first_match
first_match-append name [] fs h = elim (Option-cases (first_match name fs)) [
  | inl e ↦ rw e refl
  | inr (p, e) ↦ rw e refl
]
first_match-append name (e ∷ es) fs h =
    let other : bytes_eq e.0 name ≡ false = ground arith in
    let ih = first_match-append name es fs (ground arith) in
    elim (Option-cases (first_match name fs)) [
      | inl f ↦ rw (other, ih, f) refl
      | inr (p, f) ↦ rw (other, ih, f) refl
    ]

Free-append :
    (name : Bytes) (es fs : List Entry) → Free name es → Free name fs → Free name (es ++ fs)
Free-append name es fs h k = has_field-append name es fs h ∙ k

taken :
    (name : Bytes) (fields : List Entry) (v : Bytes) (rest : List Entry)
    → first_match name fields ≡ some (v, rest)
    → Free name rest
    → take_field fields name ≡ ok (some v, rest)
unfolding take_field
taken name fields v rest e h = rw (take_field, e, h) refl

-- A field that stands behind the context and one other field.
taken_behind :
    (name : Bytes) (e : Entry) (es fs : List Entry) (v : Bytes) (rest : List Entry)
    → bytes_eq e.0 name ≡ false
    → Free name es
    → first_match name fs ≡ some (v, rest)
    → Free name rest
    → take_field (e ∷ (es ++ fs)) name ≡ ok (some v, e ∷ (es ++ rest))
unfolding first_match has_field
taken_behind name e es fs v rest other h m k =
    taken name (e ∷ (es ++ fs)) v (e ∷ (es ++ rest))
      (rw (other, first_match-append name es fs h, m) refl)
      (rw other (Free-append name es rest h k))

pps_back : (p : ReportPpsType) → from_wire (pps_str p) ≡ ok p
unfolding from_wire pps_str bytes_eq
pps_back no_pps = refl
pps_back os_disk = refl
pps_back running = refl
pps_back savable = refl
pps_back unknown = refl

result_back : (r : ReportResult) → parse_result (result_str r) ≡ ok r
unfolding parse_result result_str bytes_eq
result_back success = refl
result_back error = refl

-- Context that no field of its own name can hide: the standard names are not among its keys.
pub record Context (extra : List Entry) : Type 0 where
  pub keys : All FieldKey extra
  pub result : Free (codes "result") extra
  pub agent : Free (codes "agent") extra
  pub vm_id : Free (codes "vm_id") extra
  pub timestamp : Free (codes "timestamp") extra
  pub pps_type : Free (codes "pps_type") extra
  pub reason : Free (codes "reason") extra
  pub documentation_url : Free (codes "documentation_url") extra

module _ (csv : Csv) where
  pub report_of-success :
      (agent vm_id timestamp : Bytes) (pps : ReportPpsType) (url : Option Bytes)
      (extra : List Entry)
      → Context extra
      → csv.is_rfc3339 timestamp ≡ true
      → report_of csv (
          report_fields (record {
            result = success;
            agent = agent;
            vm_id = vm_id;
            timestamp = timestamp;
            pps_type = pps;
            reason = none;
            documentation_url = url;
            extra = extra;
          }))
        ≡ ok (record {
          result = success;
          agent = agent;
          vm_id = vm_id;
          timestamp = timestamp;
          pps_type = pps;
          reason = none;
          documentation_url = none;
          extra = extra;
        })
  unfolding report_of report_fields take_field first_match has_field bytes_eq
  report_of-success agent vm_id timestamp pps url extra c t =
      rw (c.result, result_back success, c.agent, c.vm_id, c.timestamp, t, c.pps_type, pps_back pps)
        refl

  abbrev pub failed :
      Bytes → Bytes → Bytes → ReportPpsType → Bytes → Option Bytes → List Entry → ProvisioningReport
  failed agent vm_id timestamp pps reason url extra = record {
    result = error;
    agent = agent;
    vm_id = vm_id;
    timestamp = timestamp;
    pps_type = pps;
    reason = some reason;
    documentation_url = url;
    extra = extra;
  }

  -- What stands behind the context when the fields before have been taken.
  abbrev url_field : Option Bytes → List Entry
  url_field none = []
  url_field (some url) = (codes "documentation_url", url) ∷ []

  url_taken :
      (url : Option Bytes) (extra : List Entry)
      → Free (codes "documentation_url") extra
      → take_field (extra ++ url_field url) (codes "documentation_url") ≡ ok (url, extra)
  unfolding take_field first_match has_field bytes_eq
  url_taken none extra h =
      rw (take_field, first_match-append (codes "documentation_url") extra [] h)
        (ap (λ t. ok (none, t)) (append-nil extra))
  url_taken (some url) extra h =
      rw
        (
          take_field,
          first_match-append (codes "documentation_url") extra (url_field (some url)) h,
          append-nil extra,
          h,
        )
        refl

  url_Free :
      (name : Bytes) (url : Option Bytes)
      → bytes_eq (codes "documentation_url") name ≡ false
      → Free name (url_field url)
  unfolding has_field
  url_Free name none h = refl
  url_Free name (some url) h = rw h refl

  pub report_of-error :
      (agent vm_id timestamp : Bytes) (pps : ReportPpsType) (reason : Bytes) (url : Option Bytes)
      (extra : List Entry)
      → Context extra
      → csv.is_rfc3339 timestamp ≡ true
      → report_of csv (report_fields (failed agent vm_id timestamp pps reason url extra))
        ≡ ok (failed agent vm_id timestamp pps reason url extra)
  unfolding report_of report_fields first_match has_field bytes_eq
  report_of-error agent vm_id timestamp pps reason url extra c t =
      let E : Entry = (codes "result", result_str error) in
      let P : Entry = (codes "pps_type", pps_str pps) in
      let V : Entry = (codes "vm_id", vm_id) in
      let T : Entry = (codes "timestamp", timestamp) in
      let R : Entry = (codes "reason", reason) in
      let A : Entry = (codes "agent", agent) in
      let u : List Entry = url_field url in
      rw
        (
          taken (codes "result") (E ∷ R ∷ A ∷ (extra ++ P ∷ V ∷ T ∷ u)) (result_str error)
              (R ∷ A ∷ (extra ++ P ∷ V ∷ T ∷ u)) refl
              (Free-append (codes "result") extra (P ∷ V ∷ T ∷ u) c.result
                (url_Free (codes "result") url refl)),
          result_back error,
          taken (codes "agent") (R ∷ A ∷ (extra ++ P ∷ V ∷ T ∷ u)) agent
              (R ∷ (extra ++ P ∷ V ∷ T ∷ u)) refl
              (Free-append (codes "agent") extra (P ∷ V ∷ T ∷ u) c.agent
                (url_Free (codes "agent") url refl)),
          taken_behind (codes "vm_id") R extra (P ∷ V ∷ T ∷ u) vm_id (P ∷ T ∷ u) refl c.vm_id refl
              (url_Free (codes "vm_id") url refl),
          taken_behind (codes "timestamp") R extra (P ∷ T ∷ u) timestamp (P ∷ u) refl c.timestamp
              refl (url_Free (codes "timestamp") url refl),
          t,
          taken_behind (codes "pps_type") R extra (P ∷ u) (pps_str pps) u refl c.pps_type refl
              (url_Free (codes "pps_type") url refl),
          pps_back pps,
          taken (codes "reason") (R ∷ (extra ++ u)) reason (extra ++ u) refl
              (Free-append (codes "reason") extra u c.reason (url_Free (codes "reason") url refl)),
          url_taken url extra c.documentation_url,
        )
        refl
