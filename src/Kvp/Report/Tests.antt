-- ===== src/Kvp/Report/Tests.antt =====
-- The theorems about reports applied to a failure's report, with a small csv reader as the crate.
use azure_init.Prelude.{
  ℕ, ◌≡◌, refl, ap, subst, true, false, some, List, [], ◌∷◌, ◌++◌, arith, ◌==◌, if◌then◌else◌,
  Bytes, codes, contains, bytes_eq, contains-Lacks, All, append_assoc, append-nil, Bool-cases, inl,
  inr,
}
use azure_init.Result.{ok}
use azure_init.Utf8.{is_utf8}
use azure_init.Text.{bar}
use azure_init.Kvp.Report.{
  ProvisioningReport, error, running, Csv, State, start, unquoted, quoted, closed, report_fields,
  encode, from_str, has_field, result_str, pps_str,
}
use azure_init.Kvp.Report.Quoting.{needs_quotes, doubled, FieldText, WrittenField, WrittenLine}
use azure_init.Kvp.Report.RoundTrip.{CsvLaws, Storable, from_str-encode}

-- A writer that quotes only where it must.
abbrev pub quoted_field : Bytes → Bytes
quoted_field f = if needs_quotes f then b'"' ∷ doubled f ++ b'"' ∷ [] else f

unfoldable pub quoted_line : List Bytes → Bytes
unfolding needs_quotes doubled
quoted_line [] = []
quoted_line (f ∷ []) = quoted_field f
quoted_line (f ∷ g ∷ fs) = quoted_field f ++ bar ∷ quoted_line (g ∷ fs)

quoted_field-WrittenField : (f : Bytes) → WrittenField f (quoted_field f)
quoted_field-WrittenField f = elim (Bool-cases (needs_quotes f)) [
  | inl t ↦ inr (rw t refl)
  | inr n ↦ inl (n, (rw n refl))
]

quoted_line-WrittenLine : (fs : List Bytes) → WrittenLine fs (quoted_line fs)
unfolding quoted_line
quoted_line-WrittenLine [] = refl
quoted_line-WrittenLine (f ∷ []) = quoted_field-WrittenField f
quoted_line-WrittenLine (f ∷ g ∷ fs) = (
  quoted_field f,
  quoted_line (g ∷ fs),
  quoted_field-WrittenField f,
  quoted_line-WrittenLine (g ∷ fs),
  refl,
)

abbrev onto : ℕ → List Bytes → List Bytes
onto b [] = (b ∷ []) ∷ []
onto b (f ∷ fs) = (b ∷ f) ∷ fs

-- The fields of a line.
pub split_line : State → Bytes → List Bytes
split_line start [] = [] ∷ []
split_line unquoted [] = [] ∷ []
split_line quoted [] = [] ∷ []
split_line closed [] = [] ∷ []
split_line start (b ∷ bs) =
    if b == b'"'
    then split_line quoted bs
    else if b == bar
    then [] ∷ split_line start bs
    else onto b (split_line unquoted bs)
split_line unquoted (b ∷ bs) =
    if b == bar then [] ∷ split_line start bs else onto b (split_line unquoted bs)
split_line quoted (b ∷ bs) =
    if b == b'"' then split_line closed bs else onto b (split_line quoted bs)
split_line closed (b ∷ bs) =
    if b == b'"'
    then onto b (split_line quoted bs)
    else if b == bar
    then [] ∷ split_line start bs
    else onto b (split_line unquoted bs)

abbrev before : Bytes → List Bytes → List Bytes
before [] fs = fs
before (b ∷ f) fs = onto b (before f fs)

before-nil : (f : Bytes) (fs : List Bytes) → before f ([] ∷ fs) ≡ f ∷ fs
before-nil [] fs = refl
before-nil (b ∷ f) fs = ap (onto b) (before-nil f fs)

split_plain :
    (f rest : Bytes)
    → needs_quotes f ≡ false
    → split_line unquoted (f ++ rest) ≡ before f (split_line unquoted rest)
unfolding needs_quotes split_line
split_plain [] rest n = refl
split_plain (b ∷ f) rest n =
    let plain : (b == bar) ≡ false = ground arith in
    rw plain (ap (onto b) (split_plain f rest (ground arith)))

split_quoted :
    (f rest : Bytes) → split_line quoted (doubled f ++ rest) ≡ before f (split_line quoted rest)
unfolding doubled split_line
split_quoted [] rest = refl
split_quoted (b ∷ f) rest = elim (Bool-cases (b == b'"')) [
  | inl t ↦ rw (t, t) (ap (onto b) (split_quoted f rest))
  | inr n ↦ rw (n, n) (ap (onto b) (split_quoted f rest))
]

split_field :
    (f rest : Bytes) (fs : List Bytes)
    → FieldText f
    → split_line unquoted rest ≡ [] ∷ fs
    → split_line closed rest ≡ [] ∷ fs
    → split_line start (quoted_field f ++ rest) ≡ f ∷ fs
unfolding needs_quotes split_line
split_field [] rest fs (some_text, z) u c = absurd (cc)
split_field (b ∷ f) rest fs h u c = elim (Bool-cases (needs_quotes (b ∷ f))) [
  | inl t ↦
      rw (t, append_assoc (doubled (b ∷ f)) (b'"' ∷ []) rest, split_quoted (b ∷ f) (b'"' ∷ rest), c)
        (before-nil (b ∷ f) fs)
  | inr n ↦
      let plain : (b == bar) ≡ false = ground arith in
      let bare : (b == b'"') ≡ false = ground arith in
      rw (n, bare, plain, split_plain f rest (ground arith), u) (before-nil (b ∷ f) fs)
]

split-quoted_line :
    (f : Bytes) (fs : List Bytes)
    → All FieldText (f ∷ fs)
    → split_line start (quoted_line (f ∷ fs)) ≡ f ∷ fs
unfolding quoted_line split_line
split-quoted_line f [] (h, hs) =
    subst (λ t. split_line start t ≡ f ∷ []) (append-nil (quoted_field f))
      (split_field f [] [] h refl refl)
split-quoted_line f (g ∷ fs) (h, hs) =
    let more = ap (λ t. [] ∷ t) (split-quoted_line g fs hs) in
    split_field f (bar ∷ quoted_line (g ∷ fs)) (g ∷ fs) h more more

abbrev pub stand_in : Csv
stand_in = record {
  write_record = λ fs. quoted_line fs ++ b'\n' ∷ [];
  first_record = λ line. some (some (split_line start line));
  is_rfc3339 = λ t. true;
}

pub stand_in-CsvLaws : CsvLaws stand_in
stand_in-CsvLaws = record {
  line = quoted_line;
  writes = λ fs h. refl;
  is_written = λ fs h. quoted_line-WrittenLine fs;
  reads = λ f fs h u. ap (λ t. some (some t)) (split-quoted_line f fs h);
}

abbrev report : ProvisioningReport
report = record {
  result = error;
  agent = codes "agent";
  vm_id = codes "vm";
  timestamp = codes "now";
  pps_type = running;
  reason = some (codes "a|b");
  documentation_url = some (codes "url");
  extra = (codes "k", codes "v") ∷ [];
}

report-Storable : Storable stand_in report
unfolding report_fields result_str pps_str is_utf8 has_field bytes_eq contains
report-Storable = record {
  reasoned = tt;
  context = record {
    keys = ((refl, contains-Lacks b'=' (codes "k") refl), tt);
    result = refl;
    agent = refl;
    vm_id = refl;
    timestamp = refl;
    pps_type = refl;
    reason = refl;
    documentation_url = refl;
  };
  dated = refl;
  no_nul = (
    contains-Lacks 0 (codes "result=error") refl,
    (
      contains-Lacks 0 (codes "reason=a|b") refl,
      (
        contains-Lacks 0 (codes "agent=agent") refl,
        (
          contains-Lacks 0 (codes "k=v") refl,
          (
            contains-Lacks 0 (codes "pps_type=Running") refl,
            (
              contains-Lacks 0 (codes "vm_id=vm") refl,
              (
                contains-Lacks 0 (codes "timestamp=now") refl,
                (contains-Lacks 0 (codes "documentation_url=url") refl, tt),
              ),
            ),
          ),
        ),
      ),
    ),
  );
  utf8 = (refl, (refl, (refl, (refl, (refl, (refl, (refl, (refl, tt))))))));
}

from_str-encode_example : from_str stand_in (encode stand_in report) ≡ ok report
from_str-encode_example = from_str-encode stand_in report stand_in-CsvLaws report-Storable
