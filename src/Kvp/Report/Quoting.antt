-- ===== src/Kvp/Report/Quoting.antt =====
-- `validate_report_quoting` on lines of the csv format.
use azure_init.Prelude.{
  ℕ, ◌≡◌, ◌≢◌, ◌⊎◌, refl, ap, Bool, true, false, ◌||◌, ◌&&◌, Option, none, some, List, [], ◌∷◌,
  ◌++◌, arith, ◌==◌, if◌then◌else◌, Bytes, All, Lacks, append_assoc, bytes_eq, bytes_eq_sound,
  append-nil, subst, Bool-cases, inl, inr,
}
use mathlib.Core.Option
use azure_init.Result.{ok, err}
use azure_init.Kvp.Diagnostics.Model.{malformed}
use azure_init.Text.{bar, is_empty}
use azure_init.Kvp.Report.{
  State, start, unquoted, quoted, closed, quote_step, quoting_from, validate_report_quoting,
  strip_suffix,
}

-- A byte that stands only inside of quotes, with `|` as the delimiter.
abbrev pub special : ℕ → Bool
special b = (b == bar) || (b == b'"') || (b == b'\r') || (b == b'\n')

unfoldable pub needs_quotes : Bytes → Bool
needs_quotes [] = false
needs_quotes (b ∷ bs) = special b || needs_quotes bs

-- A quote is written twice inside of quotes.
unfoldable pub doubled : Bytes → Bytes
doubled [] = []
doubled (b ∷ bs) = if b == b'"' then b ∷ b ∷ doubled bs else b ∷ doubled bs

-- How a field may stand in a line: as it is where it has no such byte, or inside of quotes.
abbrev pub WrittenField : Bytes → Bytes → Type 0
WrittenField f text =
    ((needs_quotes f ≡ false) × (text ≡ f)) ⊎ (text ≡ b'"' ∷ doubled f ++ b'"' ∷ [])

-- The fields of a line stand between delimiters.
abbrev pub WrittenLine : List Bytes → Bytes → Type 0
WrittenLine [] line = line ≡ []
WrittenLine (f ∷ []) line = WrittenField f line
WrittenLine (f ∷ g ∷ fs) line =
    (text : Bytes) × (rest : Bytes) × WrittenField f text
    × WrittenLine (g ∷ fs) rest
    × (line ≡ text ++ bar ∷ rest)

-- A field that the report's text can have.
abbrev pub FieldText : Bytes → Type 0
FieldText f = (is_empty f ≡ false) × Lacks 0 f

plain_scan :
    (f rest : Bytes)
    → needs_quotes f ≡ false
    → Lacks 0 f
    → quoting_from unquoted (f ++ rest) ≡ quoting_from unquoted rest
unfolding needs_quotes quoting_from quote_step
plain_scan [] rest n z = refl
plain_scan (b ∷ f) rest n (z, zs) =
    let ordinary : special b ≡ false = ground arith in
    let later : needs_quotes f ≡ false = ground arith in ground (arith, plain_scan f rest later zs)

quoted_scan :
    (f rest : Bytes)
    → Lacks 0 f
    → quoting_from quoted (doubled f ++ rest) ≡ quoting_from quoted rest
unfolding doubled quoting_from quote_step
quoted_scan [] rest z = refl
quoted_scan (b ∷ f) rest (z, zs) = elim (Bool-cases (b == b'"')) [
  | inl t ↦
      let whole : (b == 0) ≡ false = ground arith in
      rw (t, whole, t, whole, t) (quoted_scan f rest zs)
  | inr f' ↦
      let whole : (b == 0) ≡ false = ground arith in rw (f', whole, f') (quoted_scan f rest zs)
]

-- What may follow a field.
abbrev Follows : Bytes → Type 0
Follows rest = (quoting_from unquoted rest ≡ ok tt) × (quoting_from closed rest ≡ ok tt)

field_scan :
    (f text rest : Bytes)
    → FieldText f
    → WrittenField f text
    → Follows rest
    → quoting_from start (text ++ rest) ≡ ok tt
unfolding needs_quotes quoting_from quote_step
field_scan [] text rest (some_text, z) w h = absurd (cc)
field_scan (b ∷ f) text rest (some_text, (z, zs)) (inl (n, e)) (open_end, shut_end) =
    let ordinary : special b ≡ false = ground arith in
    let later : needs_quotes f ≡ false = ground arith in
    rw e (ground (arith, plain_scan f rest later zs))
field_scan (b ∷ f) text rest (some_text, z) (inr e) (open_end, shut_end) =
    rw (e, append_assoc (doubled (b ∷ f)) (b'"' ∷ []) rest, quoted_scan (b ∷ f) (b'"' ∷ rest) z)
      shut_end

-- A line in which fields that are not empty and have no NUL byte are written so passes the check of
-- its quotes.
pub validate_report_quoting_lem :
    (fs : List Bytes) (line : Bytes)
    → All FieldText fs
    → WrittenLine fs line
    → validate_report_quoting line ≡ ok tt
unfolding validate_report_quoting quoting_from quote_step
validate_report_quoting_lem [] line h e = rw e refl
validate_report_quoting_lem (f ∷ []) line (h, hs) w =
    subst (λ t. quoting_from start t ≡ ok tt) (append-nil line)
      (field_scan f line [] h w (refl, refl))
validate_report_quoting_lem (f ∷ g ∷ fs) line (h, hs) (text, rest, w, ws, e) =
    let more = validate_report_quoting_lem (g ∷ fs) rest hs ws in
    rw e (field_scan f text (bar ∷ rest) h w (more, more))

stepped :
    (b : ℕ) (bs : Bytes) (o : Option State)
    → (if b == 0
        then err malformed
        else elim o [ none ↦ err malformed | some s' ↦ quoting_from s' bs ])
      ≡ ok tt
    → (s' : State) × (quoting_from s' bs ≡ ok tt)
stepped b bs none h = absurd (ground (arith, h))
stepped b bs (some s') h = (s', ground (arith, h))

step_accepted :
    (s : State) (b : ℕ) (bs : Bytes)
    → quoting_from s (b ∷ bs) ≡ ok tt
    → (s' : State) × (quoting_from s' bs ≡ ok tt)
unfolding quoting_from
step_accepted start b bs h = stepped b bs (quote_step start b) h
step_accepted unquoted b bs h = stepped b bs (quote_step unquoted b) h
step_accepted quoted b bs h = stepped b bs (quote_step quoted b) h
step_accepted closed b bs h = stepped b bs (quote_step closed b) h

-- An accepted text does not end in a newline.
newline_refused : (s : State) → quoting_from s (b'\n' ∷ []) ≢ ok tt
unfolding quoting_from quote_step
newline_refused start h = absurd (cc)
newline_refused unquoted h = absurd (cc)
newline_refused quoted h = absurd (cc)
newline_refused closed h = absurd (cc)

pub no_newline :
    (s : State) (v : Bytes) → quoting_from s v ≡ ok tt → strip_suffix (b'\n' ∷ []) v ≡ none
unfolding strip_suffix
no_newline s [] h = refl
no_newline s (b ∷ bs) h = elim (Bool-cases (bytes_eq (b ∷ bs) (b'\n' ∷ []))) [
  | inl t ↦ absurd (
      newline_refused s
        (subst (λ t. quoting_from s t ≡ ok tt) (bytes_eq_sound (b ∷ bs) (b'\n' ∷ []) t) h))
  | inr f ↦ let (s', k) = step_accepted s b bs h in rw (f, no_newline s' bs k) refl
]

pub no_line_end :
    (s : State) (v : Bytes) → quoting_from s v ≡ ok tt → strip_suffix (b'\r' ∷ b'\n' ∷ []) v ≡ none
unfolding strip_suffix
no_line_end s [] h = refl
no_line_end s (b ∷ bs) h = elim (Bool-cases (bytes_eq (b ∷ bs) (b'\r' ∷ b'\n' ∷ []))) [
  | inl t ↦
      let (s', k) = step_accepted s b'\r' (b'\n' ∷ []) (
        subst (λ t. quoting_from s t ≡ ok tt) (bytes_eq_sound (b ∷ bs) (b'\r' ∷ b'\n' ∷ []) t) h) in
      absurd (newline_refused s' k)
  | inr f ↦ let (s', k) = step_accepted s b bs h in rw (f, no_line_end s' bs k) refl
]

and_false : (x : Bool) → (x && false) ≡ false
and_false true = refl
and_false false = refl

-- The terminator that the writer adds is taken off again.
pub strip_suffix-newline : (v : Bytes) → strip_suffix (b'\n' ∷ []) (v ++ b'\n' ∷ []) ≡ some v
unfolding strip_suffix bytes_eq
strip_suffix-newline [] = refl
strip_suffix-newline (b ∷ []) = rw (and_false (b == b'\n')) refl
strip_suffix-newline (b ∷ c ∷ v) =
    rw (and_false (b == b'\n')) (ap (Option.map (λ rest. b ∷ rest)) (strip_suffix-newline (c ∷ v)))
