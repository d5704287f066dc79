-- ===== src/Kvp/Cli/Lines.antt =====
-- What `dump` prints as text, read again by `load`.
use azure_init.Prelude.{
  ℕ, suc, ◌≡◌, ◌≢◌, ◌≤◌, refl, ap, List, [], ◌∷◌, ◌++◌, arith, ◌==◌, false, Bool-cases, inl, inr,
  Bytes, Lacks, All, All-append, length,
}
use azure_init.Result.{Result, ok, err}
use azure_init.Text.{split, prepend, is_empty}
use azure_init.Kvp.Store.Policy.{PoolMode, max_unique_keys}
use azure_init.Kvp.Store.Record.{Entry}
use azure_init.Kvp.Report.Fields.{split_once-field}
use azure_init.Kvp.Store.World.{World, pure}
use azure_init.Kvp.Store.World.Ends.{Ends, Ends-bind}
use azure_init.Kvp.Store.KeySet.{distinct_keys}
use azure_init.Kvp.Store.Pool.{load, dump}
use azure_init.Kvp.Store.Pool.Rules.{Contains}
use azure_init.Kvp.Store.Pool.Appends.{Accepted, load-Contains}
use azure_init.Kvp.Store.Pool.Scans.{dump-Contains}
use azure_init.Kvp.Cli.{
  Printed, Command, quietly, dump_command, load_from_reader, dump_text, strip_return, ended_lines,
  lines, records_from, parse_key_value_lines,
}

-- An entry that a line of text can hold: no line break, no `=` in the key, and no carriage return
-- at the end of the value.
pub record Printable (e : Entry) : Type 0 where
  pub key_plain : Lacks b'=' e.0
  pub key_line : Lacks b'\n' e.0
  pub value_line : Lacks b'\n' e.1
  pub kept : strip_return e.1 ≡ e.1

split-line :
    (line rest : Bytes)
    → Lacks b'\n' line
    → split b'\n' (line ++ b'\n' ∷ rest) ≡ line ∷ split b'\n' rest
unfolding split
split-line [] rest h = refl
split-line (b ∷ line) rest (p, h) =
    let other : (b == b'\n') ≡ false = ground arith in rw (other, split-line line rest h) refl

ended-prepend :
    (l : Bytes) (b : ℕ) (fs : List Bytes)
    → ended_lines (l ∷ prepend b fs) ≡ strip_return l ∷ ended_lines (prepend b fs)
unfolding ended_lines
ended-prepend l b [] = refl
ended-prepend l b (f ∷ fs) = refl

ended-split :
    (l bs : Bytes)
    → ended_lines (l ∷ split b'\n' bs) ≡ strip_return l ∷ ended_lines (split b'\n' bs)
unfolding split ended_lines
ended-split l [] = refl
ended-split l (b ∷ bs) = elim (Bool-cases (b == b'\n')) [
  | inl e ↦ rw e refl
  | inr e ↦ rw e (ended-prepend l b (split b'\n' bs))
]

lines-line :
    (line rest : Bytes)
    → Lacks b'\n' line
    → lines (line ++ b'\n' ∷ rest) ≡ strip_return line ∷ lines rest
unfolding lines
lines-line line rest h = rw (split-line line rest h) (ended-split line rest)

strip-behind :
    (key value : Bytes) → strip_return (key ++ b'=' ∷ value) ≡ key ++ b'=' ∷ strip_return value
unfolding strip_return
strip-behind [] [] = refl
strip-behind [] (v ∷ value) = refl
strip-behind (b ∷ []) value = ap (λ t. b ∷ t) (strip-behind [] value)
strip-behind (b ∷ c ∷ key) value = ap (λ t. b ∷ t) (strip-behind (c ∷ key) value)

some_line : (key value : Bytes) → is_empty (key ++ b'=' ∷ value) ≡ false
some_line [] value = refl
some_line (b ∷ key) value = refl

grouped :
    (key value rest : Bytes)
    → key ++ b'=' ∷ (value ++ b'\n' ∷ rest) ≡ (key ++ b'=' ∷ value) ++ b'\n' ∷ rest
grouped [] value rest = refl
grouped (b ∷ key) value rest = ap (λ t. b ∷ t) (grouped key value rest)

lines-dump :
    (e : Entry) (rest : Bytes)
    → Printable e
    → lines (e.0 ++ b'=' ∷ (e.1 ++ b'\n' ∷ rest)) ≡ (e.0 ++ b'=' ∷ e.1) ∷ lines rest
lines-dump (key, value) rest p =
    let plain =
      All-append (λ c. c ≢ b'\n') key (b'=' ∷ value) p.key_line (ground arith, p.value_line) in
    rw
      (
        grouped key value rest,
        lines-line (key ++ b'=' ∷ value) rest plain,
        strip-behind key value,
        p.kept,
      )
      refl

records_from-dump :
    (es : List Entry) (number : ℕ)
    → All Printable es
    → records_from number (lines (dump_text es)) ≡ ok es
unfolding records_from dump_text
records_from-dump [] number h = unfold lines ended_lines split in refl
records_from-dump (e ∷ es) number (p, h) =
    rw
      (
        lines-dump e (dump_text es) p,
        some_line e.0 e.1,
        split_once-field e.0 e.1 p.key_plain,
        records_from-dump es (suc number) h,
      )
      refl

parse-dump_text :
    (es : List Entry) → All Printable es → parse_key_value_lines (dump_text es) ≡ ok es
unfolding parse_key_value_lines
parse-dump_text es h = records_from-dump es 1 h

abbrev pub load_printed : PoolMode → Result Bytes Printed → Command
load_printed mode (ok p) = load_from_reader mode p.stdout
load_printed mode (err message) = pure (err message)

-- What `dump --text` prints of one pool, given to `load`, fills another pool with the same records
-- in the same order, where their keys and values fit on lines and are accepted, at most 1024 keys
-- are distinct, and no call fails.
pub load_from_reader-dump_command :
    (mode : PoolMode) (es fs : List Entry) (v w : World)
    → All Printable es
    → All (Accepted mode) es
    → length (distinct_keys es []) ≤ max_unique_keys
    → Contains es v
    → Contains fs w
    → Ends
        (λ r v'. Ends (λ s w'. (s ≡ ok quietly) × Contains es w') (load_printed mode r w))
        (dump_command v)
unfolding dump_command load_from_reader
load_from_reader-dump_command mode es fs v w printable accepted few hv hw =
    Ends-bind (λ r v'. (r ≡ es) × Contains es v') _ dump _ v (dump-Contains es v hv)
      (λ r v' q.
        rw (q.0, parse-dump_text es printable)
          (Ends-bind (λ done w'. Contains es w') _ (load mode es) _ w
            (load-Contains mode es fs w accepted few hw) (λ done w' k. (refl, k))))
