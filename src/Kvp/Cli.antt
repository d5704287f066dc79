-- ===== src/Kvp/Cli.antt =====
-- The commands of the tool on a pool (libazureinit-kvp/src/cli.rs), with output as text.
--
-- A command gives what it prints and its exit code, or the message of an error of usage; an error of
-- the store is raised. Reading the input and writing the output are taken to go through.
pub mod Lines
pub mod Telemetry
mod Tests
use azure_init.Prelude.{
  ℕ, zero, suc, ◌+◌, Bool, true, false, ◌&&◌, ◌||◌, Option, none, some, List, [], ◌∷◌, ◌++◌, ◌==◌,
  if◌then◌else◌, Bytes, codes,
}
use azure_init.Result.{Result, ok, err}
use azure_init.Text.{split, split_once, is_empty, to_decimal}
use azure_init.Kvp.Store.Policy.{PoolMode}
use azure_init.Kvp.Store.Record.{Entry}
use azure_init.Kvp.Store.World.{Io, pure, ◌>>=◌, ◌>>◌}
use azure_init.Kvp.Store.Pool

-- `EXIT_OK` and `EXIT_NOT_FOUND`.
abbrev pub exit_ok : ℕ
exit_ok = 0

abbrev exit_not_found : ℕ
exit_not_found = 1

pub record Printed : Type 0 where
  pub code : ℕ
  pub stdout : Bytes

abbrev pub Command : Type 0
Command = Io (Result Bytes Printed)

abbrev pub quietly : Printed
quietly = record { code = exit_ok; stdout = [] }

abbrev bool_text : Bool → Bytes
bool_text true = codes "true\n"
bool_text false = codes "false\n"

-- The lines that `dump` and `entries` print.
unfoldable pub dump_text : List Entry → Bytes
dump_text [] = []
dump_text (e ∷ es) = e.0 ++ b'=' ∷ (e.1 ++ b'\n' ∷ dump_text es)

-- Drops a carriage return from the end of a line.
unfoldable pub strip_return : Bytes → Bytes
strip_return [] = []
strip_return (b ∷ []) = if b == b'\r' then [] else b ∷ []
strip_return (b ∷ c ∷ bs) = b ∷ strip_return (c ∷ bs)

unfoldable pub ended_lines : List Bytes → List Bytes
unfolding strip_return
ended_lines [] = []
ended_lines (last ∷ []) = if is_empty last then [] else last ∷ []
ended_lines (l ∷ m ∷ ls) = strip_return l ∷ ended_lines (m ∷ ls)

-- `str::lines`
unfoldable pub lines : Bytes → List Bytes
unfolding ended_lines
lines input = ended_lines (split b'\n' input)

abbrev pub add_record :
    ℕ → Option (Bytes × Bytes) → Result Bytes (List Entry) → Result Bytes (List Entry)
add_record number none rest =
    err (codes "line " ++ (to_decimal number ++ codes " must be in key=value format"))
add_record number (some e) (ok es) = ok (e ∷ es)
add_record number (some e) (err message) = err message

-- The lines from number `number` on.
unfoldable pub records_from : ℕ → List Bytes → Result Bytes (List Entry)
records_from number [] = ok []
records_from number (line ∷ ls) =
    let rest = records_from (suc number) ls in
    if is_empty line then rest else add_record number (split_once b'=' line) rest

unfoldable pub parse_key_value_lines : Bytes → Result Bytes (List Entry)
unfolding records_from lines
parse_key_value_lines input = records_from 1 (lines input)

abbrev pub with_records : Result Bytes (List Entry) → (List Entry → Io (Unit {0})) → Command
with_records (err message) act = pure (err message)
with_records (ok records) act = do act records; pure (ok quietly)

module _ (mode : PoolMode) where
  unfoldable pub load_from_reader : Bytes → Command
  unfolding parse_key_value_lines
  load_from_reader buf = with_records (parse_key_value_lines buf) (Pool.load mode)

  unfoldable pub append_multiple_from_reader : Bytes → Command
  unfolding parse_key_value_lines
  append_multiple_from_reader buf =
      with_records (parse_key_value_lines buf) (Pool.append_multiple mode)

  -- The branch of `dispatch` for the command `write`.
  unfoldable pub write_record : Bool → Bytes → Bytes → Command
  write_record true key value = do Pool.append mode key value; pure (ok quietly)
  write_record false key value = do Pool.insert mode key value; pure (ok quietly)

unfoldable pub dump_command : Command
unfolding dump_text
dump_command = do
  records ← Pool.dump
  pure (ok (record { code = exit_ok; stdout = dump_text records }))

abbrev found_text : Option Bytes → Printed
found_text none = record { code = exit_not_found; stdout = [] }
found_text (some value) = record { code = exit_ok; stdout = value ++ codes "\n" }

unfoldable pub read_command : Bytes → Command
read_command key = do found ← Pool.read key; pure (ok (found_text found))

unfoldable pub delete_command : Bytes → Command
delete_command key = do
  removed ← Pool.delete key
  pure (ok (record { code = exit_ok; stdout = bool_text removed }))

unfoldable pub delete_multiple_command : List Bytes → Command
delete_multiple_command keys = do
  removed ← Pool.delete_multiple keys
  pure (ok (record { code = exit_ok; stdout = to_decimal removed ++ codes "\n" }))

unfoldable pub is_stale_command : Command
is_stale_command = do
  stale ← Pool.is_stale
  pure (ok (record { code = if stale then exit_ok else exit_not_found; stdout = bool_text stale }))

-- The branch of `dispatch` for the command `clear`.
unfoldable pub clear_command : Bool → Command
clear_command true = do Pool.clear_if_stale; pure (ok quietly)
clear_command false = do Pool.clear; pure (ok quietly)

-- `unquote`: one layer of quotes.
abbrev last_of : ℕ → Bytes → ℕ
last_of b [] = b
last_of b (c ∷ bs) = last_of c bs

abbrev without_last : Bytes → Bytes
without_last [] = []
without_last (b ∷ []) = []
without_last (b ∷ c ∷ bs) = b ∷ without_last (c ∷ bs)

unfoldable pub unquote : Bytes → Bytes
unquote [] = []
unquote (a ∷ []) = a ∷ []
unquote (a ∷ b ∷ bs) =
    if ((a == b'\'') || (a == b'"')) && (last_of b bs == a)
    then without_last (b ∷ bs)
    else a ∷ b ∷ bs

abbrev checked_pair : Bytes → Option (Bytes × Bytes) → Result Bytes Entry
checked_pair raw none =
    err (codes "supporting data '" ++ (raw ++ codes "' must be in key=value format"))
checked_pair raw (some (key, value)) =
    if is_empty key
    then err (codes "supporting data '" ++ (raw ++ codes "' has an empty key"))
    else ok (key, unquote value)

unfoldable pub parse_key_value_pair : Bytes → Result Bytes Entry
unfolding unquote
parse_key_value_pair raw = checked_pair raw (split_once b'=' raw)

-- Where a scan of supporting data stands in a field: in the key, at the value's start, in a value
-- without quotes, in one with this quote, or behind the closing quote.
pub data Place : Type 0 where
  in_key value_start in_value closed : Place
  in_quote : ℕ → Place

-- The next byte belongs to the field, ends it as a comma, or is not expected.
pub data Step : Type 0 where
  stay : Place → Step
  cut : Step
  unexpected : Step

abbrev step : Place → ℕ → Step
step in_key b = if b == b'=' then stay value_start else if b == b',' then cut else stay in_key
step value_start b =
    if (b == b'\'') || (b == b'"')
    then stay (in_quote b)
    else if b == b','
    then cut
    else stay in_value
step in_value b = if b == b',' then cut else stay in_value
step (in_quote quote) b = if b == quote then stay closed else stay (in_quote quote)
step closed b = if b == b',' then cut else unexpected

abbrev at_end : Bytes → Place → Bytes → Result Bytes (List Bytes)
at_end raw (in_quote quote) field =
    err (codes "supporting data '" ++ (raw ++ codes "' has an unterminated quote"))
at_end raw place field = ok (field ∷ [])

abbrev before : {A : Type 0} → A → Result Bytes (List A) → Result Bytes (List A)
before a (ok rest) = ok (a ∷ rest)
before a (err message) = err message

-- The fields of `raw` from a place in a field on, of which `field` was read.
unfoldable pub fields_from : Bytes → Place → Bytes → Bytes → Result Bytes (List Bytes)
fields_from raw place field [] = at_end raw place field
fields_from raw place field (b ∷ bs) = elim (step place b) [
  | stay next ↦ fields_from raw next (field ++ b ∷ []) bs
  | cut ↦ before field (fields_from raw in_key [] bs)
  | unexpected ↦ err (
      codes "supporting data '"
      ++ (raw ++ codes "' has unexpected characters after a quoted value"))
]

unfoldable pub split_supporting_data_fields : Bytes → Result Bytes (List Bytes)
unfolding fields_from
split_supporting_data_fields raw = fields_from raw in_key [] raw

abbrev first_then : Result Bytes Entry → Result Bytes (List Entry) → Result Bytes (List Entry)
first_then (err message) rest = err message
first_then (ok pair) rest = before pair rest

unfoldable pub pairs_of : List Bytes → Result Bytes (List Entry)
unfolding parse_key_value_pair
pairs_of [] = ok []
pairs_of (field ∷ fields) =
    let rest = pairs_of fields in
    if is_empty field then rest else first_then (parse_key_value_pair field) rest

abbrev pairs_of_fields : Result Bytes (List Bytes) → Result Bytes (List Entry)
pairs_of_fields (err message) = err message
pairs_of_fields (ok fields) = pairs_of fields

unfoldable pub parse_supporting_data : Bytes → Result Bytes (List Entry)
unfolding split_supporting_data_fields pairs_of
parse_supporting_data raw = pairs_of_fields (split_supporting_data_fields raw)

unfoldable pub resolve_vm_id_with : Option Bytes → Option Bytes → Result Bytes Bytes
resolve_vm_id_with (some vm_id) lookup = ok vm_id
resolve_vm_id_with none (some vm_id) = ok vm_id
resolve_vm_id_with none none =
    err (codes "unable to determine the current VM ID automatically; pass --vm-id explicitly")
