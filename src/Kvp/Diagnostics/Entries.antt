-- ===== src/Kvp/Diagnostics/Entries.antt =====
-- `DiagnosticReader::entries` and `decode_entries` (diagnostics/reader.rs): from the records of a
-- dump to entries.
--
-- The code collects the groups of chunks in a hash map and visits them in the map's order, which is
-- `visit` here: any function that permutes the groups. The code sorts a group's chunks before it
-- may refuse them; here a refused group keeps its order, which the last sort makes no use of.
pub mod Places
pub mod Groups
pub mod Sources
pub mod Visits
pub mod Sorted
pub mod Origins
mod Tests
use azure_init.Prelude.{
  ℕ, zero, suc, ◌≡◌, Bool, true, false, ◌&&◌, Option, none, some, List, [], ◌∷◌, ◌++◌, map, leb,
  if◌then◌else◌, Bytes, codes, bytes_eq,
}
use azure_init.Result.{Result, ok, err, ◌>>=◌}
use azure_init.Text.{bar, split, starts_with}
use azure_init.Kvp.Report.{Csv, ProvisioningReport, provisioning_report_key, from_str}
use azure_init.Kvp.Store.World
use azure_init.Kvp.Store.World.{Io, pure}
use azure_init.Kvp.Store.Policy.{PoolMode}
use azure_init.Kvp.Store.Pool.{dump}
use azure_init.Kvp.Diagnostics.Model.{
  diagnostic_version_id, DecodeError, unsupported_version, Diagnostic, RawKeyValue,
}
use azure_init.Kvp.Diagnostics.External.{External}
use azure_init.Kvp.Diagnostics.Json.{SerdeJson}
use azure_init.Kvp.Diagnostics.Reader.{Chunk, split_chunk_key, order_chunks, decode_diag_group}
use azure_init.Kvp.Diagnostics.CloudInit.{
  cloud_init_prefix, split_key, decode_single, decode_event_chunks,
}

pub data Entry (T : Type 0) : Type 0 where
  diagnostic : Diagnostic T → Entry T
  report : ProvisioningReport → Entry T
  raw : RawKeyValue → Entry T

pub record ChunkGroup : Type 0 where
  pub first_position : ℕ
  pub chunks : List Chunk

-- The entries so far, with their positions, and the groups so far, by their base keys.
pub record Pending (T : Type 0) : Type 0 where
  pub entries : List (ℕ × Entry T)
  pub groups : List (Bytes × ChunkGroup)

-- What the prefix of a record's key makes of it: `parsed` of a chunk or an event, a report, or none.
pub data Source : Type 0 where
  keyed : Result DecodeError (Bytes × Option ℕ) → Source
  provisioning : Source
  unrelated : Source

-- What the loop does with a record: it has an entry, or goes to the group of its base key.
pub data Placed (T : Type 0) : Type 0 where
  entry : Entry T → Placed T
  chunk : Bytes → ℕ → Placed T

-- `split('|').next()`
abbrev pub first_field : List Bytes → Bytes
first_field [] = []
first_field (field ∷ fields) = field

abbrev pub raw_record : Bytes → Bytes → Option DecodeError → RawKeyValue
raw_record key value error = record { key = key; value = value; error = error }

abbrev with_index : Result DecodeError (Bytes × ℕ) → Result DecodeError (Bytes × Option ℕ)
with_index parsed = do p ← parsed; ok (p.0, some p.1)

-- `groups.entry(base).or_insert_with(…).chunks.push(…)`
unfoldable pub push_chunk : Bytes → Chunk → List (Bytes × ChunkGroup) → List (Bytes × ChunkGroup)
push_chunk base c [] = (base, record { first_position = c.position; chunks = c ∷ [] }) ∷ []
push_chunk base c ((b, g) ∷ groups) =
    if bytes_eq b base
    then (b, record g { chunks = g.chunks ++ c ∷ [] }) ∷ groups
    else (b, g) ∷ push_chunk base c groups

-- `sort_by_key` by position, which is stable.
unfoldable pub insert_entry {ℓ} : {A : Type ℓ} → ℕ × A → List (ℕ × A) → List (ℕ × A)
insert_entry e [] = e ∷ []
insert_entry e (f ∷ fs) = if leb e.0 f.0 then e ∷ f ∷ fs else f ∷ insert_entry e fs

unfoldable pub insert_entries {ℓ} : {A : Type ℓ} → List (ℕ × A) → List (ℕ × A) → List (ℕ × A)
unfolding insert_entry
insert_entries [] sorted = sorted
insert_entries (e ∷ es) sorted = insert_entry e (insert_entries es sorted)

module _ (ext : External) (json : SerdeJson) (csv : Csv) where
  open ext use {Timestamp}

  unfoldable pub source_of : Bytes → Source
  unfolding split_chunk_key split_key
  source_of key =
      let prefix = first_field (split bar key) in
      if bytes_eq prefix diagnostic_version_id
      then keyed (with_index (split_chunk_key key))
      else if bytes_eq prefix cloud_init_prefix
      then keyed (split_key ext key)
      else if bytes_eq prefix provisioning_report_key && bytes_eq key provisioning_report_key
      then provisioning
      else if starts_with (codes "DIAG_V") prefix
      then keyed (err unsupported_version)
      else unrelated

  abbrev pub report_entry : Bytes → Bytes → Result DecodeError ProvisioningReport → Entry Timestamp
  report_entry key value (ok r) = report r
  report_entry key value (err e) = raw (raw_record key value (some e))

  abbrev pub diagnostic_entry :
      Bytes → Bytes → Result DecodeError (Diagnostic Timestamp) → Entry Timestamp
  diagnostic_entry key value (ok d) = diagnostic d
  diagnostic_entry key value (err e) = raw (raw_record key value (some e))

  unfoldable pub place_from : Source → Bytes → Bytes → Placed Timestamp
  unfolding decode_single from_str
  place_from provisioning key value = entry (report_entry key value (from_str csv value))
  place_from unrelated key value = entry (raw (raw_record key value none))
  place_from (keyed (err e)) key value = entry (raw (raw_record key value (some e)))
  place_from (keyed (ok (base, none))) key value =
      entry (diagnostic_entry key value (decode_single ext json base value))
  place_from (keyed (ok (base, some index))) key value = chunk base index

  unfoldable pub place : Bytes → Bytes → Placed Timestamp
  unfolding place_from source_of
  place key value = place_from (source_of key) key value

  unfoldable pub add_placed :
      Pending Timestamp → ℕ → Bytes → Bytes → Placed Timestamp → Pending Timestamp
  unfolding push_chunk
  add_placed p position key value (entry e) = record p { entries = p.entries ++ (position, e) ∷ [] }
  add_placed p position key value (chunk base index) = record p {
    groups =
        push_chunk base
          (record { position = position; index = index; raw = raw_record key value none }) p.groups;
  }

  -- The first loop of `decode_entries`, from the record at `position` on.
  unfoldable pub scan : Pending Timestamp → ℕ → List (Bytes × Bytes) → Pending Timestamp
  unfolding place add_placed
  scan p position [] = p
  scan p position ((key, value) ∷ records) =
      scan (add_placed p position key value (place key value)) (suc position) records

  unfoldable pub decode_group : Bytes → List Chunk → Result DecodeError (Diagnostic Timestamp)
  unfolding order_chunks decode_event_chunks decode_diag_group
  decode_group base chunks =
      if bytes_eq (first_field (split bar base)) cloud_init_prefix
      then (do
        ordered ← order_chunks chunks
        decode_event_chunks ext json base (map (λ c. (c.index, c.raw.value)) ordered))
      else decode_diag_group ext base chunks

  -- A refused chunk, at its own position.
  abbrev pub refused : DecodeError → Chunk → ℕ × Entry Timestamp
  refused e c = (c.position, raw (record c.raw { error = some e }))

  abbrev pub group_result :
      ChunkGroup → Result DecodeError (Diagnostic Timestamp) → List (ℕ × Entry Timestamp)
  group_result g (ok d) = (g.first_position, diagnostic d) ∷ []
  group_result g (err e) = map (refused e) g.chunks

  unfoldable pub group_entries : Bytes × ChunkGroup → List (ℕ × Entry Timestamp)
  unfolding decode_group
  group_entries (base, g) = group_result g (decode_group base g.chunks)

  -- The second loop, and the sort of all entries by position.
  unfoldable pub insert_groups :
      List (Bytes × ChunkGroup) → List (ℕ × Entry Timestamp) → List (ℕ × Entry Timestamp)
  unfolding group_entries insert_entries
  insert_groups [] sorted = sorted
  insert_groups (g ∷ groups) sorted = insert_entries (group_entries g) (insert_groups groups sorted)

  abbrev pub empty_pending : Pending Timestamp
  empty_pending = record { entries = []; groups = [] }

  unfoldable pub sorted_entries :
      (List (Bytes × ChunkGroup) → List (Bytes × ChunkGroup))
      → List (Bytes × Bytes)
      → List (ℕ × Entry Timestamp)
  unfolding scan insert_groups insert_entries
  sorted_entries visit records =
      let p = scan empty_pending 0 records in
      insert_entries p.entries (insert_groups (visit p.groups) [])

  unfoldable pub decode_entries :
      (List (Bytes × ChunkGroup) → List (Bytes × ChunkGroup))
      → List (Bytes × Bytes)
      → List (Entry Timestamp)
  unfolding sorted_entries
  decode_entries visit records = map (λ e. e.1) (sorted_entries visit records)

  -- `DiagnosticReader::entries`
  unfoldable pub entries :
      (List (Bytes × ChunkGroup) → List (Bytes × ChunkGroup)) → Io (List (Entry Timestamp))
  unfolding decode_entries
  entries visit = World.◌>>=◌ dump (λ records. pure (decode_entries visit records))
