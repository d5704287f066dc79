-- ===== src/Kvp/Diagnostics/Entries/Places.antt =====
-- Where the first loop of `decode_entries` puts each record: an entry, or a chunk of a group.
use azure_init.Prelude.{
  ℕ, suc, ◌+◌, ◌≡◌, ◌∙◌, ◌&&◌, List, [], ◌∷◌, ◌++◌, arith, ltb, leb, ◌==◌, if◌then◌else◌, Bytes,
  length, bytes_eq, Bool-cases, inl, inr,
}
use azure_init.Kvp.Report.{Csv}
use azure_init.Kvp.Diagnostics.External.{External}
use azure_init.Kvp.Diagnostics.Json.{SerdeJson}
use azure_init.Kvp.Diagnostics.Reader.{Chunk}
use azure_init.Kvp.Diagnostics.Entries.{
  ChunkGroup, Pending, Placed, entry, chunk, push_chunk, place, add_placed, scan, empty_pending,
}

-- One if the two positions are the same.
abbrev pub hits : ℕ → ℕ → ℕ
hits p q = if p == q then 1 else 0

-- How many entries, chunks and chunks of groups have the position `p`.
unfoldable pub count_entries {ℓ} : {A : Type ℓ} → ℕ → List (ℕ × A) → ℕ
count_entries p [] = 0
count_entries p (e ∷ es) = hits p e.0 + count_entries p es

unfoldable pub count_chunks : ℕ → List Chunk → ℕ
count_chunks p [] = 0
count_chunks p (c ∷ cs) = hits p c.position + count_chunks p cs

unfoldable pub count_groups : ℕ → List (Bytes × ChunkGroup) → ℕ
count_groups p [] = 0
count_groups p (g ∷ gs) = count_chunks p g.1.chunks + count_groups p gs

abbrev pub count_places : {T : Type 0} → ℕ → Pending T → ℕ
count_places p s = count_entries p s.entries + count_groups p s.groups

pub count_entries-append {ℓ} :
    {A : Type ℓ} (p : ℕ) (es fs : List (ℕ × A))
    → count_entries p (es ++ fs) ≡ count_entries p es + count_entries p fs
unfolding count_entries
count_entries-append p [] fs = omega arith
count_entries-append p (e ∷ es) fs = omega (arith, count_entries-append p es fs)

pub count_chunks-append :
    (p : ℕ) (cs ds : List Chunk) → count_chunks p (cs ++ ds) ≡ count_chunks p cs + count_chunks p ds
unfolding count_chunks
count_chunks-append p [] ds = omega arith
count_chunks-append p (c ∷ cs) ds = omega (arith, count_chunks-append p cs ds)

count_groups-push :
    (p : ℕ) (base : Bytes) (c : Chunk) (gs : List (Bytes × ChunkGroup))
    → count_groups p (push_chunk base c gs) ≡ count_groups p gs + hits p c.position
unfolding count_groups push_chunk
count_groups-push p base c [] = unfold count_chunks in omega arith
count_groups-push p base c ((b, g) ∷ gs) = elim (Bool-cases (bytes_eq b base)) [
  | inl same ↦
      rw same (unfold count_chunks in omega (arith, count_chunks-append p g.chunks (c ∷ [])))
  | inr other ↦ rw other (omega (arith, count_groups-push p base c gs))
]

module _ (ext : External) (json : SerdeJson) (csv : Csv) where
  count-add_placed :
      (p : ℕ) (s : Pending ext.Timestamp) (position : ℕ) (key value : Bytes)
      (placed : Placed ext.Timestamp)
      → count_places p (add_placed ext json csv s position key value placed)
        ≡ count_places p s + hits p position
  unfolding add_placed
  count-add_placed p s position key value (entry e) =
      unfold count_entries in omega (arith, count_entries-append p s.entries ((position, e) ∷ []))
  count-add_placed p s position key value (chunk base index) =
      omega (arith, count_groups-push p base _ s.groups)

  count-scan :
      (p : ℕ) (s : Pending ext.Timestamp) (position : ℕ) (records : List (Bytes × Bytes))
      → count_places p (scan ext json csv s position records)
        ≡ count_places p s + (if leb position p && ltb p (position + length records) then 1 else 0)
  unfolding scan
  count-scan p s position [] = ground arith
  count-scan p s position ((key, value) ∷ records) =
      count-scan p (add_placed ext json csv s position key value (place ext json csv key value))
        (suc position) records
      ∙ ground (arith, count-add_placed p s position key value (place ext json csv key value))

  -- Each position of a record is the position of just one entry or chunk, and no other position
  -- is one: the first loop loses no record and places none twice.
  pub scan-places :
      (records : List (Bytes × Bytes)) (p : ℕ)
      → count_places p (scan ext json csv (empty_pending ext json csv) 0 records)
        ≡ (if ltb p (length records) then 1 else 0)
  scan-places records p =
      count-scan p (empty_pending ext json csv) 0 records
      ∙ (unfold count_entries count_groups in ground arith)
