-- ===== src/Kvp/Diagnostics/Entries/Origins.antt =====
-- The entries of a dump, and the records that they come from.
use mathlib.Core.List.{Permᴰ}
use azure_init.Prelude.{
  ℕ, ◌+◌, ◌≤◌, ◌≡◌, refl, sym, ap, ◌∙◌, some, List, [], ◌∷◌, arith, Bytes, All, All-perm, inr,
  subst, map,
}
use azure_init.Result.{Result, ok, err}
use azure_init.Kvp.Report.{Csv}
use azure_init.Kvp.Diagnostics.Model.{DecodeError, Diagnostic}
use azure_init.Kvp.Diagnostics.External.{External}
use azure_init.Kvp.Diagnostics.Json.{SerdeJson}
use azure_init.Kvp.Diagnostics.Reader.{Chunk}
use azure_init.Kvp.Diagnostics.Entries.{
  diagnostic, ChunkGroup, scan, empty_pending, decode_group, refused, group_result, group_entries,
  insert_groups, sorted_entries,
}
use azure_init.Kvp.Diagnostics.Entries.Places.{count_entries, count_groups, scan-places}
use azure_init.Kvp.Diagnostics.Entries.Sorted.{
  Ascending, count-insert_entries, insert_entries-Ascending, All-insert_entries,
}
use azure_init.Kvp.Diagnostics.Entries.Groups.{
  chunks_from, look_up, look_up-Distinct, Starts, Started, scan-look_up, scan-InOrder,
}
use azure_init.Kvp.Diagnostics.Entries.Sources.{
  ChunkOf, RawFor, Origin, GroupOf, scan-HasOrigins, Remaining-append,
}
use azure_init.Kvp.Diagnostics.Entries.Visits.{
  Headed, scan-Headed, count-group_entries, count_groups-perm,
}

module _ (ext : External) (json : SerdeJson) (csv : Csv) (records : List (Bytes × Bytes)) where
  open ext use {Timestamp}

  -- The group is all of its base key's chunks.
  abbrev Whole : Bytes × ChunkGroup → Type 0
  Whole (base, g) =
      (g.chunks ≡ chunks_from ext json csv base 0 records)
      × Starts g.first_position g.chunks
      × All (ChunkOf ext json csv records base) g.chunks

  all-Whole :
      (gs : List (Bytes × ChunkGroup))
      → All (λ e. chunks_from ext json csv e.0 0 records ≡ e.1.chunks) gs
      → All Started gs
      → All (GroupOf ext json csv records) gs
      → All Whole gs
  all-Whole [] h k l = tt
  all-Whole (g ∷ gs) (hg, h) (kg, k) (lg, l) = ((sym hg, kg, lg), all-Whole gs h k l)

  refused-Origin :
      (base : Bytes) (e : DecodeError) (cs : List Chunk)
      → decode_group ext json csv base (chunks_from ext json csv base 0 records) ≡ err e
      → All (ChunkOf ext json csv records base) cs
      → All (Origin ext json csv records) (map (refused ext json csv e) cs)
  refused-Origin base e [] k h = tt
  refused-Origin base e (c ∷ cs) k (hc, h) = (
    (
      hc.0,
      subst (λ s. RawFor ext json csv records s (record c.raw { error = some e })) (sym hc.1)
          (e, k, refl),
    ),
    refused-Origin base e cs k h,
  )

  group-Origin :
      (g : Bytes × ChunkGroup)
      → Whole g
      → All (Origin ext json csv records) (group_entries ext json csv g)
  unfolding group_entries
  group-Origin (base, g) (whole, start, h) = result (decode_group ext json csv base g.chunks) refl
    where
      headed :
          (d : Diagnostic Timestamp) (cs : List Chunk)
          → cs ≡ chunks_from ext json csv base 0 records
          → Starts g.first_position cs
          → decode_group ext json csv base cs ≡ ok d
          → Origin ext json csv records (g.first_position, diagnostic d)
      headed d [] e s k = absurd s
      headed d (c ∷ cs) e s k = inr (base, c, cs, sym e, s, k)

      result :
          (r : Result DecodeError (Diagnostic Timestamp))
          → decode_group ext json csv base g.chunks ≡ r
          → All (Origin ext json csv records) (group_result ext json csv g r)
      result (ok d) k = (headed d g.chunks whole start k, tt)
      result (err e) k =
          refused-Origin base e g.chunks (ap (decode_group ext json csv base) (sym whole) ∙ k) h

  insert_groups-Origin :
      (gs : List (Bytes × ChunkGroup))
      → All Whole gs
      → All (Origin ext json csv records) (insert_groups ext json csv gs [])
  unfolding insert_groups
  insert_groups-Origin [] h = tt
  insert_groups-Origin (g ∷ gs) (hg, h) =
      All-insert_entries (Origin ext json csv records) (group_entries ext json csv g)
        (insert_groups ext json csv gs []) (group-Origin g hg) (insert_groups-Origin gs h)

  count-insert_groups :
      (p : ℕ) (gs : List (Bytes × ChunkGroup))
      → All Headed gs
      → count_entries p (insert_groups ext json csv gs []) ≤ count_groups p gs
  unfolding insert_groups count_groups
  count-insert_groups p [] h = unfold count_entries in omega arith
  count-insert_groups p (g ∷ gs) (hg, h) = omega (
    arith,
    count-insert_entries p (group_entries ext json csv g) (insert_groups ext json csv gs []),
    count-group_entries ext json csv g p hg,
    count-insert_groups p gs h,
  )

  insert_groups-Ascending :
      (gs : List (Bytes × ChunkGroup))
      → ((p : ℕ) → count_groups p gs ≤ 1)
      → All Headed gs
      → Ascending 0 (insert_groups ext json csv gs [])
  unfolding insert_groups
  insert_groups-Ascending [] few h = tt
  insert_groups-Ascending (g ∷ gs) few (hg, h) =
      insert_entries-Ascending (group_entries ext json csv g) (insert_groups ext json csv gs [])
        (λ p.
          unfold count_groups in
          omega (arith, few p, count-group_entries ext json csv g p hg, count-insert_groups p gs h))
        (insert_groups-Ascending gs (λ p. unfold count_groups in omega (arith, few p)) h)

  scan-Whole : All Whole (scan ext json csv (empty_pending ext json csv) 0 records).groups
  scan-Whole =
      let start = empty_pending ext json csv in
      let gs = (scan ext json csv start 0 records).groups in
      let (distinct, started) = scan-InOrder ext json csv start 0 records (tt, tt) in
      all-Whole gs
        (chunks gs gs (λ base. scan-look_up ext json csv base start 0 records)
          (look_up-Distinct gs distinct))
        started
        (scan-HasOrigins ext json csv records start 0 records
          (Remaining-append records [] records refl) (tt, tt)).1
    where
      chunks :
          (all gs : List (Bytes × ChunkGroup))
          → ((base : Bytes) → look_up base all ≡ chunks_from ext json csv base 0 records)
          → All (λ e. look_up e.0 all ≡ e.1.chunks) gs
          → All (λ e. chunks_from ext json csv e.0 0 records ≡ e.1.chunks) gs
      chunks all [] h k = tt
      chunks all (g ∷ gs) h (kg, k) = (sym (h g.0) ∙ kg, chunks all gs h k)

  -- However the groups are visited, the entries come in the order of their positions, no position
  -- twice. A report is the value of the record at its position, parsed. A diagnostic is that record
  -- decoded, or all the chunks in the dump of one base key, in the order of the dump, decoded as a
  -- group, at the position of the first. A raw entry is the record at its position, with the error
  -- that its key, its value or its group gives, and with none where it is of no known kind.
  pub sorted_entries_origins :
      (visit : List (Bytes × ChunkGroup) → List (Bytes × ChunkGroup))
      → ((gs : List (Bytes × ChunkGroup)) → Permᴰ gs (visit gs))
      → Ascending 0 (sorted_entries ext json csv visit records)
        × All (Origin ext json csv records) (sorted_entries ext json csv visit records)
  unfolding sorted_entries
  sorted_entries_origins visit h =
      let start = empty_pending ext json csv in
      let s = scan ext json csv start 0 records in
      let (own, grouped) =
        scan-HasOrigins ext json csv records start 0 records
          (Remaining-append records [] records refl) (tt, tt) in
      let heads = All-perm Headed (h s.groups) (scan-Headed ext json csv start 0 records tt) in
      let placed : (p : ℕ) → count_entries p s.entries + count_groups p (visit s.groups) ≤ 1 =
        λ p. ground (arith, scan-places ext json csv records p, count_groups-perm p (h s.groups)) in
      let groups = insert_groups ext json csv (visit s.groups) [] in
      (
        insert_entries-Ascending s.entries groups
            (λ p. omega (arith, placed p, count-insert_groups p (visit s.groups) heads))
            (insert_groups-Ascending (visit s.groups) (λ p. omega (arith, placed p)) heads),
        All-insert_entries (Origin ext json csv records) s.entries groups own
            (insert_groups-Origin (visit s.groups) (All-perm Whole (h s.groups) scan-Whole)),
      )
