-- ===== src/Kvp/Diagnostics/Entries/Visits.antt =====
-- `decode_entries` and the order in which it visits its groups.
use mathlib.Core.List.{Permᴰ}
use mathlib.Core.Path.{ap₂}
use azure_init.Prelude.{
  ℕ, suc, ◌+◌, ◌≤◌, ◌≡◌, ◌≢◌, refl, sym, ap, ◌∙◌, List, [], ◌∷◌, map, arith, Bytes, All, All-perm,
  bytes_eq, Bool-cases, inl, inr,
}
use azure_init.Result.{Result, ok, err}
use azure_init.Kvp.Report.{Csv}
use azure_init.Kvp.Diagnostics.Model.{DecodeError, Diagnostic}
use azure_init.Kvp.Diagnostics.External.{External}
use azure_init.Kvp.Diagnostics.Json.{SerdeJson}
use azure_init.Kvp.Diagnostics.Reader.{Chunk}
use azure_init.Kvp.Diagnostics.Entries.{
  Entry, ChunkGroup, Pending, Placed, entry, chunk, push_chunk, insert_entry, insert_entries, place,
  add_placed, scan, empty_pending, decode_group, refused, group_result, group_entries,
  insert_groups, sorted_entries, decode_entries,
}
use azure_init.Kvp.Diagnostics.Entries.Places.{
  hits, count_entries, count_chunks, count_groups, count_chunks-append, scan-places,
}

insert_insert {ℓ} :
    {A : Type ℓ} (e f : ℕ × A) (l : List (ℕ × A))
    → e.0 ≢ f.0
    → insert_entry e (insert_entry f l) ≡ insert_entry f (insert_entry e l)
unfolding insert_entry
insert_insert e f [] h = ground arith
insert_insert e f (g ∷ l) h = ground (arith, insert_insert e f l h)

insert-insert_entries {ℓ} :
    {A : Type ℓ} (e : ℕ × A) (fs l : List (ℕ × A))
    → count_entries e.0 fs ≡ 0
    → insert_entry e (insert_entries fs l) ≡ insert_entries fs (insert_entry e l)
unfolding insert_entries count_entries
insert-insert_entries e [] l h = refl
insert-insert_entries e (f ∷ fs) l h =
    insert_insert e f (insert_entries fs l) (ground arith)
    ∙ ap (insert_entry f) (insert-insert_entries e fs l (ground arith))

-- No position is in both lists.
abbrev Apart {ℓ} : {A : Type ℓ} → List (ℕ × A) → List (ℕ × A) → Type 0
Apart es fs = (p : ℕ) → count_entries p es + count_entries p fs ≤ 1

insert_entries_swap {ℓ} :
    {A : Type ℓ} (es fs l : List (ℕ × A))
    → Apart es fs
    → insert_entries es (insert_entries fs l) ≡ insert_entries fs (insert_entries es l)
unfolding insert_entries
insert_entries_swap [] fs l h = refl
insert_entries_swap (e ∷ es) fs l h =
    ap (insert_entry e)
      (insert_entries_swap es fs l (λ p. unfold count_entries in ground (arith, h p)))
    ∙ insert-insert_entries e fs (insert_entries es l)
        (unfold count_entries in ground (arith, h e.0))

-- The group's first position is the position of one of its chunks.
abbrev pub Headed : Bytes × ChunkGroup → Type 0
Headed g = (p : ℕ) → hits p g.1.first_position ≤ count_chunks p g.1.chunks

push-Headed :
    (base : Bytes) (c : Chunk) (gs : List (Bytes × ChunkGroup))
    → All Headed gs
    → All Headed (push_chunk base c gs)
unfolding push_chunk
push-Headed base c [] h = ((λ p. unfold count_chunks in omega arith), tt)
push-Headed base c ((b, g) ∷ gs) (hg, h) = elim (Bool-cases (bytes_eq b base)) [
  | inl same ↦ rw same ((λ p. omega (arith, hg p, count_chunks-append p g.chunks (c ∷ []))), h)
  | inr other ↦ rw other (hg, push-Headed base c gs h)
]

pub count_groups-perm :
    {gs hs : List (Bytes × ChunkGroup)} (p : ℕ)
    → Permᴰ gs hs
    → count_groups p gs ≡ count_groups p hs
unfolding count_groups
count_groups-perm p Permᴰ.nil = refl
count_groups-perm p (Permᴰ.cons e h) =
    ap₂ (λ g n. count_chunks p g.1.chunks + n) e (count_groups-perm p h)
count_groups-perm p (Permᴰ.swap {a} {b} {a' = a'} {b' = b'} e f) = omega (
  arith,
  ap (λ (g : Bytes × ChunkGroup). count_chunks p g.1.chunks) e,
  ap (λ (g : Bytes × ChunkGroup). count_chunks p g.1.chunks) f,
)
count_groups-perm p (Permᴰ.trans h k) = count_groups-perm p h ∙ count_groups-perm p k

module _ (ext : External) (json : SerdeJson) (csv : Csv) where
  pub scan-Headed :
      (s : Pending ext.Timestamp) (position : ℕ) (records : List (Bytes × Bytes))
      → All Headed s.groups
      → All Headed (scan ext json csv s position records).groups
  unfolding scan
  scan-Headed s position [] h = h
  scan-Headed s position ((key, value) ∷ records) h =
      scan-Headed (add_placed ext json csv s position key value (place ext json csv key value))
        (suc position) records (added (place ext json csv key value))
    where
      added :
          (placed : Placed ext.Timestamp)
          → All Headed (add_placed ext json csv s position key value placed).groups
      added (entry e) = unfold add_placed in h
      added (chunk base index) = unfold add_placed in push-Headed base _ s.groups h

  count-refused :
      (e : DecodeError) (p : ℕ) (cs : List Chunk)
      → count_entries p (map (refused ext json csv e) cs) ≡ count_chunks p cs
  unfolding count_entries count_chunks
  count-refused e p [] = refl
  count-refused e p (c ∷ cs) = omega (arith, count-refused e p cs)

  pub count-group_entries :
      (g : Bytes × ChunkGroup) (p : ℕ)
      → Headed g
      → count_entries p (group_entries ext json csv g) ≤ count_chunks p g.1.chunks
  unfolding group_entries
  count-group_entries (base, g) p h = counted (decode_group ext json csv base g.chunks)
    where
      counted :
          (r : Result DecodeError (Diagnostic ext.Timestamp))
          → count_entries p (group_result ext json csv g r) ≤ count_chunks p g.chunks
      counted (ok d) = unfold count_entries in omega (arith, h p)
      counted (err e) = omega (arith, count-refused e p g.chunks)

  insert_groups-perm :
      {gs hs : List (Bytes × ChunkGroup)} (l : List (ℕ × Entry ext.Timestamp))
      → Permᴰ gs hs
      → ((p : ℕ) → count_groups p gs ≤ 1)
      → All Headed gs
      → insert_groups ext json csv gs l ≡ insert_groups ext json csv hs l
  unfolding insert_groups
  insert_groups-perm l Permᴰ.nil few heads = refl
  insert_groups-perm l (Permᴰ.cons e h) few (hg, heads) =
      ap₂ (λ g r. insert_entries (group_entries ext json csv g) r) e
        (insert_groups-perm l h (λ p. unfold count_groups in omega (arith, few p)) heads)
  insert_groups-perm l (Permᴰ.swap {a} {b} {a' = a'} {b' = b'} {l = rest} e f) few
        (ha, (hb, heads)) =
      insert_entries_swap (group_entries ext json csv a) (group_entries ext json csv b)
        (insert_groups ext json csv rest l)
        (λ p.
          unfold count_groups in
          omega (arith, few p, count-group_entries a p ha, count-group_entries b p hb))
      ∙ ap₂
          (λ g h.
            insert_entries (group_entries ext json csv g)
              (insert_entries (group_entries ext json csv h) (insert_groups ext json csv rest l)))
          f e
  insert_groups-perm l (Permᴰ.trans h k) few heads =
      insert_groups-perm l h few heads
      ∙ insert_groups-perm l k (λ p. omega (arith, few p, count_groups-perm p h))
          (All-perm Headed h heads)

  -- The groups that the first loop collects have no position twice.
  pub scan-few :
      (records : List (Bytes × Bytes)) (p : ℕ)
      → count_groups p (scan ext json csv (empty_pending ext json csv) 0 records).groups ≤ 1
  scan-few records p = ground (arith, scan-places ext json csv records p)

  -- Whichever two orders the groups of chunks are visited in, the entries are the same.
  pub decode_entries_any_visit :
      (visit visit' : List (Bytes × ChunkGroup) → List (Bytes × ChunkGroup))
      (records : List (Bytes × Bytes))
      → ((gs : List (Bytes × ChunkGroup)) → Permᴰ gs (visit gs))
      → ((gs : List (Bytes × ChunkGroup)) → Permᴰ gs (visit' gs))
      → decode_entries ext json csv visit records ≡ decode_entries ext json csv visit' records
  unfolding decode_entries sorted_entries
  decode_entries_any_visit visit visit' records h k =
      let s = scan ext json csv (empty_pending ext json csv) 0 records in
      let heads = scan-Headed (empty_pending ext json csv) 0 records tt in
      let few = scan-few records in
      ap (λ l. map (λ e. e.1) (insert_entries s.entries l))
        (sym (insert_groups-perm [] (h s.groups) few heads)
          ∙ insert_groups-perm [] (k s.groups) few heads)
