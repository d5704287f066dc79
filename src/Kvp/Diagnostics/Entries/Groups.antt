-- ===== src/Kvp/Diagnostics/Entries/Groups.antt =====
-- The groups of chunks that the first loop of `decode_entries` collects from a dump.
use azure_init.Prelude.{
  ℕ, suc, ◌≡◌, refl, sym, ap, ◌∙◌, Bool, Bool-cases, true, false, none, some, List, [], ◌∷◌, ◌++◌,
  append-nil, append_assoc, if◌then◌else◌, Bytes, All, bytes_eq, bytes_eq_sound, bytes_eq_refl, inl,
  inr,
}
use azure_init.Result.{ok, err}
use azure_init.Kvp.Report.{Csv}
use azure_init.Kvp.Diagnostics.External.{External}
use azure_init.Kvp.Diagnostics.Json.{SerdeJson}
use azure_init.Kvp.Diagnostics.Reader.{Chunk}
use azure_init.Kvp.Diagnostics.Entries.{
  ChunkGroup, Pending, Source, keyed, provisioning, unrelated, Placed, entry, chunk, push_chunk,
  raw_record, source_of, place_from, place, add_placed, scan,
}

-- The chunks of the group with this base key.
abbrev pub look_up : Bytes → List (Bytes × ChunkGroup) → List Chunk
look_up base [] = []
look_up base ((b, g) ∷ gs) = if bytes_eq b base then g.chunks else look_up base gs

apart : (k b base : Bytes) → bytes_eq k b ≡ false → bytes_eq k base ≡ true → bytes_eq b base ≡ false
apart k b base other here = elim (Bool-cases (bytes_eq b base)) [
  | inl same ↦
      let p = bytes_eq_sound b base same in
      let q = bytes_eq_sound k base here in let r = bytes_eq_refl k in cc
  | inr there ↦ there
]

look_up-push :
    (base b : Bytes) (c : Chunk) (gs : List (Bytes × ChunkGroup))
    → look_up base (push_chunk b c gs)
      ≡ (if bytes_eq b base then look_up base gs ++ c ∷ [] else look_up base gs)
unfolding push_chunk
look_up-push base b c [] = refl
look_up-push base b c ((k, g) ∷ gs) = elim (Bool-cases (bytes_eq k b)) [
  | inl same ↦ rw same (
      rw (bytes_eq_sound k b same) (elim (Bool-cases (bytes_eq b base)) [
        | inl here ↦ rw here refl
        | inr there ↦ rw there refl
      ]))
  | inr other ↦ rw other (elim (Bool-cases (bytes_eq k base)) [
    | inl here ↦ rw here (rw (apart k b base other here) refl)
    | inr there ↦ rw there (look_up-push base b c gs)
  ])
]

-- No two groups have the same base key.
abbrev Fresh : Bytes → List (Bytes × ChunkGroup) → Type 0
Fresh b gs = All (λ g. bytes_eq b g.0 ≡ false) gs

abbrev Distinct : List (Bytes × ChunkGroup) → Type 0
Distinct [] = Unit
Distinct ((b, g) ∷ gs) = Fresh b gs × Distinct gs

push-Fresh :
    (k b : Bytes) (c : Chunk) (gs : List (Bytes × ChunkGroup))
    → bytes_eq k b ≡ false
    → Fresh k gs
    → Fresh k (push_chunk b c gs)
unfolding push_chunk
push-Fresh k b c [] e h = (e, tt)
push-Fresh k b c ((d, g) ∷ gs) e (hd, h) = elim (Bool-cases (bytes_eq d b)) [
  | inl same ↦ rw same (hd, h)
  | inr other ↦ rw other (hd, push-Fresh k b c gs e h)
]

push-Distinct :
    (b : Bytes) (c : Chunk) (gs : List (Bytes × ChunkGroup))
    → Distinct gs
    → Distinct (push_chunk b c gs)
unfolding push_chunk
push-Distinct b c [] h = (tt, tt)
push-Distinct b c ((k, g) ∷ gs) (hk, h) = elim (Bool-cases (bytes_eq k b)) [
  | inl same ↦ rw same (hk, h)
  | inr other ↦ rw other (push-Fresh k b c gs other hk, push-Distinct b c gs h)
]

behind_Fresh :
    (k : Bytes) (g : ChunkGroup) (all gs : List (Bytes × ChunkGroup))
    → Fresh k gs
    → All (λ e. look_up e.0 all ≡ e.1.chunks) gs
    → All (λ e. look_up e.0 ((k, g) ∷ all) ≡ e.1.chunks) gs
behind_Fresh k g all [] h hs = tt
behind_Fresh k g all ((b, e) ∷ gs) (hb, h) (he, hs) = ((rw hb he), behind_Fresh k g all gs h hs)

pub look_up-Distinct :
    (gs : List (Bytes × ChunkGroup)) → Distinct gs → All (λ e. look_up e.0 gs ≡ e.1.chunks) gs
look_up-Distinct [] h = tt
look_up-Distinct ((k, g) ∷ gs) (hk, h) =
    ((rw (bytes_eq_refl k) refl), behind_Fresh k g gs gs hk (look_up-Distinct gs h))

-- The chunks begin with one at this position.
abbrev pub Starts : ℕ → List Chunk → Type 0
Starts p [] = ⊥
Starts p (c ∷ cs) = c.position ≡ p

Starts-append : (p : ℕ) (cs ds : List Chunk) → Starts p cs → Starts p (cs ++ ds)
Starts-append p [] ds h = absurd h
Starts-append p (c ∷ cs) ds h = h

abbrev pub Started : Bytes × ChunkGroup → Type 0
Started g = Starts g.1.first_position g.1.chunks

push-Started :
    (b : Bytes) (c : Chunk) (gs : List (Bytes × ChunkGroup))
    → All Started gs
    → All Started (push_chunk b c gs)
unfolding push_chunk
push-Started b c [] h = (refl, tt)
push-Started b c ((k, g) ∷ gs) (hg, h) = elim (Bool-cases (bytes_eq k b)) [
  | inl same ↦ rw same (Starts-append g.first_position g.chunks (c ∷ []) hg, h)
  | inr other ↦ rw other (hg, push-Started b c gs h)
]

module _ (ext : External) (json : SerdeJson) (csv : Csv) where
  abbrev taken : Bytes → ℕ → Bytes → Bytes → Source → List Chunk → List Chunk
  taken base p key value (keyed (ok (b, some index))) later =
      if bytes_eq b base
      then record { position = p; index = index; raw = raw_record key value none } ∷ later
      else later
  taken base p key value _ later = later

  -- The records from position `p` on whose keys name a chunk of this base key, in their order.
  abbrev pub chunks_from : Bytes → ℕ → List (Bytes × Bytes) → List Chunk
  chunks_from base p [] = []
  chunks_from base p ((key, value) ∷ records) =
      let later = chunks_from base (suc p) records in
      taken base p key value (source_of ext json csv key) later

  add-look_up :
      (base : Bytes) (s : Pending ext.Timestamp) (p : ℕ) (key value : Bytes) (later : List Chunk)
      (source : Source)
      → look_up base
            (add_placed ext json csv s p key value
              (place_from ext json csv source key value)).groups
          ++ later
        ≡ look_up base s.groups ++ taken base p key value source later
  unfolding add_placed place_from
  add-look_up base s p key value later provisioning = refl
  add-look_up base s p key value later unrelated = refl
  add-look_up base s p key value later (keyed (err e)) = refl
  add-look_up base s p key value later (keyed (ok (b, none))) = refl
  add-look_up base s p key value later (keyed (ok (b, some index))) =
      ap (λ l. l ++ later) (look_up-push base b c s.groups) ∙ split (bytes_eq b base)
    where
      c : Chunk
      c = record { position = p; index = index; raw = raw_record key value none }

      split :
          (same : Bool)
          → (if same then look_up base s.groups ++ c ∷ [] else look_up base s.groups) ++ later
            ≡ look_up base s.groups ++ (if same then c ∷ later else later)
      split true = append_assoc (look_up base s.groups) (c ∷ []) later
      split false = refl

  pub scan-look_up :
      (base : Bytes) (s : Pending ext.Timestamp) (p : ℕ) (records : List (Bytes × Bytes))
      → look_up base (scan ext json csv s p records).groups
        ≡ look_up base s.groups ++ chunks_from base p records
  unfolding scan place
  scan-look_up base s p [] = sym (append-nil (look_up base s.groups))
  scan-look_up base s p ((key, value) ∷ records) =
      scan-look_up base (add_placed ext json csv s p key value (place ext json csv key value))
        (suc p) records
      ∙ add-look_up base s p key value (chunks_from base (suc p) records)
          (source_of ext json csv key)

  -- The groups so far have different base keys, and each begins at its first position.
  abbrev InOrder : List (Bytes × ChunkGroup) → Type 0
  InOrder gs = Distinct gs × All Started gs

  pub scan-InOrder :
      (s : Pending ext.Timestamp) (p : ℕ) (records : List (Bytes × Bytes))
      → InOrder s.groups
      → InOrder (scan ext json csv s p records).groups
  unfolding scan
  scan-InOrder s p [] h = h
  scan-InOrder s p ((key, value) ∷ records) h =
      scan-InOrder (add_placed ext json csv s p key value (place ext json csv key value)) (suc p)
        records (added (place ext json csv key value))
    where
      added :
          (placed : Placed ext.Timestamp)
          → InOrder (add_placed ext json csv s p key value placed).groups
      added (entry e) = unfold add_placed in h
      added (chunk base index) =
          unfold add_placed in (push-Distinct base _ s.groups h.0, push-Started base _ s.groups h.1)
