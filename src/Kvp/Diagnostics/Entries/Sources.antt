-- ===== src/Kvp/Diagnostics/Entries/Sources.antt =====
-- What an entry comes from, and the entries that the first loop of `decode_entries` makes.
use azure_init.Prelude.{
  ℕ, suc, ◌≡◌, refl, sym, ap, ◌∙◌, ◌⊎◌, Option, none, some, List, [], ◌∷◌, ◌++◌, arith, Bytes, All,
  All-append, get_elem?, get_elem?-append, append_assoc, length, length-append, bytes_eq,
  bytes_eq_sound, Bool-cases, inl, inr, subst,
}
use azure_init.Result.{Result, ok, err}
use azure_init.Kvp.Report.{Csv, ProvisioningReport, provisioning_report_key, from_str}
use azure_init.Kvp.Diagnostics.Model.{DecodeError, Diagnostic, RawKeyValue}
use azure_init.Kvp.Diagnostics.External.{External}
use azure_init.Kvp.Diagnostics.Json.{SerdeJson}
use azure_init.Kvp.Diagnostics.Reader.{Chunk}
use azure_init.Kvp.Diagnostics.CloudInit.{decode_single}
use azure_init.Kvp.Diagnostics.Entries.{
  Entry, diagnostic, report, raw, ChunkGroup, Pending, Source, keyed, provisioning, unrelated,
  push_chunk, source_of, place_from, place, add_placed, scan, decode_group, raw_record,
  report_entry, diagnostic_entry,
}
use azure_init.Kvp.Diagnostics.Entries.Groups.{chunks_from}

-- The records from position `p` on are those that stand there in `all`.
abbrev Remaining : List (Bytes × Bytes) → ℕ → List (Bytes × Bytes) → Type 0
Remaining all p [] = Unit
Remaining all p (r ∷ rs) = (get_elem? all p ≡ some r) × Remaining all (suc p) rs

pub Remaining-append :
    (all done rs : List (Bytes × Bytes)) → all ≡ done ++ rs → Remaining all (length done) rs
Remaining-append all done [] e = tt
Remaining-append all done (r ∷ rs) e = (
  ap (λ l. get_elem? l (length done)) e ∙ get_elem?-append done r rs,
  subst (λ n. Remaining all n rs)
      (let one : length (done ++ r ∷ []) ≡ suc (length done) =
          omega (arith, length-append done (r ∷ [])) in
        one)
      (Remaining-append all (done ++ r ∷ []) rs (e ∙ sym (append_assoc done (r ∷ []) rs))),
)

module _ (ext : External) (json : SerdeJson) (csv : Csv) (records : List (Bytes × Bytes)) where
  open ext use {Timestamp}

  -- The chunk is a record of the dump, whose key names the group and the index.
  abbrev pub ChunkOf : Bytes → Chunk → Type 0
  ChunkOf base c =
      (get_elem? records c.position ≡ some (c.raw.key, c.raw.value))
      × (source_of ext json csv c.raw.key ≡ keyed (ok (base, some c.index)))

  -- Why a record of this source is raw: it is no chunk, event or report; or its key, its report or
  -- its event is refused; or all the chunks in the dump of the base key that it names are.
  abbrev pub RawFor : Source → RawKeyValue → Type 0
  RawFor unrelated r = r.error ≡ none
  RawFor provisioning r = (e : DecodeError) × (from_str csv r.value ≡ err e) × (r.error ≡ some e)
  RawFor (keyed (err e)) r = r.error ≡ some e
  RawFor (keyed (ok (base, none))) r =
      (e : DecodeError) × (decode_single ext json base r.value ≡ err e) × (r.error ≡ some e)
  RawFor (keyed (ok (base, some index))) r =
      (e : DecodeError) × (decode_group ext json csv base (chunks_from ext json csv base 0 records)
        ≡ err e)
      × (r.error ≡ some e)

  -- What an entry at position `p` comes from: a raw entry has the record there, a report is that
  -- record's value parsed, a diagnostic is decoded from that record, or from all the chunks in the
  -- dump that name its base key, the first of which is at `p`.
  abbrev pub Origin : ℕ × Entry Timestamp → Type 0
  Origin (p, raw r) =
      (get_elem? records p ≡ some (r.key, r.value)) × RawFor (source_of ext json csv r.key) r
  Origin (p, report r) =
      (value : Bytes) × (get_elem? records p ≡ some (provisioning_report_key, value))
      × (from_str csv value ≡ ok r)
  Origin (p, diagnostic d) =
      ((key : Bytes) × (value : Bytes) × (base : Bytes) × (get_elem? records p ≡ some (key, value))
        × (source_of ext json csv key ≡ keyed (ok (base, none)))
        × (decode_single ext json base value ≡ ok d))
      ⊎ ((base : Bytes) × (c : Chunk) × (cs : List Chunk) × (chunks_from ext json csv base 0 records
            ≡ c ∷ cs)
          × (c.position ≡ p)
          × (decode_group ext json csv base (c ∷ cs) ≡ ok d))

  abbrev pub GroupOf : Bytes × ChunkGroup → Type 0
  GroupOf (base, g) = All (ChunkOf base) g.chunks

  abbrev HasOrigins : Pending Timestamp → Type 0
  HasOrigins s = All Origin s.entries × All GroupOf s.groups

  push-GroupOf :
      (base : Bytes) (c : Chunk) (gs : List (Bytes × ChunkGroup))
      → ChunkOf base c
      → All GroupOf gs
      → All GroupOf (push_chunk base c gs)
  unfolding push_chunk
  push-GroupOf base c [] hc h = ((hc, tt), tt)
  push-GroupOf base c ((b, g) ∷ gs) hc (hg, h) = elim (Bool-cases (bytes_eq b base)) [
    | inl same ↦ rw same (
      All-append (ChunkOf b) g.chunks (c ∷ []) hg
          ((subst (λ k. ChunkOf k c) (sym (bytes_eq_sound b base same)) hc), tt),
      h,
    )
    | inr other ↦ rw other (hg, push-GroupOf base c gs hc h)
  ]

  provisioning_key :
      (key : Bytes) → source_of ext json csv key ≡ provisioning → key ≡ provisioning_report_key
  unfolding source_of
  provisioning_key key h = ground (arith, bytes_eq_sound key provisioning_report_key)

  module _ (s : Pending Timestamp) (p : ℕ) (key value : Bytes)
      (here : get_elem? records p ≡ some (key, value)) (before : HasOrigins s) where
    raw_at :
        (source : Source) (error : Option DecodeError)
        → source_of ext json csv key ≡ source
        → RawFor source (raw_record key value error)
        → Origin (p, raw (raw_record key value error))
    raw_at source error e h = (here, subst (λ s. RawFor s (raw_record key value error)) (sym e) h)

    with_entry : (e : Entry Timestamp) → Origin (p, e) → All Origin (s.entries ++ (p, e) ∷ [])
    with_entry e o = All-append Origin s.entries ((p, e) ∷ []) before.0 (o, tt)

    add-HasOrigins :
        (source : Source)
        → source_of ext json csv key ≡ source
        → HasOrigins
            (add_placed ext json csv s p key value (place_from ext json csv source key value))
    unfolding add_placed place_from
    add-HasOrigins provisioning e = (with_entry _ (parsed (from_str csv value) refl), before.1)
      where
        parsed :
            (r : Result DecodeError ProvisioningReport)
            → from_str csv value ≡ r
            → Origin (p, report_entry ext json csv key value r)
        parsed (ok r) h = (value, rw (← provisioning_key key e) here, h)
        parsed (err x) h = raw_at provisioning (some x) e (x, h, refl)
    add-HasOrigins unrelated e = (with_entry _ (raw_at unrelated none e refl), before.1)
    add-HasOrigins (keyed (err x)) e =
        (with_entry _ (raw_at (keyed (err x)) (some x) e refl), before.1)
    add-HasOrigins (keyed (ok (base, none))) e =
        (with_entry _ (decoded (decode_single ext json base value) refl), before.1)
      where
        decoded :
            (r : Result DecodeError (Diagnostic Timestamp))
            → decode_single ext json base value ≡ r
            → Origin (p, diagnostic_entry ext json csv key value r)
        decoded (ok d) h = inl (key, value, base, here, e, h)
        decoded (err x) h = raw_at (keyed (ok (base, none))) (some x) e (x, h, refl)
    add-HasOrigins (keyed (ok (base, some index))) e =
        (before.0, push-GroupOf base _ s.groups (here, e) before.1)

  pub scan-HasOrigins :
      (s : Pending Timestamp) (p : ℕ) (rest : List (Bytes × Bytes))
      → Remaining records p rest
      → HasOrigins s
      → HasOrigins (scan ext json csv s p rest)
  unfolding scan place
  scan-HasOrigins s p [] r h = h
  scan-HasOrigins s p ((key, value) ∷ rest) (here, r) h =
      scan-HasOrigins (add_placed ext json csv s p key value (place ext json csv key value)) (suc p)
        rest r (add-HasOrigins s p key value here h (source_of ext json csv key) refl)
