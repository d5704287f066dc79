-- ===== src/Kvp/Diagnostics/Frames.antt =====
-- What `frame_records` writes: the payload cut into whole characters, under numbered keys.
use azure_init.Prelude.{
  ℕ, zero, suc, ◌≤◌, ◌<◌, ◌≡◌, refl, sym, ap, ◌∙◌, subst, true, List, [], ◌∷◌, ◌++◌, arith, ltb,
  Bytes, length, min, take, drop, take-append-drop, length-take, length-append, append_assoc,
  append-nil, Bool-cases, List-cases, inl, inr, ◌⊎◌,
}
use azure_init.Result.{ok}
use azure_init.Utf8.{IsUtf8, is_char_boundary}
use azure_init.Utf8.Boundary.{cut-IsUtf8}
use azure_init.Kvp.Store.Record.{Entry}
use azure_init.Kvp.Diagnostics.Model.{max_chunk_bytes}
use azure_init.Kvp.Diagnostics.Writer.{
  max_key_bytes, max_chunks, back_off, chunk_key, chunk_end, frame_loop, frame_records,
}

-- The values of the records, one behind the other.
abbrev pub payload_of : List Entry → Bytes
payload_of [] = []
payload_of (e ∷ es) = e.1 ++ payload_of es

-- Records that carry chunks of text under the keys `base|i`, `base|i+1` and so on.
abbrev pub Numbered : Bytes → ℕ → List Entry → Type 0
Numbered base i [] = Unit
Numbered base i (e ∷ es) =
    ((e.0 ≡ chunk_key base i)
      × (length e.0 ≤ max_key_bytes)
      × (length e.1 ≤ max_chunk_bytes)
      × IsUtf8 e.1)
    × Numbered base (suc i) es

back_off-boundary : (value : Bytes) (end : ℕ) → is_char_boundary value (back_off value end) ≡ true
unfolding back_off
back_off-boundary value zero = unfold is_char_boundary in refl
back_off-boundary value (suc end) = elim (Bool-cases (is_char_boundary value (suc end))) [
  | inl t ↦ rw t t
  | inr f ↦ rw f (back_off-boundary value end)
]

back_off-le : (value : Bytes) (end : ℕ) → back_off value end ≤ end
unfolding back_off
back_off-le value zero = omega arith
back_off-le value (suc end) = ground (arith, back_off-le value end)

-- The records that the loop adds to those it has.
abbrev Framed : ℕ → Bytes → List Entry → Bytes → List Entry → Type 0
Framed slots base records value out =
    (added : List Entry) × (out ≡ records ++ added)
    × (payload_of added ≡ value)
    × Numbered base (length records) added
    × (length added ≤ slots)
    × (0 < length added)

-- The record that a round adds.
abbrev chunk_of : Bytes → List Entry → Bytes → Entry
chunk_of base records value = (chunk_key base (length records), take (chunk_end value) value)

-- A round that does not fail has a key that is short enough, and either ends or goes on.
frame_step :
    (slots : ℕ) (base : Bytes) (records : List Entry) (value : Bytes) (out : List Entry)
    → frame_loop (suc slots) base records value ≡ ok out
    → (length (chunk_key base (length records)) ≤ max_key_bytes)
      × (((drop (chunk_end value) value ≡ []) × (records ++ chunk_of base records value ∷ [] ≡ out))
          ⊎ (frame_loop slots base
                (records ++ chunk_of base records value ∷ [])
                (drop (chunk_end value) value)
              ≡ ok out))
unfolding frame_loop
frame_step slots base records value out h =
    elim (Bool-cases (ltb max_key_bytes (length (chunk_key base (length records))))) [
      | inl long ↦ absurd (ground (arith, long))
      | inr short ↦ (
        ground arith,
        elim (List-cases (drop (chunk_end value) value)) [
          | inl e ↦ inl (e, ground (arith, short, e))
          | inr (b, bs, e) ↦ inr (ground (arith, short, e))
        ],
      )
    ]

chunk_good :
    (base : Bytes) (records : List Entry) (value : Bytes)
    → IsUtf8 value
    → (length (take (chunk_end value) value) ≤ max_chunk_bytes)
      × IsUtf8 (take (chunk_end value) value)
      × IsUtf8 (drop (chunk_end value) value)
chunk_good base records value v =
    let (left, right) =
      cut-IsUtf8 value (chunk_end value)
        (back_off-boundary value (min (length value) max_chunk_bytes)) v in
    (
      omega (
        arith,
        length-take (chunk_end value) value,
        back_off-le value (min (length value) max_chunk_bytes),
      ),
      left,
      right,
    )

frame_loop-Framed :
    (slots : ℕ) (base : Bytes) (records : List Entry) (value : Bytes) (out : List Entry)
    → IsUtf8 value
    → frame_loop slots base records value ≡ ok out
    → Framed slots base records value out
frame_loop-Framed zero base records value out v h = absurd (unfold frame_loop in cc)
frame_loop-Framed (suc slots) base records value out v h =
    let (small, next) = frame_step slots base records value out h in
    let (fits, left, right) = chunk_good base records value v in
    let c : Entry = chunk_of base records value in
    elim next [
      | inl (e, o) ↦ (
        c ∷ [],
        sym o,
        append-nil c.1
            ∙ sym (append-nil c.1)
            ∙ ap (λ t. c.1 ++ t) (sym e)
            ∙ take-append-drop (chunk_end value) value,
        ((refl, small, fits, left), tt),
        omega arith,
        omega arith,
      )
      | inr more ↦
          extend slots base records value out (small, fits, left)
            (frame_loop-Framed slots base (records ++ c ∷ []) (drop (chunk_end value) value) out
              right more)
    ]
  where
    extend :
        (slots : ℕ) (base : Bytes) (records : List Entry) (value : Bytes) (out : List Entry)
        → (length (chunk_key base (length records)) ≤ max_key_bytes)
          × (length (take (chunk_end value) value) ≤ max_chunk_bytes)
          × IsUtf8 (take (chunk_end value) value)
        → Framed slots base
            (records ++ chunk_of base records value ∷ [])
            (drop (chunk_end value) value)
            out
        → Framed (suc slots) base records value out
    extend slots base records value out (small, fits, left) (added, o, whole, numbered, few, some) =
        let c : Entry = chunk_of base records value in
        (
          c ∷ added,
          o ∙ append_assoc records (c ∷ []) added,
          ap (λ t. c.1 ++ t) whole ∙ take-append-drop (chunk_end value) value,
          (
            (refl, small, fits, left),
            subst (λ i. Numbered base i added) (length-append records (c ∷ []) ∙ omega arith)
                numbered,
          ),
          omega arith,
          omega arith,
        )

-- Where `frame_records` succeeds on a text, its records carry the whole text in order, under the
-- keys `base|0`, `base|1` and so on; there are between 1 and 1023, every key has at most 254
-- bytes, and every value is text of at most 1022 bytes.
pub frame_records-Framed :
    (base value : Bytes) (out : List Entry)
    → IsUtf8 value
    → frame_records base value ≡ ok out
    → (payload_of out ≡ value) × Numbered base 0 out × (length out ≤ max_chunks) × (0 < length out)
unfolding frame_records
frame_records-Framed base value out v h =
    let (added, o, whole, numbered, few, some) =
      frame_loop-Framed max_chunks base [] value out v h in
    rw o (whole, numbered, few, some)
