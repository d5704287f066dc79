-- ===== src/Kvp/Store/Iter/Cells.antt =====
-- A well-formed pool as a list of blocks, each with the entry that it decodes to.
use azure_init.Prelude.{
  ◌*◌, ◌/◌, ◌%◌, ◌≡◌, refl, List, [], ◌∷◌, ◌++◌, map, arith, ◌==◌, Bytes, length, length-append,
  append_assoc, take, length-take, Bool-cases, inl, inr,
}
use azure_init.Result.{ok}
use azure_init.Utf8.{IsUtf8}
use azure_init.Kvp.Store.Policy.{wire_max_key_bytes, wire_max_value_bytes, record_size}
use azure_init.Kvp.Store.Record.{
  Entry, decode_record, encode_record, zero_padded, record_count_from_len, until_nul,
}
use azure_init.Kvp.Store.Record.RoundTrip.{
  Fits, EntryFits, decode_record-encode_record, length-zero_padded, until_nul-zero_padded,
  decode_fields,
}

pub record Cell : Type 0 where
  pub block : Bytes
  pub entry : Entry
  pub decodes : decode_record block ≡ ok entry

abbrev pub bytes_of_cells : List Cell → Bytes
bytes_of_cells [] = []
bytes_of_cells (c ∷ cs) = c.block ++ bytes_of_cells cs

abbrev pub entries_of : List Cell → List Entry
entries_of = map (λ (c : Cell). c.entry)

pub bytes-append :
    (cs ds : List Cell) → bytes_of_cells (cs ++ ds) ≡ bytes_of_cells cs ++ bytes_of_cells ds
bytes-append [] ds = refl
bytes-append (c ∷ cs) ds = simp (bytes-append cs ds, append_assoc)

-- Only a block of the record's size decodes.
decoded_length :
    (block : Bytes) (e : Entry) → decode_record block ≡ ok e → length block ≡ record_size
unfolding decode_record
decoded_length block e h = elim (Bool-cases (length block == record_size)) [
  | inl t ↦ ground arith
  | inr f ↦ absurd (ground (arith, f))
]

pub length-block : (c : Cell) → length c.block ≡ record_size
length-block c = decoded_length c.block c.entry c.decodes

pub length-bytes : (cs : List Cell) → length (bytes_of_cells cs) ≡ length cs * record_size
length-bytes [] = refl
length-bytes (c ∷ cs) =
    omega (arith, length-append c.block (bytes_of_cells cs), length-block c, length-bytes cs)

pub record_count-bytes :
    (cs : List Cell) → record_count_from_len (length (bytes_of_cells cs)) ≡ ok (length cs)
unfolding record_count_from_len
record_count-bytes cs =
    let quotient : length cs * record_size / record_size ≡ length cs = omega arith in
    let remainder : length cs * record_size % record_size ≡ 0 = omega arith in
    rw length-bytes (ground (arith, quotient, remainder))

-- The block that `append` writes for an entry that fits.
unfoldable pub encoded : (e : Entry) → EntryFits e → Cell
encoded e h = record {
  block = encode_record e.0 e.1;
  entry = e;
  decodes = decode_record-encode_record e h;
}

-- The key that a block decodes to is valid text, and its own field's.
pub key_field :
    (block : Bytes) (e : Entry)
    → decode_record block ≡ ok e
    → (until_nul (take wire_max_key_bytes block) ≡ e.0) × IsUtf8 e.0
unfolding decode_record
key_field block (k, v) h = ground arith

-- The cell whose value field `overwrite_current_value` has written.
pub overwritten : (c : Cell) (v : Bytes) → Fits wire_max_value_bytes v → Cell
overwritten c v f =
    let (own, text) = key_field c.block c.entry c.decodes in
    record {
      block = take wire_max_key_bytes c.block ++ zero_padded wire_max_value_bytes v;
      entry = (c.entry.0, v);
      decodes =
          decode_fields (take wire_max_key_bytes c.block) (zero_padded wire_max_value_bytes v)
            (c.entry.0, v) (omega (arith, length-take wire_max_key_bytes c.block, length-block c))
            (length-zero_padded wire_max_value_bytes v) own
            (until_nul-zero_padded wire_max_value_bytes v f.short f.no_nul) text f.utf8;
    }

pub block-overwritten :
    (c : Cell) (v : Bytes) (f : Fits wire_max_value_bytes v)
    → (overwritten c v f).block
      ≡ take wire_max_key_bytes c.block ++ zero_padded wire_max_value_bytes v
unfolding overwritten
block-overwritten c v f = refl

pub entry-overwritten :
    (c : Cell) (v : Bytes) (f : Fits wire_max_value_bytes v)
    → (overwritten c v f).entry ≡ (c.entry.0, v)
unfolding overwritten
entry-overwritten c v f = refl

pub block-encoded : (e : Entry) (h : EntryFits e) → (encoded e h).block ≡ encode_record e.0 e.1
unfolding encoded
block-encoded e h = refl

pub entry-encoded : (e : Entry) (h : EntryFits e) → (encoded e h).entry ≡ e
unfolding encoded
entry-encoded e h = refl
