-- ===== src/Kvp/Diagnostics/Reader/RoundTrip.antt =====
-- Framing by the writer and reassembly by the reader.
use azure_init.Prelude.{
  ℕ, suc, ◌+◌, ◌≤◌, ◌≡◌, refl, sym, ap, ◌∙◌, false, Option, none, some, List, [], ◌∷◌, ◌++◌, arith,
  ltb, Bytes, length, List-cases, inl, inr,
}
use mathlib.Core.Path.{ap₂}
use azure_init.Result.{Result, ok}
use azure_init.Utf8.{IsUtf8}
use azure_init.Text.{is_empty, to_decimal, u64_max}
use azure_init.Text.Decimal.{
  value-to_decimal, all_digits-to_decimal, to_decimal-ne-nil, all_digits-Lacks, rsplit_once-append,
}
use azure_init.Kvp.Store.Record.{Entry}
use azure_init.Kvp.Diagnostics.Model.{
  Encoding, zlib_b64, gz_b64, other, DiagnosticPayload, text, bytes, DecodeError, parse_unsigned,
}
use azure_init.Kvp.Diagnostics.External.{External}
use azure_init.Kvp.Diagnostics.Encode.{
  encode_payload, decode_payload, Inverts, read_back, PayloadUtf8,
}
use azure_init.Kvp.Diagnostics.Writer.{chunk_key, frame_records}
use azure_init.Kvp.Diagnostics.Frames.{payload_of, Numbered, frame_records-Framed}
use azure_init.Kvp.Diagnostics.Reader.{Chunk, split_chunk_key, values, decode_chunks}
use azure_init.Kvp.Diagnostics.Reader.Chunks.{Indexed, order_chunks-Indexed}

-- A decimal number that a `u64` holds is read back.
pub parse_unsigned-to_decimal : (n : ℕ) → n ≤ u64_max → parse_unsigned (to_decimal n) ≡ ok n
unfolding parse_unsigned
parse_unsigned-to_decimal n h = elim (List-cases (to_decimal n)) [
  | inl e ↦ absurd (to_decimal-ne-nil n e)
  | inr (b, bs, e) ↦
      let some_text : is_empty (to_decimal n) ≡ false = ap is_empty e in
      let fits : ltb u64_max n ≡ false = ground arith in
      rw (some_text, all_digits-to_decimal n, value-to_decimal n, fits)
]

-- The reader finds the base key and the index in a key that the writer made.
pub split_chunk_key-chunk_key :
    (base : Bytes) (n : ℕ) → n ≤ u64_max → split_chunk_key (chunk_key base n) ≡ ok (base, n)
unfolding split_chunk_key
split_chunk_key-chunk_key base n h = rw (
  rsplit_once-append base (to_decimal n)
      (all_digits-Lacks (to_decimal n) (all_digits-to_decimal n)),
  parse_unsigned-to_decimal n h,
)

-- The chunks are those that the reader collects from the records into the group of `base`.
abbrev pub Collected : Bytes → List Entry → List Chunk → Type 0
Collected base [] [] = Unit
Collected base [] (c ∷ cs) = ⊥
Collected base (e ∷ es) [] = ⊥
Collected base (e ∷ es) (c ∷ cs) =
    (split_chunk_key e.0 ≡ ok (base, c.index)) × (c.raw.value ≡ e.1) × Collected base es cs

ok_pair :
    (a b : Bytes) (m n : ℕ)
    → ◌≡◌ {A = Result DecodeError (Bytes × ℕ)} (ok (a, m)) (ok (b, n))
    → n ≡ m
ok_pair a b m n h = ground arith

Collected-in_order :
    (base : Bytes) (i : ℕ) (es : List Entry) (cs : List Chunk)
    → i + length es ≤ u64_max
    → Numbered base i es
    → Collected base es cs
    → Indexed i cs × (values cs ≡ payload_of es)
Collected-in_order base i [] [] fits n c = (tt, refl)
Collected-in_order base i [] (c ∷ cs) fits n g = absurd g
Collected-in_order base i (e ∷ es) [] fits n g = absurd g
Collected-in_order base i (e ∷ es) (c ∷ cs) fits (named, n) (key, value, g) =
    let (indexed, same) = Collected-in_order base (suc i) es cs (omega arith) n g in
    let read : ok (base, i) ≡ ok (base, c.index) =
      sym (ap split_chunk_key named.0 ∙ split_chunk_key-chunk_key base i (omega arith)) ∙ key in
    ((ok_pair base base i c.index read, indexed), ap₂ (λ s t. s ++ t) value same)

module _ (ext : External) (inv : Inverts ext) where
  encoded_text :
      (payload : DiagnosticPayload) (encoding : Option Encoding) (value : Bytes)
      → PayloadUtf8 payload
      → encode_payload ext payload encoding ≡ ok value
      → IsUtf8 value
  unfolding encode_payload
  encoded_text (text t) none value u h = ground arith
  encoded_text (bytes b) none value u h = ground arith
  encoded_text (text t) (some gz_b64) value u h =
      ground (arith, inv.base64_text (ext.gz_compress t))
  encoded_text (bytes t) (some gz_b64) value u h =
      ground (arith, inv.base64_text (ext.gz_compress t))
  encoded_text (text t) (some zlib_b64) value u h =
      ground (arith, inv.base64_text (ext.zlib_compress t))
  encoded_text (bytes t) (some zlib_b64) value u h =
      ground (arith, inv.base64_text (ext.zlib_compress t))
  encoded_text p (some (other t)) value u h = cc

  -- What `encode_payload` makes of a payload, `decode_payload` turns back.
  decode-encode :
      (payload : DiagnosticPayload) (encoding : Option Encoding) (value : Bytes)
      → PayloadUtf8 payload
      → encode_payload ext payload encoding ≡ ok value
      → decode_payload ext value encoding ≡ ok (read_back payload encoding)
  unfolding encode_payload decode_payload
  decode-encode (text t) none value u h = ground arith
  decode-encode (bytes b) none value u h = ground arith
  decode-encode (text t) (some gz_b64) value u h =
      ground (arith, inv.base64 (ext.gz_compress t), inv.gz t)
  decode-encode (bytes t) (some gz_b64) value u h =
      ground (arith, inv.base64 (ext.gz_compress t), inv.gz t)
  decode-encode (text t) (some zlib_b64) value u h =
      ground (arith, inv.base64 (ext.zlib_compress t), inv.zlib t)
  decode-encode (bytes t) (some zlib_b64) value u h =
      ground (arith, inv.base64 (ext.zlib_compress t), inv.zlib t)
  decode-encode p (some (other t)) value u h = cc

  -- Where a payload, UTF-8 if it is text, is encoded and cut into records without an error, the
  -- chunks that the reader collects from these records, in their order, decode to the payload's
  -- bytes: as bytes if they were compressed, and as text if not.
  pub decode_chunks-frame_records :
      (payload : DiagnosticPayload) (encoding : Option Encoding) (base value : Bytes)
      (records : List Entry) (chunks : List Chunk)
      → PayloadUtf8 payload
      → encode_payload ext payload encoding ≡ ok value
      → frame_records base value ≡ ok records
      → Collected base records chunks
      → decode_chunks ext chunks encoding ≡ ok (read_back payload encoding)
  unfolding decode_chunks
  decode_chunks-frame_records payload encoding base value records chunks u enc framed collected =
      let (whole, numbered, few, nonempty) =
        frame_records-Framed base value records (encoded_text payload encoding value u enc)
          framed in
      let (indexed, same) =
        Collected-in_order base 0 records chunks (omega arith) numbered collected in
      rw (order_chunks-Indexed chunks indexed, same, whole)
        (decode-encode payload encoding value u enc)
