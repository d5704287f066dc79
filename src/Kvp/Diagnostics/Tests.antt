-- ===== src/Kvp/Diagnostics/Tests.antt =====
-- The theorems about the diagnostics applied to a short payload, with simple stand-ins for the
-- other crates: bytes in unary digits for base64, and no compression.
use mathlib.Core.Option
use azure_init.Prelude.{
  ℕ, zero, suc, ◌+◌, ◌≤◌, ◌<◌, ◌≡◌, refl, ap, ◌∙◌, true, Option, none, some, List, [], ◌∷◌, arith,
  ◌==◌, if◌then◌else◌, Bytes, codes, contains, take, drop, length,
}
use mathlib.Core.List.{Perm}
use azure_init.Result.{ok}
use azure_init.Text.{to_decimal, rsplit_once, all_digits, value_from}
use azure_init.Utf8.{is_char_boundary, is_utf8, IsUtf8, ascii-IsUtf8}
use azure_init.Kvp.Store.Record.{Entry}
use azure_init.Kvp.Diagnostics.Model.{text, parse_unsigned}
use azure_init.Kvp.Diagnostics.External.{External}
use azure_init.Kvp.Diagnostics.Encode.{Inverts, encode_payload}
use azure_init.Kvp.Diagnostics.Writer.{back_off, frame_records, chunk_key, max_chunks}
use azure_init.Kvp.Diagnostics.Frames.{payload_of, Numbered, frame_records-Framed}
use azure_init.Kvp.Diagnostics.Reader.{Chunk, order_chunks, decode_chunks, split_chunk_key}
use azure_init.Kvp.Diagnostics.Reader.Chunks.{Indexed, order_chunks_sound}
use azure_init.Kvp.Diagnostics.Reader.RoundTrip.{
  Collected, decode_chunks-frame_records, split_chunk_key-chunk_key,
}

abbrev unary : ℕ → Bytes → Bytes
unary zero rest = b'0' ∷ rest
unary (suc n) rest = b'1' ∷ unary n rest

abbrev digits : Bytes → Bytes
digits [] = []
digits (b ∷ bs) = unary b (digits bs)

-- The digit 0 ends a byte's count.
count : ℕ → Bytes → Option Bytes
count n [] = if n == 0 then some [] else none
count n (d ∷ ds) = if d == b'1' then count (suc n) ds else Option.map (λ bs. n ∷ bs) (count 0 ds)

count-unary :
    (k n : ℕ) (rest : Bytes)
    → count k (unary n rest) ≡ Option.map (λ bs. (n + k) ∷ bs) (count 0 rest)
unfolding count
count-unary k zero rest = ap (λ m. Option.map (λ bs. m ∷ bs) (count 0 rest)) (omega arith)
count-unary k (suc n) rest =
    count-unary (suc k) n rest ∙ ap (λ m. Option.map (λ bs. m ∷ bs) (count 0 rest)) (omega arith)

count-digits : (bs : Bytes) → count 0 (digits bs) ≡ some bs
unfolding count
count-digits [] = refl
count-digits (b ∷ bs) =
    count-unary 0 b (digits bs)
    ∙ ap (Option.map (λ bs. (b + 0) ∷ bs)) (count-digits bs)
    ∙ ap (λ m. some (m ∷ bs)) (omega arith)

unary-IsUtf8 : (n : ℕ) (rest : Bytes) → IsUtf8 rest → IsUtf8 (unary n rest)
unary-IsUtf8 zero rest h = ascii-IsUtf8 b'0' rest (omega arith) h
unary-IsUtf8 (suc n) rest h = ascii-IsUtf8 b'1' (unary n rest) (omega arith) (unary-IsUtf8 n rest h)

digits-IsUtf8 : (bs : Bytes) → IsUtf8 (digits bs)
digits-IsUtf8 [] = unfold is_utf8 in refl
digits-IsUtf8 (b ∷ bs) = unary-IsUtf8 b (digits bs) (digits-IsUtf8 bs)

abbrev stand_in : External
stand_in = record {
  Timestamp = ℕ;
  is_uuid = λ _. true;
  to_rfc3339 = λ _ _. codes "2026-08-31T12:34:56Z";
  parse_rfc3339 = λ _. some 0;
  base64_encode = digits;
  base64_decode = count 0;
  gz_compress = λ bs. bs;
  gz_decompress = λ bs. some (bs, []);
  zlib_compress = λ bs. bs;
  zlib_decompress = λ bs. some (bs, []);
  parse_float_seconds = λ _. none;
}

stand_in-Inverts : Inverts stand_in
stand_in-Inverts = record {
  base64 = count-digits;
  base64_text = digits-IsUtf8;
  gz = λ b. refl;
  zlib = λ b. refl;
}

abbrev base : Bytes
base = codes "DIAG|agent|0"

abbrev framed : List Entry
framed = (codes "DIAG|agent|0|0", codes "hello") ∷ []

hello_framed : frame_records base (codes "hello") ≡ ok framed
unfolding frame_records to_decimal drop take back_off is_char_boundary
hello_framed = refl

hello-IsUtf8 : IsUtf8 (codes "hello")
unfolding is_utf8
hello-IsUtf8 = refl

frame_records-Framed_example :
    (payload_of framed ≡ codes "hello")
    × Numbered base 0 framed
    × (length framed ≤ max_chunks)
    × (0 < length framed)
frame_records-Framed_example =
    frame_records-Framed base (codes "hello") framed hello-IsUtf8 hello_framed

abbrev chunk : ℕ → Bytes → Chunk
chunk i value = record {
  position = 0;
  index = i;
  raw = record { key = chunk_key base i; value = value; error = none };
}

abbrev swapped : List Chunk
swapped = chunk 1 (codes "lo") ∷ chunk 0 (codes "hel") ∷ []

abbrev ordered : List Chunk
ordered = chunk 0 (codes "hel") ∷ chunk 1 (codes "lo") ∷ []

swapped-ordered : order_chunks swapped ≡ ok ordered
unfolding order_chunks
swapped-ordered = refl

order_chunks_sound_example : Perm ordered swapped × Indexed 0 ordered
order_chunks_sound_example = order_chunks_sound swapped ordered swapped-ordered

split_chunk_key-chunk_key_example : split_chunk_key (chunk_key base 12) ≡ ok (base, 12)
split_chunk_key-chunk_key_example = split_chunk_key-chunk_key base 12 (omega arith)

hello-Collected : Collected base framed (chunk 0 (codes "hello") ∷ [])
unfolding split_chunk_key rsplit_once parse_unsigned all_digits value_from
hello-Collected = (refl, refl, tt)

hello_encoded : encode_payload stand_in (text (codes "hello")) none ≡ ok (codes "hello")
unfolding encode_payload is_utf8 contains
hello_encoded = refl

decode_chunks-frame_records_example :
    decode_chunks stand_in (chunk 0 (codes "hello") ∷ []) none ≡ ok (text (codes "hello"))
decode_chunks-frame_records_example =
    decode_chunks-frame_records stand_in stand_in-Inverts (text (codes "hello")) none base
      (codes "hello") framed (chunk 0 (codes "hello") ∷ []) hello-IsUtf8 hello_encoded hello_framed
      hello-Collected
