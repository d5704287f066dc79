-- ===== src/Kvp/Diagnostics/Encode.antt =====
-- `encode_payload`, `decode_payload` and `decompress` (diagnostics/encoding.rs).
use azure_init.Prelude.{Option, none, some, [], ◌∷◌, ◌≡◌, if◌then◌else◌, Bytes, contains}
use azure_init.Result.{Result, ok, err, ok_or, ◌>>=◌}
use azure_init.Utf8.{is_utf8, IsUtf8}
use azure_init.Kvp.Error.{KvpError, payload_not_utf8, value_contains_null, unsupported_encoding}
use azure_init.Kvp.Diagnostics.Model.{
  Encoding, zlib_b64, gz_b64, other, DiagnosticPayload, text, bytes, DecodeError, undecodable,
}
use azure_init.Kvp.Diagnostics.External.{External}

-- The payload's bytes.
unfoldable pub raw_bytes : DiagnosticPayload → Bytes
raw_bytes (text t) = t
raw_bytes (bytes b) = b

-- The plain text of a payload: a `String` is UTF-8 already.
abbrev plain_text : DiagnosticPayload → Result KvpError Bytes
plain_text (text t) = ok t
plain_text (bytes b) = if is_utf8 b then ok b else err payload_not_utf8

-- `Err(Undecodable)` if the decompressor fails or leaves some of its input.
abbrev whole_stream : Option (Bytes × Bytes) → Result DecodeError DiagnosticPayload
whole_stream none = err undecodable
whole_stream (some (out, [])) = ok (bytes out)
whole_stream (some (out, b ∷ rest)) = err undecodable

-- What a payload is read back as: encoded payloads come back as bytes.
abbrev pub read_back : DiagnosticPayload → Option Encoding → DiagnosticPayload
read_back (text t) none = text t
read_back (bytes b) none = text b
read_back (text t) (some e) = bytes t
read_back (bytes b) (some e) = bytes b

-- A `String` payload is UTF-8.
abbrev pub PayloadUtf8 : DiagnosticPayload → Type 0
PayloadUtf8 (text t) = IsUtf8 t
PayloadUtf8 (bytes b) = Unit

module _ (ext : External) where
  open ext use {
    base64_encode, base64_decode, gz_compress, gz_decompress, zlib_compress, zlib_decompress,
  }

  unfoldable pub encode_payload : DiagnosticPayload → Option Encoding → Result KvpError Bytes
  unfolding raw_bytes
  encode_payload payload none = do
    t ← plain_text payload
    if contains 0 t then err value_contains_null else ok t
  encode_payload payload (some gz_b64) = ok (base64_encode (gz_compress (raw_bytes payload)))
  encode_payload payload (some zlib_b64) = ok (base64_encode (zlib_compress (raw_bytes payload)))
  encode_payload payload (some (other token)) = err (unsupported_encoding token)

  unfoldable pub decompress : Bytes → Encoding → Result DecodeError DiagnosticPayload
  decompress compressed gz_b64 = whole_stream (gz_decompress compressed)
  decompress compressed zlib_b64 = whole_stream (zlib_decompress compressed)
  decompress compressed (other token) = err undecodable

  abbrev decode_compressed : Bytes → Encoding → Result DecodeError DiagnosticPayload
  decode_compressed value encoding = do
    compressed ← ok_or (base64_decode value) undecodable
    decompress compressed encoding

  unfoldable pub decode_payload : Bytes → Option Encoding → Result DecodeError DiagnosticPayload
  unfolding decompress
  decode_payload value none = if is_utf8 value then ok (text value) else err undecodable
  decode_payload value (some gz_b64) = decode_compressed value gz_b64
  decode_payload value (some zlib_b64) = decode_compressed value zlib_b64
  decode_payload value (some (other token)) = err undecodable

  -- The crates undo themselves: decoding base64, and decompressing a whole stream.
  pub record Inverts : Type 0 where
    pub base64 : (b : Bytes) → base64_decode (base64_encode b) ≡ some b
    pub base64_text : (b : Bytes) → IsUtf8 (base64_encode b)
    pub gz : (b : Bytes) → gz_decompress (gz_compress b) ≡ some (b, [])
    pub zlib : (b : Bytes) → zlib_decompress (zlib_compress b) ≡ some (b, [])
