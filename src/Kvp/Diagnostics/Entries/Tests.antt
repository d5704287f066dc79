-- ===== src/Kvp/Diagnostics/Entries/Tests.antt =====
-- The theorems about a dump's entries applied to three records, with stand-ins for the other crates.
use mathlib.Core.List.{Permᴰ}
use azure_init.Prelude.{ℕ, ◌≡◌, refl, true, none, some, List, [], ◌∷◌, Bytes, codes, All, bytes_eq}
use azure_init.Kvp.Report.{Csv}
use azure_init.Kvp.Diagnostics.External.{External}
use azure_init.Kvp.Diagnostics.Json.{SerdeJson}
use azure_init.Kvp.Diagnostics.Entries.{ChunkGroup, sorted_entries, decode_entries}
use azure_init.Kvp.Diagnostics.Entries.Sorted.{Ascending}
use azure_init.Kvp.Diagnostics.Entries.Visits.{decode_entries_any_visit}
use azure_init.Kvp.Diagnostics.Entries.Origins.{sorted_entries_origins}
use azure_init.Kvp.Diagnostics.Entries.Sources.{Origin}

abbrev ext : External
ext = record {
  Timestamp = ℕ;
  is_uuid = λ _. true;
  to_rfc3339 = λ _ _. [];
  parse_rfc3339 = λ _. some 0;
  base64_encode = λ b. b;
  base64_decode = some;
  gz_compress = λ b. b;
  gz_decompress = λ b. some (b, []);
  zlib_compress = λ b. b;
  zlib_decompress = λ b. some (b, []);
  parse_float_seconds = λ _. none;
}

abbrev json : SerdeJson
json = record {
  Value = Bytes;
  Number = ℕ;
  Float = ℕ;
  parse_value = some;
  parse_string = some;
  get = λ _ _. none;
  as_str = some;
  as_u64 = λ _. none;
  as_number = λ _. none;
  number_u64 = some;
  number_f64 = λ _. none;
  remove = λ _ v. some v;
  equal = bytes_eq;
  times_million = λ x. x;
  in_u64_range = λ x. true;
  round_u64 = λ x. 0;
}

abbrev csv : Csv
csv = record { write_record = λ _. []; first_record = λ _. none; is_rfc3339 = λ _. true }

-- Two groups of chunks, the first around a record of another program.
abbrev records : List (Bytes × Bytes)
records =
    (codes "DIAG|a|v|event|n|e|t|none|||0", codes "hel")
    ∷ (codes "other", codes "x")
    ∷ (codes "DIAG|a|v|event|m|e|t|none|||0", codes "now")
    ∷ (codes "DIAG|a|v|event|n|e|t|none|||1", codes "lo")
    ∷ []

abbrev swap_first : List (Bytes × ChunkGroup) → List (Bytes × ChunkGroup)
swap_first [] = []
swap_first (a ∷ []) = a ∷ []
swap_first (a ∷ b ∷ l) = b ∷ a ∷ l

swap_first-perm : (gs : List (Bytes × ChunkGroup)) → Permᴰ gs (swap_first gs)
swap_first-perm [] = Permᴰ.nil
swap_first-perm (a ∷ []) = Permᴰ.cons refl Permᴰ.nil
swap_first-perm (a ∷ b ∷ l) = Permᴰ.swap refl refl

same-perm : (gs : List (Bytes × ChunkGroup)) → Permᴰ gs gs
same-perm [] = Permᴰ.nil
same-perm (g ∷ gs) = Permᴰ.cons refl (same-perm gs)

decode_entries_any_visit_example :
    decode_entries ext json csv swap_first records ≡ decode_entries ext json csv (λ gs. gs) records
decode_entries_any_visit_example =
    decode_entries_any_visit ext json csv swap_first (λ gs. gs) records swap_first-perm same-perm

sorted_entries_origins_example :
    Ascending 0 (sorted_entries ext json csv swap_first records)
    × All (Origin ext json csv records) (sorted_entries ext json csv swap_first records)
sorted_entries_origins_example =
    sorted_entries_origins ext json csv records swap_first swap_first-perm
