-- ===== src/Kvp/Diagnostics/CloudInit/Keys.antt =====
-- The keys of cloud-init's events and of their chunks.
use azure_init.Prelude.{ℕ, ◌≤◌, ◌≡◌, true, false, none, some, List, [], ◌∷◌, ◌++◌, arith, Bytes}
use azure_init.Result.{ok}
use azure_init.Text.{bar, split, to_decimal, u64_max}
use azure_init.Text.Decimal.{all_digits-to_decimal, all_digits-Lacks, rsplit_once-append}
use azure_init.Text.Split.{split-append}
use azure_init.Kvp.Diagnostics.External.{External}
use azure_init.Kvp.Diagnostics.Writer.{chunk_key}
use azure_init.Kvp.Diagnostics.Reader.RoundTrip.{parse_unsigned-to_decimal}
use azure_init.Kvp.Diagnostics.CloudInit.{
  CloudInitKey, key_of_fields, parse_key, indexed, split_key,
}

module _ (ext : External) where
  open ext use {is_uuid}

  -- The fields of a key that is accepted have no index, and have one with a further field.
  indexed-fields :
      (base : Bytes) (fields : List Bytes) (last : Bytes) (key : CloudInitKey)
      → key_of_fields ext base fields ≡ ok key
      → is_uuid last ≡ false
      → (indexed ext fields ≡ ok false) × (indexed ext (fields ++ last ∷ []) ≡ ok true)
  unfolding key_of_fields indexed
  indexed-fields base (a ∷ b ∷ c ∷ d ∷ e ∷ []) last key h u = ground arith
  indexed-fields base (a ∷ b ∷ c ∷ d ∷ e ∷ f ∷ []) last key h u = ground arith
  indexed-fields base _ last key h u = cc

  -- Of a key that is accepted the reader finds that it has no index; of the key of the event's
  -- chunk `n` it finds the base and the index, where no number is taken for a UUID.
  pub split_key-chunk_key :
      (base : Bytes) (key : CloudInitKey) (n : ℕ)
      → parse_key ext base ≡ ok key
      → n ≤ u64_max
      → is_uuid (to_decimal n) ≡ false
      → (split_key ext base ≡ ok (base, none))
        × (split_key ext (chunk_key base n) ≡ ok (base, some n))
  unfolding split_key
  split_key-chunk_key base key n h fits u =
      let number = all_digits-Lacks (to_decimal n) (all_digits-to_decimal n) in
      let (single, chunk) =
        indexed-fields base (split bar base) (to_decimal n) key (unfold parse_key in h) u in
      (
        rw (single, h),
        rw (
          split-append base (to_decimal n) number,
          chunk,
          rsplit_once-append base (to_decimal n) number,
          parse_unsigned-to_decimal n fits,
          h,
        ),
      )
