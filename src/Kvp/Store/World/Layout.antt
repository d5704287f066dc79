-- ===== src/Kvp/Store/World/Layout.antt =====
-- What a write and a change of length do to a file's bytes, cut at the offset.
use azure_init.Prelude.{
  ℕ, ◌+◌, ◌-◌, ◌≡◌, [], ◌++◌, arith, Bytes, length, replicate, length-append, take-append,
  drop-append, take_all, drop_all, append-nil, append_assoc,
}
use azure_init.Kvp.Store.World.{write_at, resize}

replicate-zero : (n : ℕ) → n ≡ 0 → replicate {A = ℕ} n 0 ≡ []
unfolding replicate
replicate-zero n e = rw e

-- Bytes that are overwritten by as many.
pub write_at_over :
    (offset : ℕ) (before middle after bytes : Bytes)
    → length before ≡ offset
    → length middle ≡ length bytes
    → write_at offset bytes (before ++ (middle ++ after)) ≡ before ++ (bytes ++ after)
unfolding write_at
write_at_over offset before middle after bytes h k =
    let gap : offset - length (before ++ (middle ++ after)) ≡ 0 =
      omega (arith, length-append before (middle ++ after)) in
    rw (
      replicate-zero (offset - length (before ++ (middle ++ after))) gap,
      append-nil,
      take-append offset before (middle ++ after) h,
      ← append_assoc before middle after,
      drop-append (offset + length bytes) (before ++ middle) after
          (omega (arith, length-append before middle)),
    )

-- Bytes written at the end.
pub write_at_end :
    (offset : ℕ) (before bytes : Bytes)
    → length before ≡ offset
    → write_at offset bytes before ≡ before ++ bytes
unfolding write_at
write_at_end offset before bytes h = rw (
  replicate-zero (offset - length before) (omega arith),
  append-nil,
  take_all offset before (omega arith),
  drop_all (offset + length bytes) before (omega arith),
  append-nil,
)

-- A file cut behind its first part.
pub resize-append :
    (len : ℕ) (before after : Bytes) → length before ≡ len → resize len (before ++ after) ≡ before
unfolding resize
resize-append len before after h = rw (
  take-append len before after h,
  replicate-zero (len - length (before ++ after)) (omega (arith, length-append before after)),
  append-nil,
)
