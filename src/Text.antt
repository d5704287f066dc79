-- ===== src/Text.antt =====
-- What the program uses of `str` and of number formatting: splitting, prefixes, decimal numbers.
pub mod Decimal
pub mod Split
use azure_init.Prelude.{
  ℕ, zero, suc, ◌+◌, ◌-◌, ◌*◌, ◌/◌, ◌%◌, ◌^◌, ◌≡◌, refl, Bool, true, false, ◌&&◌, not, Option, none,
  some, List, [], ◌∷◌, ◌++◌, ltb, leb, ◌==◌, if◌then◌else◌, Bytes, codes, length, replicate,
}

-- `|`, between the fields of a key.
abbrev pub bar : ℕ
bar = b'|'

abbrev pub prepend : ℕ → List Bytes → List Bytes
prepend b [] = (b ∷ []) ∷ []
prepend b (f ∷ fs) = (b ∷ f) ∷ fs

-- `s.split(sep)`: one field at least.
unfoldable pub split : ℕ → Bytes → List Bytes
split sep [] = [] ∷ []
split sep (b ∷ bs) = let rest = split sep bs in if b == sep then [] ∷ rest else prepend b rest

abbrev join_head : ℕ → Option (Bytes × Bytes) → Option (Bytes × Bytes)
join_head b none = none
join_head b (some (l, r)) = some (b ∷ l, r)

-- `s.split_once(sep)`: cut at the first separator.
unfoldable pub split_once : ℕ → Bytes → Option (Bytes × Bytes)
split_once sep [] = none
split_once sep (b ∷ bs) =
    let rest = split_once sep bs in if b == sep then some ([], bs) else join_head b rest

-- `s.rsplit_once(sep)`: cut at the last separator.
unfoldable pub rsplit_once : ℕ → Bytes → Option (Bytes × Bytes)
rsplit_once sep [] = none
rsplit_once sep (b ∷ bs) = elim (rsplit_once sep bs) [
  | none ↦ if b == sep then some ([], bs) else none
  | some p ↦ some (b ∷ p.0, p.1)
]

unfoldable pub starts_with : Bytes → Bytes → Bool
starts_with [] bs = true
starts_with (p ∷ ps) [] = false
starts_with (p ∷ ps) (b ∷ bs) = (p == b) && starts_with ps bs

abbrev pub is_empty : Bytes → Bool
is_empty [] = true
is_empty (b ∷ bs) = false

unfoldable pub is_digit : ℕ → Bool
is_digit b = leb b'0' b && leb b b'9'

-- `bytes().all(|b| b.is_ascii_digit())`
unfoldable pub all_digits : Bytes → Bool
unfolding is_digit
all_digits [] = true
all_digits (b ∷ bs) = is_digit b && all_digits bs

-- The number that digits spell behind `n`.
unfoldable pub value_from : ℕ → Bytes → ℕ
value_from n [] = n
value_from n (b ∷ bs) = value_from (n * 10 + (b - b'0')) bs

-- The decimal digits of `n` before `out`, on fuel; `n < fuel` is enough.
unfoldable pub digits : ℕ → ℕ → Bytes → Bytes
digits zero n out = out
digits (suc fuel) n out =
    let rest = digits fuel (n / 10) ((b'0' + n % 10) ∷ out) in
    if n / 10 == 0 then (b'0' + n % 10) ∷ out else rest

-- `n.to_string()`
unfoldable pub to_decimal : ℕ → Bytes
unfolding digits
to_decimal n = digits (suc n) n []

-- `format!("{n:0width$}")`
unfoldable pub to_decimal_padded : ℕ → ℕ → Bytes
to_decimal_padded width n = replicate (width - length (to_decimal n)) b'0' ++ to_decimal n

abbrev pub u64_max : ℕ
u64_max = 2 ^ 64 - 1

prints : to_decimal 1023 ≡ codes "1023"
unfolding to_decimal
prints = refl

splits : split bar (codes "a||b") ≡ codes "a" ∷ [] ∷ codes "b" ∷ []
unfolding split
splits = refl

splits_last : rsplit_once bar (codes "a|b|7") ≡ some (codes "a|b", codes "7")
unfolding rsplit_once
splits_last = refl
