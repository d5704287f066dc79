-- ===== src/Utf8.antt =====
-- UTF-8 as the standard library checks it (`str::from_utf8`) and cuts it (`is_char_boundary`).
pub mod Boundary
use azure_init.Prelude.{
  ℕ, zero, suc, ◌+◌, ◌<◌, ◌≡◌, refl, sym, subst, Bool, true, false, ◌&&◌, ◌||◌, not, Option, none,
  some, List, [], ◌∷◌, ◌++◌, arith, ltb, leb, ◌==◌, if◌then◌else◌, Bytes, codes,
}

-- Where a decoder stands: between characters, or before a byte of one. `tail n` awaits a byte
-- 80..BF and `n` more behind it; the other states await the restricted second bytes.
pub data State : Type 0 where
  start : State
  tail : ℕ → State
  after_e0 after_ed after_f0 after_f4 : State

abbrev pub between : ℕ → ℕ → ℕ → Bool
between lo hi b = leb lo b && leb b hi

abbrev behind : ℕ → State
behind zero = start
behind (suc n) = tail n

-- The first byte of a character.
lead : ℕ → Option State
lead b =
    if ltb b 0x80
    then some start
    else if between 0xC2 0xDF b
    then some (tail 0)
    else if b == 0xE0
    then some after_e0
    else if b == 0xED
    then some after_ed
    else if between 0xE1 0xEF b
    then some (tail 1)
    else if b == 0xF0
    then some after_f0
    else if b == 0xF4
    then some after_f4
    else if between 0xF1 0xF3 b
    then some (tail 2)
    else none

abbrev accept : Bool → State → Option State
accept true s = some s
accept false s = none

step : State → ℕ → Option State
unfolding lead
step start b = lead b
step (tail n) b = accept (between 0x80 0xBF b) (behind n)
step after_e0 b = accept (between 0xA0 0xBF b) (tail 0)
step after_ed b = accept (between 0x80 0x9F b) (tail 0)
step after_f0 b = accept (between 0x90 0xBF b) (tail 1)
step after_f4 b = accept (between 0x80 0x8F b) (tail 1)

scan : State → Bytes → Option State
scan s [] = some s
scan s (b ∷ bs) = elim (step s b) [ none ↦ none | some s' ↦ scan s' bs ]

abbrev is_start : Option State → Bool
is_start (some start) = true
is_start _ = false

-- `from_utf8` accepts the bytes.
unfoldable pub is_utf8 : Bytes → Bool
unfolding scan step
is_utf8 bs = is_start (scan start bs)

abbrev pub IsUtf8 : Bytes → Type 0
IsUtf8 bs = is_utf8 bs ≡ true

ascii-lead : (b : ℕ) → b < 0x80 → lead b ≡ some start
unfolding lead
ascii-lead b small = ground arith

-- An ASCII byte before valid text.
pub ascii-IsUtf8 : (b : ℕ) (bs : Bytes) → b < 0x80 → IsUtf8 bs → IsUtf8 (b ∷ bs)
unfolding is_utf8 scan step
ascii-IsUtf8 b bs small h =
    subst (λ o. is_start (elim o [ none ↦ none | some s ↦ scan s bs ]) ≡ true)
      (sym (ascii-lead b small)) h

-- A byte 80..BF, which continues a character.
unfoldable pub is_continuation : ℕ → Bool
is_continuation b = between 0x80 0xBF b

-- `is_char_boundary(i)`.
unfoldable pub is_char_boundary : Bytes → ℕ → Bool
unfolding is_continuation
is_char_boundary bs zero = true
is_char_boundary [] (suc i) = false
is_char_boundary (b ∷ []) (suc zero) = true
is_char_boundary (b ∷ c ∷ bs) (suc zero) = not (is_continuation c)
is_char_boundary (b ∷ bs) (suc (suc i)) = is_char_boundary bs (suc i)

accepts : is_utf8 (0xE2 ∷ 0x82 ∷ 0xAC ∷ 0x41 ∷ []) ≡ true
unfolding is_utf8
accepts = refl

rejects : (is_utf8 (0xC0 ∷ 0xAF ∷ []) ≡ false) × (is_utf8 (0xED ∷ 0xA0 ∷ 0x80 ∷ []) ≡ false)
unfolding is_utf8
rejects = (refl, refl)

cuts : is_char_boundary (0xE2 ∷ 0x82 ∷ 0xAC ∷ 0x41 ∷ []) 3 ≡ true
unfolding is_char_boundary
cuts = refl
