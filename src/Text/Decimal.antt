-- ===== src/Text/Decimal.antt =====
-- Reading decimal digits, and a number behind the last separator.
use azure_init.Prelude.{
  ℕ, zero, suc, ◌+◌, ◌/◌, ◌%◌, ◌≡◌, ◌≢◌, ◌<◌, refl, ◌∙◌, ap, true, none, some, [], ◌∷◌, ◌++◌, arith,
  ◌==◌, Bytes, Lacks, Bool-cases, inl, inr,
}
use azure_init.Text.{bar, rsplit_once, all_digits, value_from, digits, to_decimal}

value-digits :
    (fuel n : ℕ) (out : Bytes) → n < fuel → value_from 0 (digits fuel n out) ≡ value_from n out
unfolding digits
value-digits zero n out h = absurd (omega arith)
value-digits (suc fuel) n out h = elim (Bool-cases (n / 10 == 0)) [
  | inl t ↦ rw t (unfold value_from in ap (λ m. value_from m out) (ground arith))
  | inr f ↦ rw f (
      value-digits fuel (n / 10) ((b'0' + n % 10) ∷ out) (ground arith)
      ∙ (unfold value_from in ap (λ m. value_from m out) (omega arith)))
]

pub value-to_decimal : (n : ℕ) → value_from 0 (to_decimal n) ≡ n
unfolding to_decimal
value-to_decimal n = value-digits (suc n) n [] (omega arith) ∙ (unfold value_from in refl)

all_digits-digits :
    (fuel n : ℕ) (out : Bytes) → all_digits out ≡ true → all_digits (digits fuel n out) ≡ true
unfolding digits
all_digits-digits zero n out h = h
all_digits-digits (suc fuel) n out h =
    ground (arith, digit n out h, all_digits-digits fuel (n / 10) ((b'0' + n % 10) ∷ out))
  where
    digit : (m : ℕ) (o : Bytes) → all_digits o ≡ true → all_digits ((b'0' + m % 10) ∷ o) ≡ true
    digit m o k = unfold all_digits in ground arith

pub all_digits-to_decimal : (n : ℕ) → all_digits (to_decimal n) ≡ true
unfolding to_decimal
all_digits-to_decimal n = all_digits-digits (suc n) n [] (unfold all_digits in refl)

digits-ne-nil : (fuel n : ℕ) (out : Bytes) → out ≢ [] → digits fuel n out ≢ []
unfolding digits
digits-ne-nil zero n out h = h
digits-ne-nil (suc fuel) n out h =
    ground (arith, digits-ne-nil fuel (n / 10) ((b'0' + n % 10) ∷ out))

pub to_decimal-ne-nil : (n : ℕ) → to_decimal n ≢ []
unfolding to_decimal digits
to_decimal-ne-nil n = ground (arith, digits-ne-nil n (n / 10) ((b'0' + n % 10) ∷ []))

pub all_digits-Lacks : (bs : Bytes) → all_digits bs ≡ true → Lacks bar bs
unfolding all_digits
all_digits-Lacks [] h = tt
all_digits-Lacks (b ∷ bs) h = ground (arith, all_digits-Lacks bs)

rsplit_once-Lacks : (sep : ℕ) (bs : Bytes) → Lacks sep bs → rsplit_once sep bs ≡ none
unfolding rsplit_once
rsplit_once-Lacks sep [] h = refl
rsplit_once-Lacks sep (b ∷ bs) h = ground (arith, rsplit_once-Lacks sep bs)

-- A text behind the last separator is cut off, whatever stands before.
pub rsplit_once_last :
    (sep : ℕ) (base last : Bytes)
    → Lacks sep last
    → rsplit_once sep (base ++ sep ∷ last) ≡ some (base, last)
unfolding rsplit_once
rsplit_once_last sep [] last h = ground (arith, rsplit_once-Lacks sep last h)
rsplit_once_last sep (b ∷ base) last h = ground (arith, rsplit_once_last sep base last h)

pub rsplit_once-append :
    (base last : Bytes) → Lacks bar last → rsplit_once bar (base ++ bar ∷ last) ≡ some (base, last)
rsplit_once-append base last h = rsplit_once_last bar base last h
