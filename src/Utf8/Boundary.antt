-- ===== src/Utf8/Boundary.antt =====
-- Cutting valid text at a character boundary.
use azure_init.Prelude.{
  ℕ, zero, suc, ◌≡◌, refl, true, false, Option, none, some, [], ◌∷◌, ◌++◌, arith, ap, ◌∙◌, subst,
  take-append-drop, take, drop, Bytes, Option-cases, inl, inr,
}
use azure_init.Utf8.{
  State, start, step, scan, is_start, is_utf8, IsUtf8, is_continuation, is_char_boundary,
}

-- A byte that does not continue a character is refused inside one.
step_fresh :
    (s : State) (b : ℕ) (t : State) → is_continuation b ≡ false → step s b ≡ some t → s ≡ start
unfolding step is_continuation
step_fresh start b t h e = refl
step_fresh s b t h e = absurd (ground arith)

scan-append :
    (s : State) (xs ys : Bytes) (t : State) → scan s xs ≡ some t → scan s (xs ++ ys) ≡ scan t ys
unfolding scan
scan-append s [] ys t e = ground arith
scan-append s (x ∷ xs) ys t e = elim (Option-cases (step s x)) [
  | inl n ↦ absurd (ground (arith, n))
  | inr (u, n) ↦ ground (arith, n, scan-append u xs ys t)
]

-- The state that a scan passes through.
scan_through :
    (s : State) (xs ys : Bytes) (t : State)
    → scan s (xs ++ ys) ≡ some t
    → (u : State) × (scan s xs ≡ some u) × (scan u ys ≡ some t)
unfolding scan
scan_through s [] ys t e = (s, refl, e)
scan_through s (x ∷ xs) ys t e = elim (Option-cases (step s x)) [
  | inl n ↦ absurd (ground (arith, n))
  | inr (v, n) ↦
      let (u, a, b) = scan_through v xs ys t (ground (arith, n)) in (u, ground (arith, n), b)
]

-- Behind a boundary inside the text stands a byte that begins a character.
abbrev FreshAt : Bytes → Type 0
FreshAt [] = Unit
FreshAt (b ∷ bs) = is_continuation b ≡ false

fresh_at : (bs : Bytes) (i : ℕ) → is_char_boundary bs (suc i) ≡ true → FreshAt (drop (suc i) bs)
unfolding is_char_boundary drop
fresh_at [] i h = tt
fresh_at (b ∷ []) zero h = tt
fresh_at (b ∷ c ∷ bs) zero h = ground arith
fresh_at (b ∷ []) (suc i) h = fresh_at [] i (absurd (ground arith))
fresh_at (b ∷ c ∷ bs) (suc i) h = fresh_at (c ∷ bs) i h

-- A scan of whole characters ends between characters.
whole_then_fresh : (u : State) (ys : Bytes) → FreshAt ys → scan u ys ≡ some start → u ≡ start
unfolding scan
whole_then_fresh u [] f h = ground arith
whole_then_fresh u (b ∷ bs) f h = elim (Option-cases (step u b)) [
  | inl n ↦ absurd (ground (arith, n))
  | inr (v, n) ↦ step_fresh u b v f n
]

is_utf8-scan : (bs : Bytes) → is_utf8 bs ≡ true → scan start bs ≡ some start
unfolding is_utf8
is_utf8-scan bs h = scanned (scan start bs) h
  where
    scanned : (o : Option State) → is_start o ≡ true → o ≡ some start
    scanned none e = cc
    scanned (some start) e = refl
    scanned (some s) e = cc

scan-is_utf8 : (bs : Bytes) → scan start bs ≡ some start → is_utf8 bs ≡ true
unfolding is_utf8
scan-is_utf8 bs h = ap is_start h

-- Cut at a character boundary, valid text gives two valid texts.
pub cut-IsUtf8 :
    (bs : Bytes) (i : ℕ)
    → is_char_boundary bs i ≡ true
    → IsUtf8 bs
    → IsUtf8 (take i bs) × IsUtf8 (drop i bs)
cut-IsUtf8 bs zero h v = ((unfold take is_utf8 in refl), (unfold drop in v))
cut-IsUtf8 bs (suc i) h v =
    let whole : scan start (take (suc i) bs ++ drop (suc i) bs) ≡ some start =
      rw (take-append-drop (suc i) bs) (is_utf8-scan bs v) in
    let (u, left, right) = scan_through start (take (suc i) bs) (drop (suc i) bs) start whole in
    let fresh : u ≡ start = whole_then_fresh u (drop (suc i) bs) (fresh_at bs i h) right in
    (
      scan-is_utf8 (take (suc i) bs) (left ∙ ap some fresh),
      scan-is_utf8 (drop (suc i) bs)
          (subst (λ s. scan s (drop (suc i) bs) ≡ some start) fresh right),
    )
