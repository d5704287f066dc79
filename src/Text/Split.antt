-- ===== src/Text/Split.antt =====
-- Splitting a text whose last field is known.
use azure_init.Prelude.{
  ℕ, ◌≡◌, ◌≢◌, refl, List, [], ◌∷◌, ◌++◌, arith, ◌==◌, Bytes, Lacks, Bool-cases, inl, inr,
}
use azure_init.Text.{bar, split, prepend}

split-Lacks : (t : Bytes) → Lacks bar t → split bar t ≡ t ∷ []
unfolding split
split-Lacks [] h = refl
split-Lacks (b ∷ t) h = ground (arith, split-Lacks t h.1)

prepend-ne-nil : (b : ℕ) (fs : List Bytes) → prepend b fs ≢ []
prepend-ne-nil b [] h = cc
prepend-ne-nil b (f ∷ fs) h = cc

prepend-append :
    (b : ℕ) (fs : List Bytes) (last : Bytes)
    → fs ≢ []
    → prepend b (fs ++ last ∷ []) ≡ prepend b fs ++ last ∷ []
prepend-append b [] last h = absurd (h refl)
prepend-append b (f ∷ fs) last h = refl

split-ne-nil : (t : Bytes) → split bar t ≢ []
unfolding split
split-ne-nil [] h = cc
split-ne-nil (b ∷ t) h = elim (Bool-cases (b == bar)) [
  | inl e ↦ let g = rw e at h in cc
  | inr e ↦ let g = rw e at h in prepend-ne-nil b (split bar t) g
]

-- Behind a separator, a text that has none is the last field, whatever stands before.
pub split-append :
    (base last : Bytes)
    → Lacks bar last
    → split bar (base ++ bar ∷ last) ≡ split bar base ++ last ∷ []
unfolding split
split-append [] last h = ground (arith, split-Lacks last h)
split-append (b ∷ base) last h = elim (Bool-cases (b == bar)) [
  | inl e ↦ rw (e, split-append base last h)
  | inr e ↦
      rw (e, split-append base last h) (prepend-append b (split bar base) last (split-ne-nil base))
]
