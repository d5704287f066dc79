-- ===== src/Kvp/Diagnostics/Entries/Sorted.antt =====
-- Sorting entries by position: the positions ascend, and nothing is added or lost.
use azure_init.Prelude.{
  ℕ, suc, ◌+◌, ◌≤◌, ◌≡◌, refl, List, [], ◌∷◌, arith, leb, All, Bool-cases, inl, inr,
}
use azure_init.Kvp.Diagnostics.Entries.{insert_entry, insert_entries}
use azure_init.Kvp.Diagnostics.Entries.Places.{hits, count_entries}

-- The positions grow, and are `p` at least.
abbrev pub Ascending {ℓ} : {A : Type ℓ} → ℕ → List (ℕ × A) → Type 0
Ascending p [] = Unit
Ascending p (e ∷ es) = (p ≤ e.0) × Ascending (suc e.0) es

insert-Ascending {ℓ} :
    {A : Type ℓ} (e : ℕ × A) (p : ℕ) (l : List (ℕ × A))
    → p ≤ e.0
    → count_entries e.0 l ≡ 0
    → Ascending p l
    → Ascending p (insert_entry e l)
unfolding insert_entry count_entries
insert-Ascending e p [] h none_here a = (h, tt)
insert-Ascending e p (f ∷ l) h none_here (low, a) = elim (Bool-cases (leb e.0 f.0)) [
  | inl t ↦ rw t (h, (ground arith, a))
  | inr t ↦ rw t (low, insert-Ascending e (suc f.0) l (ground arith) (ground arith) a)
]

count-insert {ℓ} :
    {A : Type ℓ} (p : ℕ) (e : ℕ × A) (l : List (ℕ × A))
    → count_entries p (insert_entry e l) ≡ hits p e.0 + count_entries p l
unfolding insert_entry count_entries
count-insert p e [] = refl
count-insert p e (f ∷ l) = elim (Bool-cases (leb e.0 f.0)) [
  | inl t ↦ rw t
  | inr t ↦ rw t (omega (arith, count-insert p e l))
]

pub count-insert_entries {ℓ} :
    {A : Type ℓ} (p : ℕ) (es l : List (ℕ × A))
    → count_entries p (insert_entries es l) ≡ count_entries p es + count_entries p l
unfolding insert_entries count_entries
count-insert_entries p [] l = omega arith
count-insert_entries p (e ∷ es) l =
    omega (arith, count-insert p e (insert_entries es l), count-insert_entries p es l)

pub insert_entries-Ascending {ℓ} :
    {A : Type ℓ} (es l : List (ℕ × A))
    → ((p : ℕ) → count_entries p es + count_entries p l ≤ 1)
    → Ascending 0 l
    → Ascending 0 (insert_entries es l)
unfolding insert_entries
insert_entries-Ascending [] l few a = a
insert_entries-Ascending (e ∷ es) l few a =
    insert-Ascending e 0 (insert_entries es l) (omega arith)
      (unfold count_entries in ground (arith, few e.0, count-insert_entries e.0 es l))
      (insert_entries-Ascending es l (λ p. unfold count_entries in omega (arith, few p)) a)

module _ {ℓ κ} {A : Type ℓ} (P : ℕ × A → Type κ) where
  All-insert : (e : ℕ × A) (l : List (ℕ × A)) → P e → All P l → All P (insert_entry e l)
  unfolding insert_entry
  All-insert e [] pe h = (pe, h)
  All-insert e (f ∷ l) pe (pf, h) = elim (Bool-cases (leb e.0 f.0)) [
    | inl t ↦ rw t (pe, (pf, h))
    | inr t ↦ rw t (pf, All-insert e l pe h)
  ]

  pub All-insert_entries : (es l : List (ℕ × A)) → All P es → All P l → All P (insert_entries es l)
  unfolding insert_entries
  All-insert_entries [] l h k = k
  All-insert_entries (e ∷ es) l (pe, h) k =
      All-insert e (insert_entries es l) pe (All-insert_entries es l h k)
