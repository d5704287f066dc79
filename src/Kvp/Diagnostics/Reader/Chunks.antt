-- ===== src/Kvp/Diagnostics/Reader/Chunks.antt =====
-- `order_chunks`: what it accepts, and the order that it gives.
use mathlib.Core.List.{Perm}
use mathlib.Core.List.Perm
use azure_init.Prelude.{
  ℕ, suc, ◌≡◌, refl, subst, true, false, List, [], ◌∷◌, arith, leb, Bool-cases, inl, inr,
}
use azure_init.Result.{ok}
use azure_init.Kvp.Diagnostics.Reader.{
  Chunk, insert_chunk, sort_chunks, has_repeat, in_place, order_chunks,
}

-- The indices are `i`, `i + 1` and so on.
abbrev pub Indexed : ℕ → List Chunk → Type 0
Indexed i [] = Unit
Indexed i (c ∷ cs) = (c.index ≡ i) × Indexed (suc i) cs

insert-perm : (c : Chunk) (cs : List Chunk) → Perm (insert_chunk c cs) (c ∷ cs)
unfolding insert_chunk
insert-perm c [] = Perm.refl (c ∷ [])
insert-perm c (d ∷ ds) = elim (Bool-cases (leb c.index d.index)) [
  | inl t ↦ rw t (Perm.refl (c ∷ d ∷ ds))
  | inr f ↦ rw f (Perm.trans (Perm.cons d (insert-perm c ds)) (Perm.swap c d ds))
]

sort-perm : (cs : List Chunk) → Perm (sort_chunks cs) cs
unfolding sort_chunks
sort-perm [] = Perm.refl []
sort-perm (c ∷ cs) = Perm.trans (insert-perm c (sort_chunks cs)) (Perm.cons c (sort-perm cs))

in_place-Indexed : (i : ℕ) (cs : List Chunk) → in_place i cs ≡ true → Indexed i cs
unfolding in_place
in_place-Indexed i [] h = tt
in_place-Indexed i (c ∷ cs) h = ground (arith, in_place-Indexed (suc i) cs)

-- Chunks that are accepted come back in the order of their indices, which are 0, 1 and so on, with
-- none added and none lost.
pub order_chunks_sound : (cs ds : List Chunk) → order_chunks cs ≡ ok ds → Perm ds cs × Indexed 0 ds
unfolding order_chunks
order_chunks_sound cs ds h =
    let same : (sort_chunks cs ≡ ds) × (in_place 0 (sort_chunks cs) ≡ true) = ground arith in
    (
      subst (λ es. Perm es cs) same.0 (sort-perm cs),
      subst (Indexed 0) same.0 (in_place-Indexed 0 (sort_chunks cs) same.1),
    )

Indexed-in_place : (i : ℕ) (cs : List Chunk) → Indexed i cs → in_place i cs ≡ true
unfolding in_place
Indexed-in_place i [] h = refl
Indexed-in_place i (c ∷ cs) h = ground (arith, Indexed-in_place (suc i) cs)

Indexed-no_repeat : (i : ℕ) (cs : List Chunk) → Indexed i cs → has_repeat cs ≡ false
unfolding has_repeat
Indexed-no_repeat i [] h = refl
Indexed-no_repeat i (c ∷ []) h = refl
Indexed-no_repeat i (c ∷ d ∷ ds) h = ground (arith, Indexed-no_repeat (suc i) (d ∷ ds))

Indexed-sort : (i : ℕ) (cs : List Chunk) → Indexed i cs → sort_chunks cs ≡ cs
unfolding sort_chunks
Indexed-sort i [] h = refl
Indexed-sort i (c ∷ []) h = refl
Indexed-sort i (c ∷ d ∷ ds) h = rw (Indexed-sort (suc i) (d ∷ ds) h.1) (ground arith)

-- Chunks that stand in order are accepted as they stand.
pub order_chunks-Indexed : (cs : List Chunk) → Indexed 0 cs → order_chunks cs ≡ ok cs
unfolding order_chunks
order_chunks-Indexed cs h =
    rw (Indexed-sort 0 cs h, Indexed-no_repeat 0 cs h, Indexed-in_place 0 cs h)
