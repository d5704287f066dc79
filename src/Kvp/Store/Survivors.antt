-- ===== src/Kvp/Store/Survivors.antt =====
-- The abstract effect of removing keys: which entries survive, in whatever order.
use mathlib.Core.List.{Perm, perm_append_comm, filter_map}
use mathlib.Core.List.Perm
use mathlib.Core.Path.{subst₂}
use native.Mathlib.Nat.{add_comm}
use azure_init.Prelude.{
  subst, Bool-cases, inl, inr, bytes_eq_sound, ℕ, suc, ◌+◌, ◌≡◌, ◌≢◌, refl, sym, ap, ◌∙◌, Bool,
  true, false, none, some, List, [], ◌∷◌, ◌++◌, arith, bytes_eq, if◌then◌else◌, Bytes,
}
use azure_init.Kvp.Store.Record.{Entry}
use azure_init.Kvp.Store.Iter.Moved.{last_of, init_of, moved, init_last}

module _ (hit : Bytes → Bool) where
  -- The entries whose keys are not hit.
  abbrev pub survivors : List Entry → List Entry
  survivors [] = []
  survivors (e ∷ es) = if hit e.0 then survivors es else e ∷ survivors es

  -- How many entries are hit.
  abbrev pub hits : List Entry → ℕ
  hits [] = 0
  hits (e ∷ es) = if hit e.0 then suc (hits es) else hits es

  survivors-append : (xs ys : List Entry) → survivors (xs ++ ys) ≡ survivors xs ++ survivors ys
  survivors-append [] ys = refl
  survivors-append (x ∷ xs) ys = ground (arith, survivors-append xs ys)

  hits-append : (xs ys : List Entry) → hits (xs ++ ys) ≡ hits xs + hits ys
  hits-append [] ys = omega arith
  hits-append (x ∷ xs) ys = ground (arith, hits-append xs ys)

  pub hits-moved : (xs : List Entry) → hits (moved xs) ≡ hits xs
  hits-moved [] = refl
  hits-moved (x ∷ xs) =
      hits-append (last_of x xs ∷ []) (init_of x xs)
      ∙ add_comm (hits (last_of x xs ∷ [])) (hits (init_of x xs))
      ∙ sym (hits-append (init_of x xs) (last_of x xs ∷ []))
      ∙ ap hits (sym (init_last x xs))

  pub survivors-moved : (xs : List Entry) → Perm (survivors (moved xs)) (survivors xs)
  survivors-moved [] = Perm.refl []
  survivors-moved (x ∷ xs) =
      let l : List Entry = last_of x xs ∷ [] in
      let i : List Entry = init_of x xs in
      subst (λ t. Perm (survivors (moved (x ∷ xs))) (survivors t)) (sym (init_last x xs))
        (subst₂ Perm (sym (survivors-append l i)) (sym (survivors-append i l))
          (perm_append_comm (survivors l) (survivors i)))

-- The values of a key's entries, in order.
pub values_of : Bytes → List Entry → List Bytes
values_of key = filter_map (λ e. if bytes_eq e.0 key then some e.1 else none)

module _ (key : Bytes) where
  values_of-miss :
      (e : Entry) (es : List Entry)
      → bytes_eq e.0 key ≡ false
      → values_of key (e ∷ es) ≡ values_of key es
  unfolding values_of filter_map
  values_of-miss e es h = rw h

  values_of-hit :
      (e : Entry) (es : List Entry)
      → bytes_eq e.0 key ≡ true
      → values_of key (e ∷ es) ≡ e.1 ∷ values_of key es
  unfolding values_of filter_map
  values_of-hit e es h = rw h

  values_of_cons :
      (e : Entry) (xs ys : List Entry)
      → values_of key xs ≡ values_of key ys
      → values_of key (e ∷ xs) ≡ values_of key (e ∷ ys)
  values_of_cons e xs ys h = elim (Bool-cases (bytes_eq e.0 key)) [
    | inl t ↦ rw (values_of-hit e xs t, values_of-hit e ys t, h)
    | inr f ↦ rw (values_of-miss e xs f, values_of-miss e ys f, h)
  ]

  pub values_of-perm :
      {xs ys : List Entry} → Perm xs ys → Perm (values_of key xs) (values_of key ys)
  unfolding values_of
  values_of-perm {xs} {ys} p =
      Perm.filter_map (λ (e : Entry). if bytes_eq e.0 key then some e.1 else none) p

  -- A key that is judged otherwise is another key.
  other_key :
      (hit : Bytes → Bool) (k : Bytes) (b : Bool) → hit key ≡ b → hit k ≢ b → bytes_eq k key ≡ false
  other_key hit k b h n = elim (Bool-cases (bytes_eq k key)) [
    | inl t ↦ absurd (n (ap hit (bytes_eq_sound k key t) ∙ h))
    | inr f ↦ f
  ]

  -- No value is left of a key that is hit, and no value is lost of one that is not.
  pub values_of-survivors_hit :
      (hit : Bytes → Bool) (es : List Entry)
      → hit key ≡ true
      → values_of key (survivors hit es) ≡ []
  values_of-survivors_hit hit [] h = unfold values_of filter_map in refl
  values_of-survivors_hit hit (e ∷ es) h =
      let rest = values_of-survivors_hit hit es h in
      elim (Bool-cases (hit e.0)) [
        | inl t ↦ rw t rest
        | inr f ↦
            rw f (values_of-miss e (survivors hit es) (other_key hit e.0 true h (λ t. cc)) ∙ rest)
      ]

  pub values_of-survivors_miss :
      (hit : Bytes → Bool) (es : List Entry)
      → hit key ≡ false
      → values_of key (survivors hit es) ≡ values_of key es
  values_of-survivors_miss hit [] h = refl
  values_of-survivors_miss hit (e ∷ es) h =
      let rest = values_of-survivors_miss hit es h in
      elim (Bool-cases (hit e.0)) [
        | inl t ↦ rw t (rest ∙ sym (values_of-miss e es (other_key hit e.0 false h (λ f. cc))))
        | inr f ↦ rw f (values_of_cons e (survivors hit es) es rest)
      ]
