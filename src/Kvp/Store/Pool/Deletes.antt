-- ===== src/Kvp/Store/Pool/Deletes.antt =====
-- What `delete` and `delete_multiple` leave in the pool.
use mathlib.Core.List.{Perm}
use azure_init.Prelude.{
  ℕ, zero, suc, ◌+◌, ◌≡◌, refl, sym, ap, ◌∙◌, subst, Bool, true, false, List, [], ◌∷◌, inl, inr,
  arith, Bytes, bytes_eq, ltb, Bool-cases, ◌||◌, bytes_eq_sound,
}
use azure_init.Result.{ok}
use azure_init.Kvp.Store.Policy.{usize_max, validate_key}
use azure_init.Kvp.Store.Record.{Entry}
use azure_init.Kvp.Store.World.{World}
use azure_init.Kvp.Store.World.Ends.{Ends, Ends-map}
use azure_init.Kvp.Store.Pool.{
  delete_round, delete, delete_multiple_round, delete_multiple, delete_collected,
}
use azure_init.Kvp.Store.Pool.Rules.{Contains}
use mathlib.Core.List.Perm
use azure_init.Kvp.Store.KeySet.{set_contains, collect_keys, set_insert}
use azure_init.Kvp.Store.Survivors.{survivors, hits}
use azure_init.Kvp.Store.Pool.Removals.{remove_round, times, removing, Post, removing_lem, Survive}

positive : ℕ → Bool
positive n = ltb 0 n

times-true : (n : ℕ) → times (λ _. true) n true ≡ true
times-true zero = refl
times-true (suc n) = times-true n

times_found : (n : ℕ) → times (λ _. true) n false ≡ positive n
unfolding positive
times_found zero = refl
times_found (suc n) = times-true n ∙ ground arith

pub times_count : (n k : ℕ) → times (λ m. m + 1) n k ≡ k + n
times_count zero k = omega arith
times_count (suc n) k = times_count n (k + 1) ∙ omega arith

-- The keys that `delete` removes.
abbrev pub is_key : Bytes → Bytes → Bool
is_key key k = bytes_eq k key

-- `delete` of a key that it accepts removes every record of the key and no other, says whether
-- there was one, and may reorder the records that stay.
-- The pool file is well-formed or absent, and no call fails.
pub delete-Contains :
    (key : Bytes) (es : List Entry) (w : World)
    → validate_key key usize_max ≡ ok tt
    → Contains es w
    → Ends (λ r w'. (r ≡ ltb 0 (hits (is_key key) es)) × Survive (is_key key) es w') (delete key w)
unfolding delete delete_round remove_round
delete-Contains key es w v h = rw v (
    Ends-map (Post (is_key key) (λ _. true) (λ b. b) false es)
      (λ r w'. (r ≡ ltb 0 (hits (is_key key) es)) × Survive (is_key key) es w')
      (removing (is_key key) (λ _. true) (λ b. b) false) w
      (λ r w1 p. (p.0 ∙ unfold positive in times_found (hits (is_key key) es), p.1))
      (removing_lem (is_key key) (λ _. true) (λ b. b) false es w h))

-- Every key is accepted.
abbrev pub AllValid : List Bytes → Type 0
AllValid [] = Unit
AllValid (k ∷ ks) = (validate_key k usize_max ≡ ok tt) × AllValid ks

set_contains-set_insert :
    (key : Bytes) (ks : List Bytes) (k : Bytes)
    → set_contains (set_insert key ks) k ≡ (bytes_eq key k || set_contains ks k)
unfolding set_contains set_insert
set_contains-set_insert key ks k = elim (Bool-cases (set_contains ks key)) [
  | inl t ↦ elim (Bool-cases (bytes_eq key k)) [
    | inl e ↦ rw (t, e) (subst (λ x. set_contains ks x ≡ true) (bytes_eq_sound key k e) t)
    | inr f ↦ rw (t, f) refl
  ]
  | inr f ↦ rw f refl
]

or_swap : (a b c : Bool) → (b || (a || c)) ≡ ((a || b) || c)
or_swap true true c = refl
or_swap true false c = refl
or_swap false true c = refl
or_swap false false c = refl

-- The collected keys are the given ones.
collect_keys_lem :
    (keys ks : List Bytes)
    → AllValid keys
    → (out : List Bytes) × (collect_keys keys ks ≡ ok out)
      × ((k : Bytes) → set_contains out k ≡ (set_contains keys k || set_contains ks k))
unfolding collect_keys set_contains
collect_keys_lem [] ks v = (ks, refl, λ k. refl)
collect_keys_lem (key ∷ keys) ks (v, vs) =
    let (out, e, same) = collect_keys_lem keys (set_insert key ks) vs in
    (
      out,
      rw v e,
      λ k.
          same k
          ∙ ap (λ b. set_contains keys k || b) (set_contains-set_insert key ks k)
          ∙ or_swap (bytes_eq key k) (set_contains keys k) (set_contains ks k),
    )

or_false : (b : Bool) → (b || false) ≡ b
or_false true = refl
or_false false = refl

survivors-none : (es : List Entry) → survivors (set_contains []) es ≡ es
unfolding set_contains
survivors-none [] = refl
survivors-none (e ∷ es) = ap (λ t. e ∷ t) (survivors-none es)

hits-none : (es : List Entry) → hits (set_contains []) es ≡ 0
unfolding set_contains
hits-none [] = refl
hits-none (e ∷ es) = hits-none es

-- How many records the keys hit, and what is left of them.
abbrev pub Cleared : (Bytes → Bool) → List Entry → ℕ → World → Type 0
Cleared hit es r w = (r ≡ hits hit es) × Survive hit es w

delete_collected_lem :
    (out : List Bytes) (es : List Entry) (w : World)
    → Contains es w
    → Ends (Cleared (set_contains out) es) (delete_collected out w)
unfolding delete_multiple_round remove_round
delete_collected_lem [] es w h =
    (sym (hits-none es), (es, subst (Perm es) (sym (survivors-none es)) (Perm.refl es), h))
delete_collected_lem (k ∷ out) es w h =
    let hit = set_contains (k ∷ out) in
    Ends-map (Post hit (λ m. m + 1) (ltb 0) 0 es) (Cleared hit es)
      (removing hit (λ m. m + 1) (ltb 0) 0) w
      (λ r w1 p. (p.0 ∙ times_count (hits hit es) 0 ∙ omega arith, p.1))
      (removing_lem hit (λ m. m + 1) (ltb 0) 0 es w h)

-- `delete_multiple` of keys that it accepts removes every record of each of them and no other,
-- returns how many it removed, and may reorder the records that stay.
-- The pool file is well-formed or absent, and no call fails.
pub delete_multiple-Contains :
    (keys : List Bytes) (es : List Entry) (w : World)
    → AllValid keys
    → Contains es w
    → Ends (Cleared (set_contains keys) es) (delete_multiple keys w)
unfolding delete_multiple
delete_multiple-Contains keys es w v h =
    let (out, e, same) = collect_keys_lem keys [] v in
    let alike : (k : Bytes) → set_contains out k ≡ set_contains keys k =
      λ k. same k ∙ unfold set_contains in or_false (set_contains keys k) in
    rw e (
      subst (λ hit. Ends (Cleared hit es) (delete_collected out w)) (λ i k. alike k i)
        (delete_collected_lem out es w h))
