-- ===== src/Kvp/Store/Iter/Moved.antt =====
-- What `remove_current` leaves of the records behind the removed one: the last comes first.
use mathlib.Core.Path.{ap₂}
use azure_init.Prelude.{map, suc, ◌≡◌, refl, ap, List, [], ◌∷◌, ◌++◌, length}
use mathlib.Core.List.{Perm, perm_append_singleton}
use mathlib.Core.List.Perm

module _ {ℓ} {A : Type ℓ} where
  pub last_of : A → List A → A
  last_of x [] = x
  last_of x (y ∷ ys) = last_of y ys

  pub init_of : A → List A → List A
  init_of x [] = []
  init_of x (y ∷ ys) = x ∷ init_of y ys

  abbrev pub moved : List A → List A
  moved [] = []
  moved (x ∷ xs) = last_of x xs ∷ init_of x xs

  pub init_last : (x : A) (xs : List A) → x ∷ xs ≡ init_of x xs ++ last_of x xs ∷ []
  unfolding last_of init_of
  init_last x [] = refl
  init_last x (y ∷ ys) = ap (λ t. x ∷ t) (init_last y ys)

  pub length-init_of : (x : A) (xs : List A) → length (init_of x xs) ≡ length xs
  unfolding init_of
  length-init_of x [] = refl
  length-init_of x (y ∷ ys) = ap suc (length-init_of y ys)

  pub length-moved : (xs : List A) → length (moved xs) ≡ length xs
  length-moved [] = refl
  length-moved (x ∷ xs) = ap suc (length-init_of x xs)

  pub moved-perm : (xs : List A) → Perm (moved xs) xs
  moved-perm [] = Perm.refl []
  moved-perm (x ∷ xs) =
      rw (init_last x xs) (Perm.symm (perm_append_singleton (last_of x xs) (init_of x xs)))

module _ {ℓ κ} {A : Type ℓ} {B : Type κ} (f : A → B) where
  map-last_of : (x : A) (xs : List A) → f (last_of x xs) ≡ last_of (f x) (map f xs)
  unfolding last_of
  map-last_of x [] = refl
  map-last_of x (y ∷ ys) = map-last_of y ys

  map-init_of : (x : A) (xs : List A) → map f (init_of x xs) ≡ init_of (f x) (map f xs)
  unfolding init_of
  map-init_of x [] = refl
  map-init_of x (y ∷ ys) = ap (λ t. f x ∷ t) (map-init_of y ys)

  pub map-moved : (xs : List A) → map f (moved xs) ≡ moved (map f xs)
  map-moved [] = refl
  map-moved (x ∷ xs) = ap₂ (λ a t. a ∷ t) (map-last_of x xs) (map-init_of x xs)
