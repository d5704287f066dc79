-- ===== src/Kvp/Store/World/Ends.antt =====
-- Total correctness of actions: an action ends without an error, in a result and a world that
-- satisfy a postcondition.
use azure_init.Result.{ok, err}
use azure_init.Kvp.Store.World.{World, Io, Outcome, continue, ◌>>=◌}

abbrev pub Ends : {A : Type 0} → (A → World → Type 0) → Outcome A × World → Type 0
Ends Q (ok a, w) = Q a w
Ends Q (err s, w) = ⊥

Ends-continue :
    {A B : Type 0} (P : A → World → Type 0) (Q : B → World → Type 0) (f : A → Io B)
    → ((a : A) (w : World) → P a w → Ends Q (f a w))
    → (r : Outcome A) (w : World) → Ends P (r, w)
    → Ends Q (continue r f w)
Ends-continue P Q f g (ok a) w h = g a w h
Ends-continue P Q f g (err s) w h = absurd h

pub Ends-bind :
    {A B : Type 0} (P : A → World → Type 0) (Q : B → World → Type 0) (m : Io A) (f : A → Io B)
    (w : World)
    → Ends P (m w)
    → ((a : A) (w : World) → P a w → Ends Q (f a w))
    → Ends Q ((m >>= f) w)
Ends-bind P Q m f w h g = Ends-continue P Q f g (m w).0 (m w).1 h

Ends-map_outcome :
    {A : Type 0} (P Q : A → World → Type 0)
    → ((a : A) (w : World) → P a w → Q a w)
    → (r : Outcome A) (w : World) → Ends P (r, w)
    → Ends Q (r, w)
Ends-map_outcome P Q g (ok a) w h = g a w h
Ends-map_outcome P Q g (err s) w h = absurd h

pub Ends-map :
    {A : Type 0} (P Q : A → World → Type 0) (m : Io A) (w : World)
    → ((a : A) (w : World) → P a w → Q a w)
    → Ends P (m w)
    → Ends Q (m w)
Ends-map P Q m w g h = Ends-map_outcome P Q g (m w).0 (m w).1 h

-- An action that ends, and then one whose outcome, an error perhaps, is as `R` says.
pub Ends-then :
    {A B : Type 0} (P : A → World → Type 0) (R : Outcome B × World → Type 0) (m : Io A)
    (f : A → Io B) (w : World)
    → Ends P (m w)
    → ((a : A) (w : World) → P a w → R (f a w))
    → R ((m >>= f) w)
Ends-then {A} P R m f w h g = go (m w).0 (m w).1 h
  where
    go : (r : Outcome A) (w' : World) → Ends P (r, w') → R (continue r f w')
    go (ok a) w' p = g a w' p
    go (err s) w' p = absurd p
