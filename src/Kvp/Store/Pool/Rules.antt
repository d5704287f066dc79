-- ===== src/Kvp/Store/Pool/Rules.antt =====
-- The pool as a list of entries, and the rules by which actions on it are composed.
use azure_init.Prelude.{ℕ, suc, ◌≡◌, refl, sym, List, [], ◌⊎◌, inl, inr}
use azure_init.Result.{ok, err}
use azure_init.Kvp.Store.Record.{Entry}
use azure_init.Kvp.Store.World.{World, Io, Outcome, open_read_write_create, close}
use azure_init.Kvp.Store.World.Ends.{Ends, Ends-bind, Ends-map}
use azure_init.Kvp.Store.World.Sees.{Sees}
use azure_init.Kvp.Store.World.Opens.{
  Stores, Absent, Sees-Stores, open_read_write_create_lem, open_create-Absent,
}
use azure_init.Kvp.Store.Iter.Cells.{Cell, bytes_of_cells, entries_of}
use azure_init.Kvp.Store.Pool.{Round, repeat, proceed, scoped, or_missing, unless_not_found}

-- The pool file holds these entries, in order, and no call fails.
pub record Holds (es : List Entry) (w : World) : Type 0 where
  pub cells : List Cell
  pub read_as : entries_of cells ≡ es
  pub stores : Stores (bytes_of_cells cells) w

-- The pool holds these entries; a pool with none may have no file.
abbrev pub Contains : List Entry → World → Type 0
Contains es w = Holds es w ⊎ ((es ≡ []) × Absent w)

-- The open file has the bytes of these cells, wherever the cursor is.
abbrev pub Shows : List Cell → World → Type 0
Shows cells w = (c : ℕ) × Sees (bytes_of_cells cells) c w

pub Shows-Holds :
    (cells : List Cell) (w : World) → Shows cells w → Holds (entries_of cells) (close w)
Shows-Holds cells w (c, s) = record { cells = cells; read_as = refl; stores = Sees-Stores s }

pub Ends-scoped :
    {A : Type 0} (P Q : A → World → Type 0) (m : Io A) (w : World)
    → Ends P (m w)
    → ((a : A) (w : World) → P a w → Q a (close w))
    → Ends Q (scoped m w)
Ends-scoped {A} P Q m w h g = go (m w).0 (m w).1 h
  where
    go : (r : Outcome A) (w' : World) → Ends P (r, w') → Ends Q (r, close w')
    go (ok a) w' p = g a w' p
    go (err s) w' p = absurd p

pub Ends-or_missing :
    {A B : Type 0} (P : A → World → Type 0) (Q : B → World → Type 0) (m : Io A) (default : B)
    (f : A → Io B) (w : World)
    → Ends P (m w)
    → ((a : A) (w : World) → P a w → Ends Q (f a w))
    → Ends Q (or_missing m default f w)
Ends-or_missing {A} P Q m default f w h g = go (m w).0 (m w).1 h
  where
    go : (r : Outcome A) (w' : World) → Ends P (r, w') → Ends Q (unless_not_found default f r w')
    go (ok a) w' p = g a w' p
    go (err s) w' p = absurd p

pub Ends-repeat :
    {S R : Type 0} (P : Round S R → World → Type 0) (Q : R → World → Type 0)
    (body : S → Io (Round S R)) (fuel : ℕ) (s : S) (w : World)
    → Ends P (body s w)
    → ((r : Round S R) (w : World) → P r w → Ends Q (proceed (repeat fuel body) r w))
    → Ends Q (repeat (suc fuel) body s w)
unfolding repeat
Ends-repeat P Q body fuel s w h g = Ends-bind P Q (body s) (proceed (repeat fuel body)) w h g

-- Opened to be written, the pool has its entries' cells, and none if it has just been created.
pub open_to_write :
    (es : List Entry) (w : World)
    → Contains es w
    → Ends
        (λ _ w'. (cells : List Cell) × (entries_of cells ≡ es) × Sees (bytes_of_cells cells) 0 w')
        (open_read_write_create w)
open_to_write es w (inl h) =
    Ends-map _ _ open_read_write_create w (λ _ w' s. (h.cells, h.read_as, s))
      (open_read_write_create_lem h.stores)
open_to_write es w (inr (e, a)) =
    Ends-map _ _ open_read_write_create w (λ _ w' s. ([], sym e, s)) (open_create-Absent a)

-- Shows-Holds, with the entries known by an equation.
pub Holds-of :
    (cells : List Cell) (es : List Entry) (w : World)
    → entries_of cells ≡ es
    → Shows cells w
    → Holds es (close w)
Holds-of cells es w e q = record { cells = cells; read_as = e; stores = Sees-Stores q.1 }
