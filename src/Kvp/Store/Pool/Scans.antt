-- ===== src/Kvp/Store/Pool/Scans.antt =====
-- The operations that only read: a scan of the pool folds over its entries in order.
use mathlib.Core.List.{foldl}
use azure_init.Prelude.{
  ℕ, zero, suc, ◌<◌, ◌≡◌, refl, sym, ap, ◌∙◌, true, Option, none, some, List, [], ◌∷◌, ◌++◌, inl,
  inr, arith, Bytes, length, append_assoc, append-nil, bytes_eq, bytes_eq_iff, if◌then◌else◌,
}
use azure_init.Result.{ok}
use azure_init.Kvp.Store.Policy.{usize_max, validate_key}
use azure_init.Kvp.Store.Record.{Entry}
use azure_init.Kvp.Store.World.{World, Io, open_read}
use azure_init.Kvp.Store.World.Ends.{Ends, Ends-bind, Ends-map}
use azure_init.Kvp.Store.World.Sees.{Sees}
use azure_init.Kvp.Store.World.Opens.{Absent, open_read_lem, open_read-Absent}
use azure_init.Kvp.Store.Iter.{KvpPoolIter, next, new_iter}
use azure_init.Kvp.Store.Iter.Cells.{Cell, bytes_of_cells, entries_of}
use azure_init.Kvp.Store.Iter.Stands.{
  AtEnd, Before, Yielded, Stands, next_end, next_cell, Yielded-Stands,
}
use azure_init.Kvp.Store.Iter.Begin.{new_iter_lem}
use azure_init.Kvp.Store.Pool.{
  Round, again, repeat, rounds, fold_round, scoped, or_missing, iter, dump, push, read, keep_last,
  entries, Map, map_insert, map_get,
}
use azure_init.Kvp.Store.Pool.Rules.{
  Holds, Contains, Holds-of, Shows, Ends-scoped, Ends-or_missing, Ends-repeat,
}

fold_end :
    {A : Type 0} (f : A → Entry → A) (acc : A) (fuel : ℕ) (it : KvpPoolIter) (w : World)
    (seen : List Cell)
    → AtEnd seen it w
    → repeat (suc fuel) (fold_round f) (acc, it) w ≡ (ok acc, w)
unfolding repeat fold_round
fold_end f acc fuel it w seen a = rw (next_end seen it w a)

-- A round that met `c` goes on with this accumulator.
abbrev Folded :
    {A : Type 0} → List Cell → Cell → List Cell → A → Round (A × KvpPoolIter) A → World → Type 0
Folded seen c rest acc r w = (it : KvpPoolIter) × (r ≡ again (acc, it)) × Yielded seen c rest it w

fold_cell :
    {A : Type 0} (f : A → Entry → A) (seen : List Cell) (c : Cell) (rest : List Cell) (acc : A)
    (it : KvpPoolIter) (w : World)
    → Before seen c rest it w
    → Ends (Folded seen c rest (f acc c.entry)) (fold_round f (acc, it) w)
unfolding fold_round
fold_cell f seen c rest acc it w b =
    Ends-bind _ _ (next it) _ w (next_cell seen c rest it w b) (λ p w1 q. rw (q.0) (p.1, refl, q.1))

pub fold_loop :
    {A : Type 0} (f : A → Entry → A) (fuel : ℕ) (seen todo : List Cell) (acc : A) (it : KvpPoolIter)
    (w : World)
    → Stands seen todo it w
    → length todo < fuel
    → Ends
        (λ r w'. (r ≡ foldl f acc (entries_of todo)) × Shows (seen ++ todo) w')
        (repeat fuel (fold_round f) (acc, it) w)
fold_loop f zero seen todo acc it w s h = absurd (omega arith)
fold_loop f (suc fuel) seen [] acc it w s h =
    rw (fold_end f acc fuel it w seen s, append-nil) (refl, (s.cursor, s.sees))
fold_loop {A} f (suc fuel) seen (c ∷ rest) acc it w s h =
    Ends-repeat (Folded seen c rest (f acc c.entry)) _ (fold_round f) fuel (acc, it) w
      (fold_cell f seen c rest acc it w s)
      (λ r w1 q.
        rw (q.1, ← append_assoc seen (c ∷ []) rest)
          (fold_loop f fuel (seen ++ c ∷ []) rest (f acc c.entry) q.0 w1
            (Yielded-Stands seen c rest q.0 w1 q.2) (omega arith)))

-- The pool holds what it held, and the result is as expected.
abbrev pub Scanned : {A : Type 0} → List Entry → A → A → World → Type 0
Scanned es expected r w = (r ≡ expected) × Contains es w

abbrev scanning : {A : Type 0} → (A → Entry → A) → A → Io A
scanning f start =
    scoped (or_missing iter start (λ it. repeat (rounds it) (fold_round f) (start, it)))

scan_present :
    {A : Type 0} (f : A → Entry → A) (start : A) (es : List Entry) (w : World)
    → Holds es w
    → Ends (Scanned es (foldl f start es)) (scanning f start w)
unfolding iter
scan_present {A} f start es w h =
    Ends-scoped (λ r w'. (r ≡ foldl f start es) × Shows h.cells w') (Scanned es (foldl f start es))
      (or_missing iter start (λ it. repeat (rounds it) (fold_round f) (start, it))) w
      (Ends-or_missing (λ it w'. (it.record_count ≡ length h.cells) × Stands [] h.cells it w')
        (λ r w'. (r ≡ foldl f start es) × Shows h.cells w') iter start
        (λ it. repeat (rounds it) (fold_round f) (start, it)) w
        (Ends-bind (λ _ w'. Sees (bytes_of_cells h.cells) 0 w') _ open_read (λ _. new_iter true) w
          (open_read_lem h.stores)
          (λ _ w1 s1.
            Ends-map _ _ (new_iter true) w1
              (λ it w2 q. (ap (λ (i : KvpPoolIter). i.record_count) q.0, q.1))
              (new_iter_lem h.cells true 0 w1 s1)))
        (λ it w1 q.
          rw (← h.read_as)
            (fold_loop f (rounds it) [] h.cells start it w1 q.1 (omega (arith, q.0)))))
      (λ r w1 q. (q.0, inl (Holds-of h.cells es w1 h.read_as q.1)))

scan-Absent :
    {A : Type 0} (f : A → Entry → A) (start : A) (w : World)
    → Absent w
    → Ends (Scanned [] start) (scanning f start w)
unfolding iter
scan-Absent f start w a =
    rw (open_read-Absent a) (refl, inr (refl, record { quiet = a.quiet; file = a.file }))

pub scan_lem :
    {A : Type 0} (f : A → Entry → A) (start : A) (es : List Entry) (w : World)
    → Contains es w
    → Ends (Scanned es (foldl f start es)) (scanning f start w)
scan_lem f start es w (inl h) = scan_present f start es w h
scan_lem f start es w (inr (e, a)) = rw e (scan-Absent f start w a)

-- `dump` returns every record of a well-formed pool in order, duplicates included, and none where
-- there is no file. The pool holds what it held.
-- The pool file is well-formed or absent, and no call fails.
pub dump-Contains :
    (es : List Entry) (w : World)
    → Contains es w
    → Ends (λ r w'. (r ≡ es) × Contains es w') (dump w)
unfolding dump
dump-Contains es w h =
    Ends-map (Scanned es (foldl push [] es)) (λ r w'. (r ≡ es) × Contains es w') (scanning push [])
      w (λ r w' q. (q.0 ∙ pushed [] es, q.1)) (scan_lem push [] es w h)
  where
    pushed : (acc es : List Entry) → foldl push acc es ≡ acc ++ es
    pushed acc [] = sym (append-nil acc)
    pushed acc (e ∷ es) = pushed (acc ++ e ∷ []) es ∙ append_assoc acc (e ∷ []) es

abbrev pub or_else : Option Bytes → Option Bytes → Option Bytes
or_else none d = d
or_else (some v) d = some v

-- The value of the last entry with the key.
pub last_value : Bytes → List Entry → Option Bytes
last_value key [] = none
last_value key (e ∷ es) = or_else (last_value key es) (if bytes_eq e.0 key then some e.1 else none)

keep_last-fold :
    (key : Bytes) (acc : Option Bytes) (es : List Entry)
    → foldl (keep_last key) acc es ≡ or_else (last_value key es) acc
unfolding last_value
keep_last-fold key acc [] = refl
keep_last-fold key acc (e ∷ es) = ground (arith, keep_last-fold key (keep_last key acc e) es)

or_none-none : (o : Option Bytes) → or_else o none ≡ o
or_none-none none = refl
or_none-none (some v) = refl

-- `read` of a key that it accepts returns the value of the key's last record, or `None`, and
-- leaves the pool as it is.
-- The pool file is well-formed or absent, and no call fails.
pub read-Contains :
    (key : Bytes) (es : List Entry) (w : World)
    → validate_key key usize_max ≡ ok tt
    → Contains es w
    → Ends (λ r w'. (r ≡ last_value key es) × Contains es w') (read key w)
unfolding read
read-Contains key es w v h = rw v (
    Ends-map (Scanned es (foldl (keep_last key) none es))
      (λ r w'. (r ≡ last_value key es) × Contains es w') (scanning (keep_last key) none) w
      (λ r w' q. (q.0 ∙ keep_last-fold key none es ∙ or_none-none (last_value key es), q.1))
      (scan_lem (keep_last key) none es w h))

map_get-insert :
    (key : Bytes) (m : Map) (e : Entry)
    → map_get key (map_insert m e) ≡ (if bytes_eq e.0 key then some e.1 else map_get key m)
unfolding map_get map_insert
map_get-insert key [] e = refl
map_get-insert key ((k, v) ∷ m) e =
    ground
      (arith, map_get-insert key m e, bytes_eq_iff k e.0, bytes_eq_iff e.0 key, bytes_eq_iff k key)

map_get-fold :
    (key : Bytes) (m : Map) (es : List Entry)
    → map_get key (foldl map_insert m es) ≡ or_else (last_value key es) (map_get key m)
unfolding last_value
map_get-fold key m [] = refl
map_get-fold key m (e ∷ es) =
    ground (arith, map_get-fold key (map_insert m e) es, map_get-insert key m e)

or_none : (key : Bytes) (o : Option Bytes) → or_else o (map_get key []) ≡ o
unfolding map_get
or_none key none = refl
or_none key (some v) = refl

-- `entries` maps each key to what `read` returns for it.
-- The pool file is well-formed or absent, and no call fails.
pub entries-Contains :
    (key : Bytes) (es : List Entry) (w : World)
    → Contains es w
    → Ends (λ m w'. (map_get key m ≡ last_value key es) × Contains es w') (entries w)
unfolding entries
entries-Contains key es w h =
    Ends-map (Scanned es (foldl map_insert [] es))
      (λ m w'. (map_get key m ≡ last_value key es) × Contains es w') (scanning map_insert []) w
      (λ m w' q.
        (ap (map_get key) q.0 ∙ map_get-fold key [] es ∙ or_none key (last_value key es), q.1))
      (scan_lem map_insert [] es w h)
