-- ===== src/Kvp/Store/Pool/Inserts.antt =====
-- What `insert` leaves in the pool, by what it held.
use mathlib.Core.List.{Perm}
use azure_init.Prelude.{
  ◌≤◌, ◌<◌, ◌≡◌, refl, ap, false, List, [], ◌∷◌, ◌++◌, inl, inr, arith, Bytes, length, Bool-cases,
  ◌⊎◌, leb,
}
use azure_init.Result.{err}
use azure_init.Kvp.Store.Policy.{max_unique_keys, PoolMode}
use azure_init.Kvp.Store.Record.{Entry}
use azure_init.Kvp.Store.World.{
  World, Outcome, pure, ◌>>=◌, ◌>>◌, close, flush, raised, open_read_write_create,
}
use azure_init.Kvp.Store.World.Ends.{Ends, Ends-bind, Ends-then}
use azure_init.Kvp.Store.World.Sees.{Sees, flush_lem}
use azure_init.Kvp.Store.Iter.{KvpPoolIter, new_iter, append_record}
use azure_init.Kvp.Store.Iter.Cells.{Cell, bytes_of_cells, entries_of, encoded}
use azure_init.Kvp.Store.Iter.Begin.{new_iter_lem, append_record_lem}
use azure_init.Kvp.Store.Pool.{repeat, rounds, Upsert, insert_round, append_unless_found, insert}
use azure_init.Kvp.Store.Pool.Rules.{Contains, Holds-of, Ends-scoped, open_to_write}
use azure_init.Kvp.Store.KeySet.{distinct_keys}
use azure_init.Kvp.Store.Survivors.{survivors, hits}
use azure_init.Kvp.Error.{max_unique_keys_exceeded}
use azure_init.Kvp.Store.Record.RoundTrip.{EntryFits}
use azure_init.Kvp.Store.Pool.Appends.{Accepted, Accepted-EntryFits, entries-snoc}
use azure_init.Kvp.Store.Pool.Deletes.{is_key}
use azure_init.Kvp.Store.Pool.Upserts.{Searched, search_loop}

-- What `insert` of an accepted entry comes to, by what the pool held.
abbrev pub Inserted : Bytes → Bytes → List Entry → Outcome (Unit {0}) × World → Type 0
Inserted key value es p =
    ((0 < hits (is_key key) es)
      × Ends
          (λ _ w'.
            (rest : List Entry) × Perm rest ((key, value) ∷ survivors (is_key key) es)
            × Contains rest w')
          p)
    ⊎ ((hits (is_key key) es ≡ 0)
        × (length (distinct_keys es []) < max_unique_keys)
        × Ends (λ _ w'. Contains (es ++ (key, value) ∷ []) w') p)
    ⊎ ((hits (is_key key) es ≡ 0)
        × (max_unique_keys ≤ length (distinct_keys es []))
        × (p.0 ≡ err (raised (max_unique_keys_exceeded max_unique_keys)))
        × Contains es p.1)

abbrev closed : Outcome (Unit {0}) × World → Outcome (Unit {0}) × World
closed q = (q.0, close q.1)

module _ (key value : Bytes) (fits : EntryFits (key, value)) (cells : List Cell) where
  finish :
      (u : Upsert) (w : World)
      → Searched key value (fits.1) [] cells [] u w
      → Inserted key value
          (entries_of cells)
          (closed ((append_unless_found key value u >> flush) w))
  unfolding append_unless_found
  finish u w (inr (old, present, cells', shown, p)) = rw old (
      inl (
        present,
        Ends-scoped (λ _ w'. Sees (bytes_of_cells cells') shown.0 w') _ flush w (flush_lem shown.1)
            (λ _ w1 s1. (entries_of cells', p, inl (Holds-of cells' _ w1 refl (shown.0, s1)))),
      ))
  finish u w (inl (new, lacking, collected, shown)) =
      elim (Bool-cases (leb max_unique_keys (length (distinct_keys (entries_of cells) [])))) [
        | inl full ↦
            rw (new, collected, full)
              (inr (inr (lacking, ground arith, refl, inl (Holds-of cells _ w refl shown))))
        | inr room ↦
            rw (new, collected, room)
              (inr (
                inl (
                  lacking,
                  ground arith,
                  Ends-scoped
                      (λ _ w'.
                        Sees (bytes_of_cells (cells ++ encoded (key, value) fits ∷ [])) shown.0 w')
                      (λ _ w'. Contains (entries_of cells ++ (key, value) ∷ []) w')
                      ((do _ ← append_record u.it key value; pure tt) >> flush) w
                      (Ends-bind
                        (λ _ w'.
                          Sees (bytes_of_cells (cells ++ encoded (key, value) fits ∷ [])) shown.0
                            w')
                        _ (do _ ← append_record u.it key value; pure tt) (λ _. flush) w
                        (Ends-bind _ _ (append_record u.it key value) (λ _. pure tt) w
                          (append_record_lem cells (key, value) fits u.it shown.0 w shown.1)
                          (λ _ w1 q. q.1))
                        (λ _ w1 s1. flush_lem s1))
                      (λ _ w1 s1. inl (
                        Holds-of (cells ++ encoded (key, value) fits ∷ []) _ w1
                          (entries-snoc cells (entries_of cells) (key, value) fits refl)
                          (shown.0, s1))),
                )))
      ]

-- `insert` of an accepted entry: a key that is there keeps one record, with the new value, and no
-- other record is lost; a key that is not there is added behind the others if the pool has fewer
-- than 1024 distinct keys; otherwise the error says so and the pool holds what it held.
-- The pool file is well-formed or absent, and no call fails.
pub insert-Inserted :
    (mode : PoolMode) (key value : Bytes) (es : List Entry) (w : World)
    → Accepted mode (key, value)
    → Contains es w
    → Inserted key value es (insert mode key value w)
unfolding insert
insert-Inserted mode key value es w a h =
    let fits = Accepted-EntryFits mode (key, value) a in
    rw (a.key_valid, a.value_valid)
      (Ends-then
        (λ _ w'. (cells : List Cell) × (entries_of cells ≡ es) × Sees (bytes_of_cells cells) 0 w')
        (λ q. Inserted key value es (closed q)) open_read_write_create _ w (open_to_write es w h)
        (λ _ w1 (cells, e, s).
          Ends-then _ (λ q. Inserted key value es (closed q)) (new_iter false) _ w1
            (new_iter_lem cells false 0 w1 s)
            (λ it w2 q.
              Ends-then (Searched key value (fits.1) [] cells [])
                (λ q. Inserted key value es (closed q))
                (repeat (rounds it) (insert_round key value)
                  (record { found = false; unique_keys = []; it = it }))
                _ w2
                (search_loop key value (fits.1) (rounds it) [] cells
                  (record { found = false; unique_keys = []; it = it }) w2 refl q.1
                  (omega (arith, ap (λ (i : KvpPoolIter). i.record_count) q.0)))
                (λ u w3 p. rw (← e) (finish key value fits cells u w3 p)))))
