-- ===== src/Kvp/Store/Pool/Upserts.antt =====
-- `insert`: the first record of the key is written over, its duplicates are removed, and a key
-- that is not there is added.
use mathlib.Core.List.{Perm, map-append}
use azure_init.Prelude.{
  ℕ, zero, suc, ◌<◌, ◌≡◌, refl, ap, ◌∙◌, subst, true, false, List, [], ◌∷◌, ◌++◌, inl, inr, arith,
  Bytes, length, append_assoc, append-nil, bytes_eq, Bool-cases, ◌⊎◌, bytes_eq_sound,
}
use azure_init.Result.{ok}
use azure_init.Kvp.Store.Policy.{wire_max_value_bytes}
use azure_init.Kvp.Store.Record.{Entry}
use azure_init.Kvp.Store.World.{World}
use azure_init.Kvp.Store.World.Ends.{Ends, Ends-bind, Ends-map}
use azure_init.Kvp.Store.Iter.{next, remove_current, overwrite_current_value}
use azure_init.Kvp.Store.Iter.Cells.{Cell, entries_of, overwritten, entry-overwritten}
use azure_init.Kvp.Store.Iter.Stands.{
  AtEnd, Before, Yielded, Stands, next_end, next_cell, Yielded-Stands,
}
use azure_init.Kvp.Store.Pool.{Round, again, repeat, Upsert, insert_round}
use azure_init.Kvp.Store.Pool.Rules.{Shows, Ends-repeat}
use mathlib.Core.List.Perm
use azure_init.Kvp.Store.Iter.Moved.{moved, length-moved}
use azure_init.Kvp.Store.Iter.Remove.{remove_current_lem}
use azure_init.Kvp.Store.KeySet.{set_insert, distinct_keys}
use azure_init.Kvp.Store.Survivors.{survivors, hits}
use azure_init.Kvp.Store.Record.RoundTrip.{Fits}
use azure_init.Kvp.Store.Iter.Overwrite.{overwrite_current_value_lem}
use azure_init.Kvp.Store.Pool.Removals.{Left, Left-hit, Left-miss}
use azure_init.Kvp.Store.Pool.Deletes.{is_key}

module _ (key value : Bytes) (f : Fits wire_max_value_bytes value) where
  upsert_end :
      (u : Upsert) (fuel : ℕ) (w : World) (seen : List Cell)
      → AtEnd seen u.it w
      → repeat (suc fuel) (insert_round key value) u w ≡ (ok u, w)
  unfolding repeat insert_round
  upsert_end u fuel w seen a = rw (next_end seen u.it w a)

  -- A round that goes on, with what is known of the loop's variables.
  abbrev On : (Upsert → World → Type 0) → Round Upsert Upsert → World → Type 0
  On P r w = (u : Upsert) × (r ≡ again u) × P u w

  round_miss :
      (seen : List Cell) (c : Cell) (rest : List Cell) (u : Upsert) (w : World)
      → bytes_eq c.entry.0 key ≡ false
      → Before seen c rest u.it w
      → Ends
          (On (λ u' w'.
            (u'.found ≡ u.found)
            × (u'.unique_keys ≡ set_insert c.entry.0 u.unique_keys)
            × Yielded seen c rest u'.it w'))
          (insert_round key value u w)
  unfolding insert_round
  round_miss seen c rest u w h b =
      Ends-bind _ _ (next u.it) _ w (next_cell seen c rest u.it w b) (λ p w1 q.
        rw (q.0, h)
          (
            record { found = u.found; unique_keys = set_insert c.entry.0 u.unique_keys; it = p.1 },
            refl,
            (refl, refl, q.1),
          ))

  round_first :
      (seen : List Cell) (c : Cell) (rest : List Cell) (u : Upsert) (w : World)
      → bytes_eq c.entry.0 key ≡ true
      → u.found ≡ false
      → Before seen c rest u.it w
      → Ends
          (On (λ u' w'. (u'.found ≡ true) × Yielded seen (overwritten c value f) rest u'.it w'))
          (insert_round key value u w)
  unfolding insert_round
  round_first seen c rest u w h new b =
      Ends-bind _ _ (next u.it) _ w (next_cell seen c rest u.it w b) (λ p w1 q.
        rw (q.0, h, new)
          (Ends-bind _ _ (overwrite_current_value p.1 value) _ w1
            (overwrite_current_value_lem seen c rest p.1 w1 value f q.1)
            (λ _ w2 y. (
              record { found = true; unique_keys = set_insert c.entry.0 u.unique_keys; it = p.1 },
              refl,
              (refl, y),
            ))))

  round_later :
      (seen : List Cell) (c : Cell) (rest : List Cell) (u : Upsert) (w : World)
      → bytes_eq c.entry.0 key ≡ true
      → u.found ≡ true
      → Before seen c rest u.it w
      → Ends
          (On (λ u' w'. (u'.found ≡ true) × Stands seen (moved rest) u'.it w'))
          (insert_round key value u w)
  unfolding insert_round
  round_later seen c rest u w h old b =
      Ends-bind _ _ (next u.it) _ w (next_cell seen c rest u.it w b) (λ p w1 q.
        rw (q.0, h, old)
          (Ends-bind _ _ (remove_current p.1) _ w1 (remove_current_lem seen c rest p.1 w1 q.1)
            (λ it2 w2 st. (
              record { found = true; unique_keys = set_insert c.entry.0 u.unique_keys; it = it2 },
              refl,
              (refl, st),
            ))))

  -- Once the key is found, what follows of it is removed.
  abbrev Later : List Cell → List Entry → Upsert → World → Type 0
  Later seen todo r w = (r.found ≡ true) × Left (is_key key) seen todo w

  Later-loop :
      (fuel : ℕ) (seen todo : List Cell) (u : Upsert) (w : World)
      → u.found ≡ true
      → Stands seen todo u.it w
      → length todo < fuel
      → Ends (Later seen (entries_of todo)) (repeat fuel (insert_round key value) u w)
  Later-loop zero seen todo u w old s h = absurd (omega arith)
  Later-loop (suc fuel) seen [] u w old s h =
      rw (upsert_end u fuel w seen s)
        (old, (seen, (s.cursor, s.sees), rw append-nil (Perm.refl (entries_of seen))))
  Later-loop (suc fuel) seen (c ∷ rest) u w old s h =
      let ih_hit =
        λ (u1 : Upsert) (w1 : World) (e : u1.found ≡ true) (st : Stands seen (moved rest) u1.it w1).
          Later-loop fuel seen (moved rest) u1 w1 e st (omega (arith, length-moved rest)) in
      let ih_miss =
        λ (u1 : Upsert) (w1 : World) (e : u1.found ≡ true)
            (st : Stands (seen ++ c ∷ []) rest u1.it w1).
          Later-loop fuel (seen ++ c ∷ []) rest u1 w1 e st (omega arith) in
      elim (Bool-cases (bytes_eq c.entry.0 key)) [
        | inl t ↦
            Ends-repeat _ _ (insert_round key value) fuel u w (round_later seen c rest u w t old s)
              (λ r w1 q. rw (q.1) (
                Ends-map _ _ (repeat fuel (insert_round key value) q.0) w1
                  (λ r' w2 p. (p.0, Left-hit (is_key key) seen c rest w2 t p.1))
                  (ih_hit q.0 w1 q.2.0 q.2.1)))
        | inr n ↦
            Ends-repeat _ _ (insert_round key value) fuel u w (round_miss seen c rest u w n s)
              (λ r w1 q. rw (q.1) (
                Ends-map _ _ (repeat fuel (insert_round key value) q.0) w1
                  (λ r' w2 p. (p.0, Left-miss (is_key key) seen c rest w2 n p.1))
                  (ih_miss q.0 w1 (q.2.0 ∙ old) (Yielded-Stands seen c rest q.0.it w1 q.2.2))))
      ]

  -- How the loop ends that has not found the key yet: it was not there, and the keys have been
  -- collected; or its value is in the place of its first record, and its duplicates are gone.
  abbrev pub Searched : List Cell → List Cell → List Bytes → Upsert → World → Type 0
  Searched seen todo keys r w =
      ((r.found ≡ false)
        × (hits (is_key key) (entries_of todo) ≡ 0)
        × (r.unique_keys ≡ distinct_keys (entries_of todo) keys)
        × Shows (seen ++ todo) w)
      ⊎ ((r.found ≡ true)
          × (0 < hits (is_key key) (entries_of todo))
          × (cells : List Cell) × Shows cells w
          × Perm (entries_of cells)
              (entries_of seen ++ (key, value) ∷ survivors (is_key key) (entries_of todo)))

  Searched-first :
      (seen : List Cell) (c : Cell) (rest : List Cell) (keys : List Bytes) (r : Upsert) (w : World)
      → bytes_eq c.entry.0 key ≡ true
      → Later (seen ++ overwritten c value f ∷ []) (entries_of rest) r w
      → Searched seen (c ∷ rest) keys r w
  Searched-first seen c rest keys r w t (old, (cells, shown, p)) =
      let kv : (overwritten c value f).entry ≡ (key, value) =
        entry-overwritten c value f ∙ ap (λ k. (k, value)) (bytes_eq_sound c.entry.0 key t) in
      rw t (
        inr (
          old,
          omega arith,
          cells,
          shown,
          subst (λ es. Perm (entries_of cells) es)
              (ap (λ es. es ++ survivors (is_key key) (entries_of rest))
                  (map-append (λ (d : Cell). d.entry) seen (overwritten c value f ∷ [])
                    ∙ ap (λ e. entries_of seen ++ e ∷ []) kv)
                ∙ append_assoc (entries_of seen) ((key, value) ∷ [])
                    (survivors (is_key key) (entries_of rest)))
              p,
        ))

  Searched-miss :
      (seen : List Cell) (c : Cell) (rest : List Cell) (keys : List Bytes) (r : Upsert) (w : World)
      → bytes_eq c.entry.0 key ≡ false
      → Searched (seen ++ c ∷ []) rest (set_insert c.entry.0 keys) r w
      → Searched seen (c ∷ rest) keys r w
  unfolding distinct_keys
  Searched-miss seen c rest keys r w n (inl (new, lacking, collected, shown)) =
      rw n (inl (new, lacking, collected, rw (← append_assoc seen (c ∷ []) rest) shown))
  Searched-miss seen c rest keys r w n (inr (old, present, cells, shown, p)) = rw n (
      inr (
        old,
        present,
        cells,
        shown,
        Perm.trans
            (subst (λ es. Perm (entries_of cells) es)
              (ap (λ es. es ++ (key, value) ∷ survivors (is_key key) (entries_of rest))
                  (map-append (λ (d : Cell). d.entry) seen (c ∷ []))
                ∙ append_assoc (entries_of seen) (c.entry ∷ [])
                    ((key, value) ∷ survivors (is_key key) (entries_of rest)))
              p)
            (Perm.append_left (entries_of seen)
              (Perm.swap (key, value) c.entry (survivors (is_key key) (entries_of rest)))),
      ))

  pub search_loop :
      (fuel : ℕ) (seen todo : List Cell) (u : Upsert) (w : World)
      → u.found ≡ false
      → Stands seen todo u.it w
      → length todo < fuel
      → Ends (Searched seen todo u.unique_keys) (repeat fuel (insert_round key value) u w)
  search_loop zero seen todo u w new s h = absurd (omega arith)
  search_loop (suc fuel) seen [] u w new s h =
      rw (upsert_end u fuel w seen s)
        (inl (new, refl, (unfold distinct_keys in refl), rw append-nil (s.cursor, s.sees)))
  search_loop (suc fuel) seen (c ∷ rest) u w new s h =
      let ih =
        λ (u1 : Upsert) (w1 : World) (e : u1.found ≡ false)
            (st : Stands (seen ++ c ∷ []) rest u1.it w1).
          search_loop fuel (seen ++ c ∷ []) rest u1 w1 e st (omega arith) in
      elim (Bool-cases (bytes_eq c.entry.0 key)) [
        | inl t ↦
            Ends-repeat _ _ (insert_round key value) fuel u w (round_first seen c rest u w t new s)
              (λ r w1 q. rw (q.1) (
                Ends-map _ _ (repeat fuel (insert_round key value) q.0) w1
                  (λ r' w2 p. Searched-first seen c rest u.unique_keys r' w2 t p)
                  (Later-loop fuel (seen ++ overwritten c value f ∷ []) rest q.0 w1 (q.2.0)
                    (Yielded-Stands seen (overwritten c value f) rest q.0.it w1 q.2.1)
                    (omega arith))))
        | inr n ↦
            Ends-repeat _ _ (insert_round key value) fuel u w (round_miss seen c rest u w n s)
              (λ r w1 q. rw (q.1) (
                Ends-map _ _ (repeat fuel (insert_round key value) q.0) w1
                  (λ r' w2 p.
                    Searched-miss seen c rest u.unique_keys r' w2 n
                      (subst (λ ks. Searched (seen ++ c ∷ []) rest ks r' w2) (q.2.1) p))
                  (ih q.0 w1 (q.2.0 ∙ new) (Yielded-Stands seen c rest q.0.it w1 q.2.2))))
      ]
