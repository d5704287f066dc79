-- ===== src/Kvp/Store/Pool/Removals.antt =====
-- `delete` and `delete_multiple`: one loop, which removes the records whose keys are hit.
use mathlib.Core.List.{Perm, map-append}
use azure_init.Prelude.{
  ℕ, zero, suc, ◌<◌, ◌≡◌, refl, sym, ap, ◌∙◌, subst, Bool, true, false, none, some, List, [], ◌∷◌,
  ◌++◌, inl, inr, arith, Bytes, length, append_assoc, append-nil, if◌then◌else◌, Bool-cases,
}
use azure_init.Result.{ok}
use azure_init.Kvp.Store.Record.{Entry}
use azure_init.Kvp.Store.World.{World, Io, pure, ◌>>=◌, ◌>>◌, open_read_write}
use azure_init.Kvp.Store.World.Ends.{Ends, Ends-bind, Ends-map}
use azure_init.Kvp.Store.World.Sees.{Sees, flush_lem}
use azure_init.Kvp.Store.World.Opens.{Absent, open_read_write_lem, open_read_write-Absent}
use azure_init.Kvp.Store.Iter.{KvpPoolIter, next, new_iter, remove_current}
use azure_init.Kvp.Store.Iter.Cells.{Cell, bytes_of_cells, entries_of}
use azure_init.Kvp.Store.Iter.Stands.{
  AtEnd, Before, Yielded, Stands, next_end, next_cell, Yielded-Stands,
}
use azure_init.Kvp.Store.Iter.Begin.{new_iter_lem}
use azure_init.Kvp.Store.Pool.{
  Round, again, done, repeat, rounds, scoped, or_missing, iter_mut, flush_if,
}
use azure_init.Kvp.Store.Pool.Rules.{
  Holds, Contains, Holds-of, Shows, Ends-scoped, Ends-or_missing, Ends-repeat,
}
use mathlib.Core.List.Perm
use azure_init.Kvp.Store.Iter.Moved.{moved, map-moved, length-moved}
use azure_init.Kvp.Store.Iter.Remove.{remove_current_lem}
use azure_init.Kvp.Store.Survivors.{survivors, hits, hits-moved, survivors-moved}

-- The round that both loops make: `bump` counts a removal.
unfoldable pub remove_round :
    {A : Type 0} → (Bytes → Bool) → (A → A) → A × KvpPoolIter → Io (Round (A × KvpPoolIter) A)
remove_round hit bump (acc, it) = do
  (item, it') ← next it
  elim item [
    | none ↦ pure (done acc)
    | some e ↦
        if hit e.0
        then (do it'' ← remove_current it'; pure (again (bump acc, it'')))
        else pure (again (acc, it'))
  ]

abbrev pub times : {A : Type 0} → (A → A) → ℕ → A → A
times bump zero acc = acc
times bump (suc n) acc = times bump n (bump acc)

-- The file holds, in some order, the seen entries and the survivors of the others.
abbrev pub Left : (Bytes → Bool) → List Cell → List Entry → World → Type 0
Left hit seen todo w =
    (cells : List Cell) × Shows cells w
    × Perm (entries_of cells) (entries_of seen ++ survivors hit todo)

abbrev Removed :
    {A : Type 0} → (Bytes → Bool) → (A → A) → A → List Cell → List Entry → A → World → Type 0
Removed hit bump acc seen todo r w = (r ≡ times bump (hits hit todo) acc) × Left hit seen todo w

module _ (hit : Bytes → Bool) (seen : List Cell) (c : Cell) (rest : List Cell) (w : World) where
  pub Left-hit :
      hit c.entry.0 ≡ true
      → Left hit seen (entries_of (moved rest)) w
      → Left hit seen (entries_of (c ∷ rest)) w
  Left-hit t (cells, shown, p) = rw t (
    cells,
    shown,
    Perm.trans p (
        Perm.append_left (entries_of seen) (
          subst (λ es. Perm (survivors hit es) (survivors hit (entries_of rest)))
            (sym (map-moved (λ (d : Cell). d.entry) rest))
            (survivors-moved hit (entries_of rest)))),
  )

  pub Left-miss :
      hit c.entry.0 ≡ false
      → Left hit (seen ++ c ∷ []) (entries_of rest) w
      → Left hit seen (entries_of (c ∷ rest)) w
  Left-miss f (cells, shown, p) = rw f (
    cells,
    shown,
    subst (λ es. Perm (entries_of cells) es)
        (ap (λ es. es ++ survivors hit (entries_of rest))
            (map-append (λ (d : Cell). d.entry) seen (c ∷ []))
          ∙ append_assoc (entries_of seen) (c.entry ∷ []) (survivors hit (entries_of rest)))
        p,
  )

module _ {A : Type 0} (hit : Bytes → Bool) (bump : A → A) where
  remove_end :
      (acc : A) (fuel : ℕ) (it : KvpPoolIter) (w : World) (seen : List Cell)
      → AtEnd seen it w
      → repeat (suc fuel) (remove_round hit bump) (acc, it) w ≡ (ok acc, w)
  unfolding repeat remove_round
  remove_end acc fuel it w seen a = rw (next_end seen it w a)

  remove_hit :
      (seen : List Cell) (c : Cell) (rest : List Cell) (acc : A) (it : KvpPoolIter) (w : World)
      → hit c.entry.0 ≡ true
      → Before seen c rest it w
      → Ends
          (λ r w'.
            (it' : KvpPoolIter) × (r ≡ again (bump acc, it')) × Stands seen (moved rest) it' w')
          (remove_round hit bump (acc, it) w)
  unfolding remove_round
  remove_hit seen c rest acc it w h b =
      Ends-bind _ _ (next it) _ w (next_cell seen c rest it w b) (λ p w1 q.
        rw (q.0, h)
          (Ends-bind _ _ (remove_current p.1) _ w1 (remove_current_lem seen c rest p.1 w1 q.1)
            (λ it2 w2 st. (it2, refl, st))))

  remove_miss :
      (seen : List Cell) (c : Cell) (rest : List Cell) (acc : A) (it : KvpPoolIter) (w : World)
      → hit c.entry.0 ≡ false
      → Before seen c rest it w
      → Ends
          (λ r w'. (it' : KvpPoolIter) × (r ≡ again (acc, it')) × Yielded seen c rest it' w')
          (remove_round hit bump (acc, it) w)
  unfolding remove_round
  remove_miss seen c rest acc it w h b =
      Ends-bind _ _ (next it) _ w (next_cell seen c rest it w b)
        (λ p w1 q. rw (q.0, h) (p.1, refl, q.1))

  Removed-hit :
      (seen : List Cell) (c : Cell) (rest : List Cell) (acc r : A) (w : World)
      → hit c.entry.0 ≡ true
      → Removed hit bump (bump acc) seen (entries_of (moved rest)) r w
      → Removed hit bump acc seen (entries_of (c ∷ rest)) r w
  Removed-hit seen c rest acc r w t p = (
    p.0
        ∙ ap (λ n. times bump n (bump acc))
            (ap (hits hit) (map-moved (λ (d : Cell). d.entry) rest)
              ∙ hits-moved hit (entries_of rest))
        ∙ rw t,
    Left-hit hit seen c rest w t p.1,
  )

  Removed-miss :
      (seen : List Cell) (c : Cell) (rest : List Cell) (acc r : A) (w : World)
      → hit c.entry.0 ≡ false
      → Removed hit bump acc (seen ++ c ∷ []) (entries_of rest) r w
      → Removed hit bump acc seen (entries_of (c ∷ rest)) r w
  Removed-miss seen c rest acc r w f p = (p.0 ∙ rw f, Left-miss hit seen c rest w f p.1)

  remove_loop :
      (fuel : ℕ) (seen todo : List Cell) (acc : A) (it : KvpPoolIter) (w : World)
      → Stands seen todo it w
      → length todo < fuel
      → Ends
          (Removed hit bump acc seen (entries_of todo))
          (repeat fuel (remove_round hit bump) (acc, it) w)
  remove_loop zero seen todo acc it w s h = absurd (omega arith)
  remove_loop (suc fuel) seen [] acc it w s h =
      rw (remove_end acc fuel it w seen s, append-nil)
        (refl, (seen, (s.cursor, s.sees), Perm.refl (entries_of seen)))
  remove_loop (suc fuel) seen (c ∷ rest) acc it w s h =
      let ih_hit = λ (it1 : KvpPoolIter) (w1 : World) (st : Stands seen (moved rest) it1 w1).
        remove_loop fuel seen (moved rest) (bump acc) it1 w1 st
          (omega (arith, length-moved rest)) in
      let ih_miss = λ (it1 : KvpPoolIter) (w1 : World) (st : Stands (seen ++ c ∷ []) rest it1 w1).
        remove_loop fuel (seen ++ c ∷ []) rest acc it1 w1 st (omega arith) in
      elim (Bool-cases (hit c.entry.0)) [
        | inl t ↦
            Ends-repeat _ _ (remove_round hit bump) fuel (acc, it) w
              (remove_hit seen c rest acc it w t s)
              (λ r w1 q. rw (q.1) (
                Ends-map _ _ (repeat fuel (remove_round hit bump) (bump acc, q.0)) w1
                  (λ r' w2 p. Removed-hit seen c rest acc r' w2 t p) (ih_hit q.0 w1 q.2)))
        | inr f ↦
            Ends-repeat _ _ (remove_round hit bump) fuel (acc, it) w
              (remove_miss seen c rest acc it w f s)
              (λ r w1 q. rw (q.1) (
                Ends-map _ _ (repeat fuel (remove_round hit bump) (acc, q.0)) w1
                  (λ r' w2 p. Removed-miss seen c rest acc r' w2 f p)
                  (ih_miss q.0 w1 (Yielded-Stands seen c rest q.0 w1 q.2))))
      ]

-- The records of the keys that are hit are gone, and the others are there, as often as before.
abbrev pub Survive : (Bytes → Bool) → List Entry → World → Type 0
Survive hit es w = (rest : List Entry) × Perm rest (survivors hit es) × Contains rest w

-- The scope that both operations run: the loop, and a flush as `changed` says.
abbrev pub removing : {A : Type 0} → (Bytes → Bool) → (A → A) → (A → Bool) → A → Io A
removing hit bump changed start = scoped (
    or_missing iter_mut start (λ it. do
      r ← repeat (rounds it) (remove_round hit bump) (start, it)
      flush_if (changed r)
      pure r))

flush_if_lem :
    {content : Bytes} {c : ℕ} {w : World} (b : Bool)
    → Sees content c w
    → Ends (λ _ w'. Sees content c w') (flush_if b w)
flush_if_lem true s = flush_lem s
flush_if_lem false s = s

module _ {A : Type 0} (hit : Bytes → Bool) (bump : A → A) (changed : A → Bool) (start : A) where
  abbrev pub Post : List Entry → A → World → Type 0
  Post es r w = (r ≡ times bump (hits hit es) start) × Survive hit es w

  removing_present :
      (es : List Entry) (w : World)
      → Holds es w
      → Ends (Post es) (removing hit bump changed start w)
  unfolding iter_mut
  removing_present es w h =
      Ends-scoped (Removed hit bump start [] (entries_of h.cells)) (Post es)
        (or_missing iter_mut start (λ it. do
          r ← repeat (rounds it) (remove_round hit bump) (start, it)
          flush_if (changed r)
          pure r))
        w
        (Ends-or_missing (λ it w'. (it.record_count ≡ length h.cells) × Stands [] h.cells it w')
          (Removed hit bump start [] (entries_of h.cells)) iter_mut start
          (λ it. do
            r ← repeat (rounds it) (remove_round hit bump) (start, it)
            flush_if (changed r)
            pure r)
          w
          (Ends-bind (λ _ w'. Sees (bytes_of_cells h.cells) 0 w') _ open_read_write
            (λ _. new_iter false) w (open_read_write_lem h.stores)
            (λ _ w1 s1.
              Ends-map _ _ (new_iter false) w1
                (λ it w2 q. (ap (λ (i : KvpPoolIter). i.record_count) q.0, q.1))
                (new_iter_lem h.cells false 0 w1 s1)))
          (λ it w1 q.
            Ends-bind _ _ (repeat (rounds it) (remove_round hit bump) (start, it)) _ w1
              (remove_loop hit bump (rounds it) [] h.cells start it w1 q.1 (omega (arith, q.0)))
              (λ r w2 p.
                Ends-bind _ _ (flush_if (changed r)) _ w2 (flush_if_lem (changed r) p.1.1.1)
                  (λ _ w3 s3. (p.0, (p.1.0, (p.1.1.0, s3), p.1.2))))))
        (λ r w1 p.
          rw (← h.read_as)
            (p.0, (entries_of p.1.0, p.1.2, inl (Holds-of p.1.0 (entries_of p.1.0) w1 refl p.1.1))))

  removing-Absent : (w : World) → Absent w → Ends (Post []) (removing hit bump changed start w)
  unfolding iter_mut
  removing-Absent w a =
      rw (open_read_write-Absent a)
        (refl, ([], Perm.refl [], inr (refl, record { quiet = a.quiet; file = a.file })))

  pub removing_lem :
      (es : List Entry) (w : World)
      → Contains es w
      → Ends (Post es) (removing hit bump changed start w)
  removing_lem es w (inl h) = removing_present es w h
  removing_lem es w (inr (e, a)) = rw e (removing-Absent w a)
