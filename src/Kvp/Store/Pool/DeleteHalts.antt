-- ===== src/Kvp/Store/Pool/DeleteHalts.antt =====
-- The termination of `delete`.
use azure_init.Prelude.{
  ℕ, ◌≤◌, ◌≢◌, inl, inr, Bool, true, false, Option, none, some, arith, if◌then◌else◌, Bytes,
  bytes_eq, Bool-cases,
}
use azure_init.Result.{err}
use azure_init.Kvp.Store.Policy.{usize_max, validate_key}
use azure_init.Kvp.Store.Record.{Entry}
use azure_init.Kvp.Store.World.{World, Io, out_of_fuel, ◌>>=◌, ◌>>◌, pure, check}
use azure_init.Kvp.Store.World.Halts.{Halts, Any, Halts-bind, Halts-check}
use azure_init.Kvp.Store.Iter.{KvpPoolIter, next, remove_current}
use azure_init.Kvp.Store.Pool.{
  Round, again, done, repeat, rounds, or_missing, iter_mut, delete_round, delete, flush_if,
}
use azure_init.Kvp.Store.Pool.Terminates.{
  ahead, Advanced, Nearer, next-Halts, remove_current-Halts, repeat-Halts, iter_mut-Halts,
  Halts-or_missing, Halts-scoped, flush_if-Halts, not_exhausted,
}

abbrev remaining : Bool × KvpPoolIter → ℕ
remaining s = ahead s.1

delete_round-Halts :
    (key : Bytes) (s : Bool × KvpPoolIter) (w : World)
    → Halts (Nearer remaining s) (delete_round key s w)
unfolding delete_round
delete_round-Halts key (found, it) w =
    Halts-bind (Advanced it) _ (next it) _ w (next-Halts it w) (λ r w1 q. after r w1 q)
  where
    after :
        (r : Option Entry × KvpPoolIter) (w1 : World)
        → Advanced it r
        → Halts (Nearer remaining (found, it)) (
            (elim r.0 as (λ x. Io (Round (Bool × KvpPoolIter) Bool)) [
              | none ↦ pure (done found)
              | some e ↦
                  if bytes_eq e.0 key
                  then (remove_current r.1 >>= λ it''. pure (again (true, it'')))
                  else pure (again (found, r.1))
            ])
              w1)
    after (none, it') w1 q = tt
    after (some e, it') w1 (c, i, l) = elim (Bool-cases (bytes_eq e.0 key)) [
      | inl t ↦ rw t (
          Halts-bind (λ it''. ahead it'' ≤ ahead it') _ (remove_current it') _ w1
            (remove_current-Halts it' w1 (omega arith) (omega arith)) (λ it'' w2 p. omega arith))
      | inr f ↦ rw f (omega arith)
    ]

-- What `delete` runs on the open pool, and what its loop is followed by.
abbrev reported : Bool → Io Bool
reported found = flush_if found >> pure found

abbrev deleting : Bytes → KvpPoolIter → Io Bool
deleting key it = repeat (rounds it) (delete_round key) (false, it) >>= reported

deleting-Halts : (key : Bytes) (it : KvpPoolIter) (w : World) → Halts Any (deleting key it w)
deleting-Halts key it w =
    Halts-bind Any Any (repeat (rounds it) (delete_round key) (false, it)) reported w
      (repeat-Halts remaining (delete_round key) (delete_round-Halts key) (rounds it) (false, it) w
        (omega arith))
      (λ found w1 _.
        Halts-bind Any Any (flush_if found) (λ _. pure found) w1 (flush_if-Halts found w1)
          (λ _ w2 _. tt {0}))

-- `delete` never runs out of rounds: its loop ends by itself, whatever the key, whatever the file
-- holds and whichever calls fail.
pub delete_halts : (key : Bytes) (w : World) → (delete key w).0 ≢ err out_of_fuel
unfolding delete
delete_halts key w = not_exhausted (delete key w) (
    Halts-bind Any Any (check (validate_key key usize_max)) _ w
      (Halts-check (validate_key key usize_max) w)
      (λ _ w1 _. Halts-scoped (or_missing iter_mut false (deleting key)) w1 (
        Halts-or_missing iter_mut false (deleting key) w1 (iter_mut-Halts w1)
          (deleting-Halts key))))
