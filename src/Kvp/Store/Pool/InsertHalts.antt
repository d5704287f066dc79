-- ===== src/Kvp/Store/Pool/InsertHalts.antt =====
-- The termination of `insert`.
use azure_init.Prelude.{
  ℕ, ◌+◌, ◌-◌, ◌*◌, ◌≤◌, ◌≢◌, inl, inr, true, false, Option, none, some, arith, leb, ◌==◌,
  if◌then◌else◌, Bytes, bytes_eq, Bool-cases, [], List, length,
}
use azure_init.Result.{err}
use azure_init.Kvp.Store.Policy.{
  validate_key, record_size, PoolMode, max_unique_keys, max_key_size, max_value_size,
  validate_value, wire_max_key_bytes, wire_max_value_bytes,
}
use azure_init.Kvp.Store.Record.{Entry, encode_record, zero_padded}
use azure_init.Kvp.Store.World.{
  World, Io, out_of_fuel, ◌>>=◌, ◌>>◌, pure, check, seek_start, write_all, stream_position,
  seek_end, flush, open_read_write_create,
}
use azure_init.Kvp.Store.World.Halts.{
  Halts, Any, Halts-bind, Halts-check, seek_start-Halts, write_all-Halts, flush-Halts,
  stream_position-Halts, seek_end-Halts, open_read_write_create-Halts,
}
use azure_init.Kvp.Store.Iter.{
  KvpPoolIter, next, new_iter, remove_current, append_record, overwrite_current_value,
}
use azure_init.Kvp.Store.Pool.{
  Round, again, done, repeat, rounds, Upsert, insert_round, append_unless_found, insert,
}
use azure_init.Kvp.Store.Pool.Terminates.{
  ahead, Advanced, Nearer, next-Halts, remove_current-Halts, repeat-Halts, new_iter_writing-Halts,
  Halts-scoped, not_exhausted,
}
use azure_init.Kvp.Store.KeySet.{set_insert}

append_record-Halts :
    (it : KvpPoolIter) (key value : Bytes) (w : World) → Halts Any (append_record it key value w)
unfolding append_record
append_record-Halts it key value w =
    Halts-bind Any Any stream_position _ w (stream_position-Halts w) (λ pos w1 _.
      Halts-bind Any Any seek_end _ w1 (seek_end-Halts w1) (λ _ w2 _.
        Halts-bind Any Any (write_all (encode_record key value)) _ w2
          (write_all-Halts (encode_record key value) w2)
          (λ _ w3 _.
            Halts-bind Any Any (seek_start pos) _ w3 (seek_start-Halts pos w3) (λ _ w4 _. tt {0}))))

overwrite-Halts :
    (it : KvpPoolIter) (value : Bytes) (w : World) → Halts Any (overwrite_current_value it value w)
unfolding overwrite_current_value
overwrite-Halts it value w = elim (Bool-cases (it.current_index == 0)) [
  | inl t ↦ rw t (tt {0})
  | inr f ↦
      let offset = (it.current_index - 1) * record_size + wire_max_key_bytes in
      rw f (
        Halts-bind Any Any (seek_start offset) _ w (seek_start-Halts offset w)
          (λ _ w1 _. write_all-Halts (zero_padded wire_max_value_bytes value) w1))
]

abbrev left_of : Upsert → ℕ
left_of u = ahead u.it

-- The round's three cases, on a record of the key and on another.
abbrev on_record :
    Bytes → Bytes → Upsert → List Bytes → Entry → KvpPoolIter → Io (Round Upsert Upsert)
on_record key value u keys e it' =
    if bytes_eq e.0 key
    then (if u.found
        then (do
          it'' ← remove_current it'
          pure (again (record { found = true; unique_keys = keys; it = it'' })))
        else (do
          overwrite_current_value it' value
          pure (again (record { found = true; unique_keys = keys; it = it' }))))
    else pure (again (record { found = u.found; unique_keys = keys; it = it' }))

on_record-Halts :
    (key value : Bytes) (u : Upsert) (keys : List Bytes) (e : Entry) (it' : KvpPoolIter) (w : World)
    → Advanced u.it (some e, it')
    → Halts (Nearer left_of u) (on_record key value u keys e it' w)
on_record-Halts key value u keys e it' w (c, i, l) = elim (Bool-cases (bytes_eq e.0 key)) [
  | inl t ↦ elim (Bool-cases u.found) [
    | inl y ↦
        rw (t, y)
          (Halts-bind (λ it''. ahead it'' ≤ ahead it') _ (remove_current it') _ w
            (remove_current-Halts it' w (omega arith) (omega arith)) (λ it'' w1 p. omega arith))
    | inr n ↦
        rw (t, n)
          (Halts-bind Any _ (overwrite_current_value it' value) _ w (overwrite-Halts it' value w)
            (λ _ w1 _. omega arith))
  ]
  | inr f ↦ rw f (omega arith)
]

insert_round-Halts :
    (key value : Bytes) (u : Upsert) (w : World)
    → Halts (Nearer left_of u) (insert_round key value u w)
unfolding insert_round
insert_round-Halts key value u w =
    Halts-bind (Advanced u.it) _ (next u.it) _ w (next-Halts u.it w) (λ r w1 q. after r w1 q)
  where
    after :
        (r : Option Entry × KvpPoolIter) (w1 : World)
        → Advanced u.it r
        → Halts (Nearer left_of u) (
            (elim r.0 as (λ x. Io (Round Upsert Upsert)) [
              | none ↦ pure (done u)
              | some e ↦ on_record key value u (set_insert e.0 u.unique_keys) e r.1
            ])
              w1)
    after (none, it') w1 q = tt {0}
    after (some e, it') w1 q = on_record-Halts key value u (set_insert e.0 u.unique_keys) e it' w1 q

append_unless_found-Halts :
    (key value : Bytes) (u : Upsert) (w : World) → Halts Any (append_unless_found key value u w)
unfolding append_unless_found
append_unless_found-Halts key value u w = elim (Bool-cases u.found) [
  | inl t ↦ rw t (tt {0})
  | inr f ↦ elim (Bool-cases (leb max_unique_keys (length u.unique_keys))) [
    | inl full ↦ rw (f, full) (tt {0})
    | inr room ↦
        rw (f, room)
          (Halts-bind Any Any (append_record u.it key value) (λ _. pure tt) w
            (append_record-Halts u.it key value w) (λ _ w1 _. tt {0}))
  ]
]

-- What `insert` runs on the iterator.
abbrev inserting : Bytes → Bytes → KvpPoolIter → Io (Unit {0})
inserting key value it = do
  u ←
      repeat (rounds it) (insert_round key value)
        (record { found = false; unique_keys = []; it = it })
  append_unless_found key value u
  flush

inserting-Halts :
    (key value : Bytes) (it : KvpPoolIter) (w : World) → Halts Any (inserting key value it w)
inserting-Halts key value it w =
    let first : Upsert = record { found = false; unique_keys = []; it = it } in
    Halts-bind Any Any (repeat (rounds it) (insert_round key value) first) _ w
      (repeat-Halts left_of (insert_round key value) (insert_round-Halts key value) (rounds it)
        first w (omega arith))
      (λ u w1 _.
        Halts-bind Any Any (append_unless_found key value u) (λ _. flush) w1
          (append_unless_found-Halts key value u w1) (λ _ w2 _. flush-Halts w2))

abbrev opening : Bytes → Bytes → Io (Unit {0})
opening key value = do open_read_write_create; it ← new_iter false; inserting key value it

-- `insert` never runs out of rounds: its loop ends by itself, whatever the key, the value and the
-- mode, whatever the file holds and whichever calls fail.
pub insert_halts :
    (mode : PoolMode) (key value : Bytes) (w : World)
    → (insert mode key value w).0 ≢ err out_of_fuel
unfolding insert
insert_halts mode key value w = not_exhausted (insert mode key value w) (
    Halts-bind Any Any (check (validate_key key (max_key_size mode))) _ w
      (Halts-check (validate_key key (max_key_size mode)) w)
      (λ _ w1 _.
        Halts-bind Any Any (check (validate_value value (max_value_size mode))) _ w1
          (Halts-check (validate_value value (max_value_size mode)) w1)
          (λ _ w2 _. Halts-scoped (opening key value) w2 (
            Halts-bind Any Any open_read_write_create _ w2 (open_read_write_create-Halts w2)
              (λ _ w3 _.
                Halts-bind Any Any (new_iter false) (inserting key value) w3
                  (new_iter_writing-Halts w3) (λ it w4 _. inserting-Halts key value it w4))))))
