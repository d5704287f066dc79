-- ===== src/Kvp/Store/Iter/Begin.antt =====
-- `KvpPoolIter::new` and `append` in a well-formed pool.
use azure_init.Prelude.{
  ℕ, ◌+◌, ◌≡◌, refl, Bool, true, false, List, [], ◌∷◌, ◌++◌, arith, Bytes, length, append-nil,
  if◌then◌else◌,
}
use azure_init.Result.{ok, err}
use azure_init.Kvp.Store.Record.{Entry, encode_record}
use azure_init.Kvp.Store.Record.RoundTrip.{EntryFits}
use azure_init.Kvp.Store.World.{
  World, seek_start, seek_end, stream_position, write_all, metadata, flock_exclusive, flock_shared,
  fcntl_exclusive, fcntl_shared, Outcome,
}
use azure_init.Kvp.Store.World.Ends.{Ends, Ends-bind, Ends-map}
use azure_init.Kvp.Store.World.Sees.{
  Sees, Sees-cast, seek_start_lem, seek_end_lem, stream_position_lem, write_end_lem, metadata_lem,
}
use azure_init.Kvp.Store.Iter.{
  KvpPoolIter, append_record, new_iter, lock_for_writing, lock_for_reading, or_unlock,
}
use azure_init.Kvp.Store.Iter.Cells.{
  Cell, bytes_of_cells, bytes-append, encoded, record_count-bytes, block-encoded,
}
use azure_init.Kvp.Store.World.Opens.{
  flock_exclusive_lem, flock_shared_lem, fcntl_exclusive_lem, fcntl_shared_lem,
}
use azure_init.Kvp.Store.Iter.Stands.{Stands}

or_unlock_lem :
    (Q : World → Type 0) (r : Outcome (Unit {0})) (w : World)
    → Ends (λ _ w'. Q w') (r, w)
    → Ends (λ _ w'. Q w') (or_unlock r w)
or_unlock_lem Q (ok u) w h = h
or_unlock_lem Q (err e) w h = absurd h

module _ {content : Bytes} {c : ℕ} {w : World} (s : Sees content c w) where
  pub lock_for_writing_lem : Ends (λ _ w'. Sees content c w') (lock_for_writing w)
  unfolding lock_for_writing
  lock_for_writing_lem =
      Ends-bind (λ _ w'. Sees content c w') _ flock_exclusive _ w (flock_exclusive_lem s)
        (λ _ w1 s1.
          or_unlock_lem (Sees content c) (fcntl_exclusive w1).0 (fcntl_exclusive w1).1
            (fcntl_exclusive_lem s1))

  pub lock_for_reading_lem : Ends (λ _ w'. Sees content c w') (lock_for_reading w)
  unfolding lock_for_reading
  lock_for_reading_lem =
      Ends-bind (λ _ w'. Sees content c w') _ flock_shared _ w (flock_shared_lem s)
        (λ _ w1 s1.
          or_unlock_lem (Sees content c) (fcntl_shared w1).0 (fcntl_shared w1).1
            (fcntl_shared_lem s1))

  lock_lem :
      (read_only : Bool)
      → Ends
          (λ _ w'. Sees content c w')
          ((if read_only then lock_for_reading else lock_for_writing) w)
  lock_lem true = lock_for_reading_lem
  lock_lem false = lock_for_writing_lem

Stands-nil :
    (cells : List Cell) (w : World)
    → Sees (bytes_of_cells cells) 0 w
    → Stands [] cells (record { record_count = length cells; current_index = 0 }) w
Stands-nil [] w s = record { count = refl; past = omega arith; cursor = 0; sees = s }
Stands-nil (c ∷ cells) w s = record {
  count = omega arith;
  index = refl;
  sees = Sees-cast s refl (omega arith);
}

-- The iterator starts before the first record and counts them all.
pub new_iter_lem :
    (cells : List Cell) (read_only : Bool) (c : ℕ) (w : World)
    → Sees (bytes_of_cells cells) c w
    → Ends
        (λ it w'.
          (it ≡ record { record_count = length cells; current_index = 0 })
          × Stands [] cells it w'
          × Sees (bytes_of_cells cells) 0 w')
        (new_iter read_only w)
unfolding new_iter
new_iter_lem cells read_only c w s =
    Ends-bind (λ _ w'. Sees (bytes_of_cells cells) c w') _
      (if read_only then lock_for_reading else lock_for_writing) _ w (lock_lem s read_only)
      (λ _ w1 s1.
        Ends-bind
          (λ info w'. (info.len ≡ length (bytes_of_cells cells)) × Sees (bytes_of_cells cells) c w')
          _ metadata _ w1 (Ends-map _ _ metadata w1 (λ info w' q. (q.0, q.2)) (metadata_lem s1))
          (λ info w2 q.
            rw (q.0, record_count-bytes cells)
              (Ends-bind (λ _ w'. Sees (bytes_of_cells cells) 0 w') _ (seek_start 0) _ w2
                (seek_start_lem q.1 0) (λ _ w3 s3. (refl, Stands-nil cells w3 s3, s3)))))

-- A record is added behind the others, and the cursor is where it was.
pub append_record_lem :
    (cells : List Cell) (e : Entry) (h : EntryFits e) (it : KvpPoolIter) (c : ℕ) (w : World)
    → Sees (bytes_of_cells cells) c w
    → Ends
        (λ it' w'.
          (it' ≡ record it { record_count = it.record_count + 1 })
          × Sees (bytes_of_cells (cells ++ encoded e h ∷ [])) c w')
        (append_record it e.0 e.1 w)
unfolding append_record
append_record_lem cells e h it c w s =
    Ends-bind (λ n w'. (n ≡ c) × Sees (bytes_of_cells cells) c w') _ stream_position _ w
      (stream_position_lem s)
      (λ n w1 q1. Ends-bind _ _ seek_end _ w1 (seek_end_lem q1.1) (λ _ w2 q2.
        Ends-bind _ _ (write_all (encode_record e.0 e.1)) _ w2
          (write_end_lem q2.1 (encode_record e.0 e.1) refl)
          (λ _ w3 s3.
            Ends-bind (λ _ w'. Sees (bytes_of_cells cells ++ encode_record e.0 e.1) n w') _
              (seek_start n) _ w3 (seek_start_lem s3 n)
              (λ _ w4 s4. (
                refl,
                Sees-cast s4
                    (simp (bytes-append cells (encoded e h ∷ []), block-encoded, append-nil))
                    (q1.0),
              )))))
