-- ===== src/Kvp/Store/Pool/Terminates.antt =====
-- Rules for the termination of loops over the pool, for any file and any failing calls.
use azure_init.Prelude.{
  ℕ, zero, suc, ◌+◌, ◌-◌, ◌*◌, ◌≤◌, ◌<◌, ◌≡◌, ◌≢◌, refl, ◌⊎◌, inl, inr, Bool, true, false, Option,
  none, some, arith, leb, ◌==◌, Bool-cases,
}
use azure_init.Result.{ok, err}
use azure_init.Kvp.Error.{KvpError}
use azure_init.Kvp.Store.Policy.{record_size}
use azure_init.Kvp.Store.Record.{Entry, decode_record, record_count_from_len}
use azure_init.Kvp.Store.World.{
  World, Io, Outcome, raised, out_of_fuel, check_io, close, read_exact, seek_start, set_len,
  write_all, open_read_write, metadata, flock_exclusive, fcntl_exclusive, is_not_found,
}
use azure_init.Kvp.Store.World.Halts.{
  Halts, Any, Halts-bind, Halts-check_io, seek_start-Halts, set_len-Halts, write_all-Halts,
  read_exact-Halts, open_read_write-Halts, metadata-Halts, flock_exclusive-Halts,
  fcntl_exclusive-Halts, flush-Halts,
}
use azure_init.Kvp.Store.Iter.{
  KvpPoolIter, next, new_iter, remove_current, fill_slot, lock_for_writing, or_unlock,
}
use azure_init.Kvp.Store.Pool.{
  Round, again, done, repeat, proceed, scoped, or_missing, unless_not_found, iter_mut, flush_if,
}

-- How many records the iterator has before it.
abbrev pub ahead : KvpPoolIter → ℕ
ahead it = it.record_count - it.current_index

-- A record was returned, and the iterator has gone over it; or there was none.
abbrev pub Advanced : KvpPoolIter → Option Entry × KvpPoolIter → Type 0
Advanced it (none, it') = Unit
Advanced it (some e, it') =
    (it'.record_count ≡ it.record_count)
    × (it'.current_index ≡ it.current_index + 1)
    × (it.current_index < it.record_count)

pub next-Halts : (it : KvpPoolIter) (w : World) → Halts (Advanced it) (next it w)
unfolding next
next-Halts it w = elim (Bool-cases (leb it.record_count it.current_index)) [
  | inl t ↦ rw t tt
  | inr f ↦ rw f (
      Halts-bind Any _ (read_exact record_size) _ w (read_exact-Halts record_size w) (λ b w1 _.
        Halts-bind Any _ (check_io (decode_record b)) _ w1 (Halts-check_io (decode_record b) w1)
          (λ e w2 _. (refl, refl, ground arith))))
]

pub fill_slot-Halts :
    (n m : ℕ) (it : KvpPoolIter) (w : World)
    → Halts
        (λ it'.
          (it'.record_count ≡ it.record_count)
          × ((it' ≡ it) × (n ≡ m) ⊎ (it'.current_index ≡ n) × (n ≢ m)))
        (fill_slot n m it w)
unfolding fill_slot
fill_slot-Halts n m it w = elim (Bool-cases (n == m)) [
  | inl t ↦ rw t (refl, inl (refl, ground arith))
  | inr f ↦ rw f (
      Halts-bind Any _ (seek_start (m * record_size)) _ w (seek_start-Halts (m * record_size) w)
        (λ _ w1 _.
          Halts-bind Any _ (read_exact record_size) _ w1 (read_exact-Halts record_size w1)
            (λ b w2 _.
              Halts-bind Any _ (seek_start (n * record_size)) _ w2
                (seek_start-Halts (n * record_size) w2)
                (λ _ w3 _. Halts-bind Any _ (write_all b) _ w3 (write_all-Halts b w3) (λ _ w4 _.
                  Halts-bind Any _ (seek_start (n * record_size)) _ w4
                    (seek_start-Halts (n * record_size) w4)
                    (λ _ w5 _. (refl, inr (refl, ground arith))))))))
]

pub remove_current-Halts :
    (it : KvpPoolIter) (w : World)
    → 0 < it.current_index
    → it.current_index ≤ it.record_count
    → Halts (λ it'. ahead it' ≤ ahead it) (remove_current it w)
unfolding remove_current
remove_current-Halts it w pos within =
    let some_read : (it.current_index == 0) ≡ false = ground arith in
    rw some_read (
      Halts-bind _ _ (fill_slot (it.current_index - 1) (it.record_count - 1) it) _ w
        (fill_slot-Halts (it.current_index - 1) (it.record_count - 1) it w)
        (λ it1 w1 q.
          Halts-bind Any _ (set_len ((it.record_count - 1) * record_size)) _ w1
            (set_len-Halts ((it.record_count - 1) * record_size) w1) (λ _ w2 _. ground arith)))

-- A round that goes on has brought the iterator nearer to its end.
abbrev pub Nearer : {S R : Type 0} → (S → ℕ) → S → Round S R → Type 0
Nearer measure s (again s') = measure s' < measure s
Nearer measure s (done r) = Unit

pub repeat-Halts :
    {S R : Type 0} (measure : S → ℕ) (body : S → Io (Round S R))
    → ((s : S) (w : World) → Halts (Nearer measure s) (body s w))
    → (fuel : ℕ) (s : S) (w : World) → measure s < fuel
    → Halts Any (repeat fuel body s w)
unfolding repeat
repeat-Halts measure body h zero s w lt = absurd (omega arith)
repeat-Halts {S} {R} measure body h (suc fuel) s w lt =
    let ih =
      λ (s' : S) (w' : World) (p : measure s' < fuel). repeat-Halts measure body h fuel s' w' p in
    Halts-bind (Nearer measure s) Any (body s) (proceed (repeat fuel body)) w (h s w)
      (λ r w1 q. step ih r w1 q)
  where
    step :
        ((s' : S) (w' : World) → measure s' < fuel → Halts {A = R} Any (repeat fuel body s' w'))
        → (r : Round S R) (w' : World) → Nearer measure s r
        → Halts Any (proceed (repeat fuel body) r w')
    step ih (again s') w' q = ih s' w' (omega arith)
    step ih (done r) w' q = tt

pub Halts-or_unlock :
    (r : Outcome (Unit {0})) (w : World) → Halts Any (r, w) → Halts Any (or_unlock r w)
Halts-or_unlock (ok u) w h = tt
Halts-or_unlock (err (raised e)) w h = tt
Halts-or_unlock (err out_of_fuel) w h = absurd h

pub lock_for_writing-Halts : (w : World) → Halts Any (lock_for_writing w)
unfolding lock_for_writing
lock_for_writing-Halts w =
    Halts-bind Any Any flock_exclusive _ w (flock_exclusive-Halts w) (λ _ w1 _.
      Halts-or_unlock (fcntl_exclusive w1).0 (fcntl_exclusive w1).1 (fcntl_exclusive-Halts w1))

pub new_iter_writing-Halts : (w : World) → Halts Any (new_iter false w)
unfolding new_iter
new_iter_writing-Halts w =
    Halts-bind Any Any lock_for_writing _ w (lock_for_writing-Halts w) (λ _ w1 _.
      Halts-bind Any Any metadata _ w1 (metadata-Halts w1) (λ info w2 _.
        Halts-bind Any Any (check_io (record_count_from_len info.len)) _ w2
          (Halts-check_io (record_count_from_len info.len) w2)
          (λ n w3 _.
            Halts-bind Any Any (seek_start 0) _ w3 (seek_start-Halts 0 w3) (λ _ w4 _. tt))))

pub iter_mut-Halts : (w : World) → Halts Any (iter_mut w)
unfolding iter_mut
iter_mut-Halts w =
    Halts-bind Any Any open_read_write _ w (open_read_write-Halts w)
      (λ _ w1 _. new_iter_writing-Halts w1)

pub Halts-or_missing :
    {A B : Type 0} (m : Io A) (default : B) (f : A → Io B) (w : World)
    → Halts Any (m w)
    → ((a : A) (w : World) → Halts Any (f a w))
    → Halts Any (or_missing m default f w)
Halts-or_missing {A} m default f w h g = go (m w).0 (m w).1 h
  where
    stop :
        (e : KvpError) (w' : World) (b : Bool)
        → is_not_found (raised e) ≡ b
        → Halts Any (unless_not_found default f (err (raised e)) w')
    stop e w' true q = rw q tt
    stop e w' false q = rw q tt

    go :
        (r : Outcome A) (w' : World)
        → Halts Any (r, w')
        → Halts Any (unless_not_found default f r w')
    go (ok a) w' p = g a w'
    go (err (raised e)) w' p = stop e w' (is_not_found (raised e)) refl
    go (err out_of_fuel) w' p = absurd p

pub Halts-scoped : {A : Type 0} (m : Io A) (w : World) → Halts Any (m w) → Halts Any (scoped m w)
Halts-scoped {A} m w h = go (m w).0 (m w).1 h
  where
    go : (r : Outcome A) (w' : World) → Halts Any (r, w') → Halts Any (r, close w')
    go (ok a) w' p = tt
    go (err (raised e)) w' p = tt
    go (err out_of_fuel) w' p = absurd p

pub flush_if-Halts : (b : Bool) (w : World) → Halts Any (flush_if b w)
flush_if-Halts true w = flush-Halts w
flush_if-Halts false w = tt

-- An action that halts has not used up its rounds.
pub not_exhausted : {A : Type 0} (p : Outcome A × World) → Halts Any p → p.0 ≢ err out_of_fuel
not_exhausted (ok a, w) h e = absurd (cc)
not_exhausted (err (raised x), w) h e = absurd (cc)
not_exhausted (err out_of_fuel, w) h e = absurd h
