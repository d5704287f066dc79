-- ===== src/Kvp/Store/World/Halts.antt =====
-- Actions that do not run out of fuel, whatever calls fail.
use azure_init.Prelude.{
  ℕ, List, [], ◌∷◌, Option, none, some, Bytes, ltb, length, drop, Bool-cases, inl, inr,
}
use azure_init.Result.{Result, ok, err}
use azure_init.Kvp.Error.{KvpError, ErrorKind}
use azure_init.Kvp.Store.World.{
  attempt, File, World, Io, Outcome, raised, out_of_fuel, Fault, pass, fail, syscall, continue,
  ◌>>=◌, check_io, check, open_existing, stat_file, open_read, open_read_write,
  open_read_write_create, metadata, flock_exclusive, flock_shared, fcntl_exclusive, fcntl_shared,
  read_exact, write_all, seek_start, seek_end, stream_position, set_len, flush, bytes_of, StatInfo,
}

-- It ends in a result that satisfies `Q`, or in an error.
abbrev pub Halts : {A : Type 0} → (A → Type 0) → Outcome A × World → Type 0
Halts Q (ok a, w) = Q a
Halts Q (err (raised e), w) = Unit
Halts Q (err out_of_fuel, w) = ⊥

abbrev pub Any : {A : Type 0} → A → Type 0
Any a = Unit

pub Halts-bind :
    {A B : Type 0} (P : A → Type 0) (Q : B → Type 0) (m : Io A) (f : A → Io B) (w : World)
    → Halts P (m w)
    → ((a : A) (w : World) → P a → Halts Q (f a w))
    → Halts Q ((m >>= f) w)
Halts-bind {A} P Q m f w h g = go (m w).0 (m w).1 h
  where
    go : (r : Outcome A) (w' : World) → Halts P (r, w') → Halts Q (continue r f w')
    go (ok a) w' p = g a w' p
    go (err (raised e)) w' p = tt
    go (err out_of_fuel) w' p = absurd p

pub Halts-syscall :
    {A : Type 0} (Q : A → Type 0) (partly : ℕ → World → World) (act : Io A) (w : World)
    → ((w : World) → Halts Q (act w))
    → Halts Q (syscall partly act w)
unfolding syscall
Halts-syscall Q partly act w h = go w.faults
  where
    go : (fs : List Fault) → Halts Q (attempt fs partly act w)
    go [] = h w
    go (pass ∷ fs) = h (record w { faults = fs })
    go (fail k n ∷ fs) = tt

pub Halts-check_io : {A : Type 0} (r : Result ErrorKind A) (w : World) → Halts Any (check_io r w)
Halts-check_io (ok a) w = tt
Halts-check_io (err e) w = tt

pub Halts-check : {A : Type 0} (r : Result KvpError A) (w : World) → Halts Any (check r w)
Halts-check (ok a) w = tt
Halts-check (err e) w = tt

pub seek_start-Halts : (n : ℕ) (w : World) → Halts Any (seek_start n w)
unfolding seek_start
seek_start-Halts n w = Halts-syscall Any _ _ w (λ w'. tt)

pub seek_end-Halts : (w : World) → Halts Any (seek_end w)
unfolding seek_end
seek_end-Halts w = Halts-syscall Any _ _ w (λ w'. tt)

pub stream_position-Halts : (w : World) → Halts Any (stream_position w)
unfolding stream_position
stream_position-Halts w = Halts-syscall Any _ _ w (λ w'. tt)

pub set_len-Halts : (n : ℕ) (w : World) → Halts Any (set_len n w)
unfolding set_len
set_len-Halts n w = Halts-syscall Any _ _ w (λ w'. tt)

pub flush-Halts : (w : World) → Halts Any (flush w)
unfolding flush
flush-Halts w = Halts-syscall Any _ _ w (λ w'. tt)

pub write_all-Halts : (b : Bytes) (w : World) → Halts Any (write_all b w)
unfolding write_all
write_all-Halts b w = Halts-syscall Any _ _ w (λ w'. tt)

pub read_exact-Halts : (n : ℕ) (w : World) → Halts Any (read_exact n w)
unfolding read_exact
read_exact-Halts n w = Halts-syscall Any _ _ w (λ w'.
    elim (Bool-cases (ltb (length (drop w'.cursor (bytes_of w'.file))) n)) [
      | inl t ↦ rw t tt
      | inr f ↦ rw f tt
    ])

opened : (o : Option File) (w : World) → Halts Any (open_existing o w)
opened none w = tt
opened (some f) w = tt

pub open_read-Halts : (w : World) → Halts Any (open_read w)
unfolding open_read
open_read-Halts w = Halts-syscall Any _ _ w (λ w'. opened w'.file w')

pub open_read_write-Halts : (w : World) → Halts Any (open_read_write w)
unfolding open_read_write
open_read_write-Halts w = Halts-syscall Any _ _ w (λ w'. opened w'.file w')

pub open_read_write_create-Halts : (w : World) → Halts Any (open_read_write_create w)
unfolding open_read_write_create
open_read_write_create-Halts w = Halts-syscall Any _ _ w (λ w'. tt)

statted : (o : Option File) (w : World) → Halts {A = StatInfo} Any (stat_file o w)
statted none w = tt
statted (some f) w = tt

pub metadata-Halts : (w : World) → Halts Any (metadata w)
unfolding metadata
metadata-Halts w = Halts-syscall Any _ _ w (λ w'. statted w'.file w')

pub flock_exclusive-Halts : (w : World) → Halts Any (flock_exclusive w)
unfolding flock_exclusive
flock_exclusive-Halts w = Halts-syscall Any _ _ w (λ w'. tt)

pub flock_shared-Halts : (w : World) → Halts Any (flock_shared w)
unfolding flock_shared
flock_shared-Halts w = Halts-syscall Any _ _ w (λ w'. tt)

pub fcntl_exclusive-Halts : (w : World) → Halts Any (fcntl_exclusive w)
unfolding fcntl_exclusive
fcntl_exclusive-Halts w = Halts-syscall Any _ _ w (λ w'. tt)

pub fcntl_shared-Halts : (w : World) → Halts Any (fcntl_shared w)
unfolding fcntl_shared
fcntl_shared-Halts w = Halts-syscall Any _ _ w (λ w'. tt)
