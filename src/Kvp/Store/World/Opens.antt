-- ===== src/Kvp/Store/World/Opens.antt =====
-- Opening the pool file and locking it, where no call fails.
use azure_init.Prelude.{ℕ, ◌≡◌, refl, sym, ap, ◌∙◌, subst, none, some, [], Bytes, length}
use azure_init.Prelude.Int.{ℤ}
use azure_init.Result.{ok, err}
use azure_init.Kvp.Error.{io, not_found}
use azure_init.Kvp.Store.World.{
  raised, World, syscall-quiet, open_read, open_read_write, open_read_write_create, open_existing,
  create_if_absent, fresh_handle, path_metadata, stat_file, flock_exclusive, flock_shared,
  fcntl_exclusive, fcntl_shared,
}
use azure_init.Kvp.Store.World.Ends.{Ends}
use azure_init.Kvp.Store.World.Sees.{Sees}

-- The pool file is there with these bytes, whoever holds a handle, and no call fails.
pub record Stores (content : Bytes) (w : World) : Type 0 where
  pub quiet : w.faults ≡ []
  pub mtime : ℤ
  pub file : w.file ≡ some (record { content = content; mtime = mtime })

-- There is no pool file, and no call fails.
pub record Absent (w : World) : Type 0 where
  pub quiet : w.faults ≡ []
  pub file : w.file ≡ none

pub Sees-Stores :
    {content : Bytes} {c : ℕ} {w : World} → Sees content c w → Stores content (fresh_handle w)
Sees-Stores s = record { quiet = s.quiet; mtime = s.mtime; file = s.file }

abbrev Opened : Bytes → Unit {0} → World → Type 0
Opened content _ w = Sees content 0 w

module _ {content : Bytes} {w : World} (s : Stores content w) where
  opened : Ends (Opened content) (open_existing w.file w)
  opened =
      subst (λ o. Ends (Opened content) (open_existing o w)) (sym s.file)
        (record { quiet = s.quiet; mtime = s.mtime; file = s.file; here = refl })

  pub open_read_lem : Ends (Opened content) (open_read w)
  unfolding open_read
  open_read_lem = rw (syscall-quiet _ _ w s.quiet) opened

  pub open_read_write_lem : Ends (Opened content) (open_read_write w)
  unfolding open_read_write
  open_read_write_lem = rw (syscall-quiet _ _ w s.quiet) opened

  pub open_read_write_create_lem : Ends (Opened content) (open_read_write_create w)
  unfolding open_read_write_create
  open_read_write_create_lem = rw (syscall-quiet _ _ w s.quiet) (
      subst (λ o. Sees content 0 (fresh_handle (create_if_absent o w))) (sym s.file)
        (record { quiet = s.quiet; mtime = s.mtime; file = s.file; here = refl }))

-- A pool file that is not there is created empty.
pub open_create-Absent : {w : World} → Absent w → Ends (Opened []) (open_read_write_create w)
unfolding open_read_write_create
open_create-Absent {w} a = rw (syscall-quiet _ _ w a.quiet) (
    subst (λ o. Sees [] 0 (fresh_handle (create_if_absent o w))) (sym a.file)
      (record { quiet = a.quiet; mtime = w.now; file = refl; here = refl }))

module _ {content : Bytes} {c : ℕ} {w : World} (s : Sees content c w) where
  pub flock_exclusive_lem : Ends (λ _ w'. Sees content c w') (flock_exclusive w)
  unfolding flock_exclusive
  flock_exclusive_lem =
      rw (syscall-quiet _ _ w s.quiet)
        (record { quiet = s.quiet; mtime = s.mtime; file = s.file; here = s.here })

  pub flock_shared_lem : Ends (λ _ w'. Sees content c w') (flock_shared w)
  unfolding flock_shared
  flock_shared_lem =
      rw (syscall-quiet _ _ w s.quiet)
        (record { quiet = s.quiet; mtime = s.mtime; file = s.file; here = s.here })

  pub fcntl_exclusive_lem : Ends (λ _ w'. Sees content c w') (fcntl_exclusive w)
  unfolding fcntl_exclusive
  fcntl_exclusive_lem =
      rw (syscall-quiet _ _ w s.quiet)
        (record { quiet = s.quiet; mtime = s.mtime; file = s.file; here = s.here })

  pub fcntl_shared_lem : Ends (λ _ w'. Sees content c w') (fcntl_shared w)
  unfolding fcntl_shared
  fcntl_shared_lem =
      rw (syscall-quiet _ _ w s.quiet)
        (record { quiet = s.quiet; mtime = s.mtime; file = s.file; here = s.here })

-- Without a file, opening it to read, or to write, fails with `NotFound`.
pub open_read-Absent : {w : World} → Absent w → open_read w ≡ (err (raised (io not_found)), w)
unfolding open_read
open_read-Absent {w} a = syscall-quiet _ _ w a.quiet ∙ ap (λ o. open_existing o w) a.file

pub open_read_write-Absent :
    {w : World} → Absent w → open_read_write w ≡ (err (raised (io not_found)), w)
unfolding open_read_write
open_read_write-Absent {w} a = syscall-quiet _ _ w a.quiet ∙ ap (λ o. open_existing o w) a.file

pub path_metadata-Absent :
    {w : World} → Absent w → path_metadata w ≡ (err (raised (io not_found)), w)
unfolding path_metadata
path_metadata-Absent {w} a = syscall-quiet _ _ w a.quiet ∙ ap (λ o. stat_file o w) a.file

pub path_metadata_lem :
    {content : Bytes} {w : World} (s : Stores content w)
    → path_metadata w ≡ (ok (record { len = length content; mtime = s.mtime }), w)
unfolding path_metadata
path_metadata_lem {content} {w} s = syscall-quiet _ _ w s.quiet ∙ ap (λ o. stat_file o w) s.file
