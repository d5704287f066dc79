-- ===== src/Kvp/Store/World.antt =====
-- What the store asks of the system (`SysOps` and `Handle` of store.rs), over one pool file.
--
-- Every call takes the next entry of `faults`: it goes through, or it fails with an error. A call
-- that fails changes nothing, but a write may have written some of its bytes before it fails.
pub mod Layout
pub mod Ends
pub mod Sees
pub mod Opens
pub mod Halts
use azure_init.Prelude.{
  ℕ, zero, suc, ◌+◌, ◌-◌, ◌≡◌, ap, Bool, true, false, Option, none, some, List, [], ◌∷◌, ◌++◌, ltb,
  if◌then◌else◌, Bytes, length, take, drop, replicate,
}
use azure_init.Prelude.Int.{ℤ}
use azure_init.Result.{Result, ok, err}
use azure_init.Kvp.Error.{ErrorKind, not_found, unexpected_eof, KvpError, io}

pub record File : Type 0 where
  pub content : Bytes
  pub mtime : ℤ

pub data Lock : Type 0 where
  shared exclusive : Lock

pub data Fault : Type 0 where
  pass : Fault
  fail : ErrorKind → ℕ → Fault

-- `cursor`, `flock` and `fcntl` belong to the open handle. `boot` is what `boot_time` reads from
-- /proc/stat, and `now` is the time that a write leaves on the file.
pub record World : Type 0 where
  pub file : Option File
  pub cursor : ℕ
  pub flock : Option Lock
  pub fcntl : Option Lock
  pub faults : List Fault
  pub now : ℤ
  pub boot : ℤ

-- Why an action stops: with an error, or as the bound on a loop's rounds is used up.
pub data Stop : Type 0 where
  raised : KvpError → Stop
  out_of_fuel : Stop

abbrev pub Outcome : Type 0 → Type 0
Outcome A = Result Stop A

-- What was written before an error stays written, so the world comes back beside the error too.
abbrev pub Io : Type 0 → Type 0
Io A = World → Outcome A × World

abbrev pub pure : {A : Type 0} → A → Io A
pure a w = (ok a, w)

abbrev pub raise : {A : Type 0} → KvpError → Io A
raise e w = (err (raised e), w)

abbrev pub exhausted : {A : Type 0} → Io A
exhausted w = (err out_of_fuel, w)

abbrev pub continue : {A B : Type 0} → Outcome A → (A → Io B) → Io B
continue (ok a) f w = f a w
continue (err s) f w = (err s, w)

infixl 5 ◌>>=◌ ◌>>◌
abbrev pub ◌>>=◌ : {A B : Type 0} → Io A → (A → Io B) → Io B
◌>>=◌ m f w = continue (m w).0 f (m w).1

abbrev pub ◌>>◌ : {B : Type 0} → Io (Unit {0}) → Io B → Io B
m >> k = m >>= λ _. k

-- `?` on a value of `Result<_, KvpError>`.
abbrev pub check : {A : Type 0} → Result KvpError A → Io A
check (ok a) = pure a
check (err e) = raise e

-- `?` on a value of `io::Result`, by `From<io::Error>`.
abbrev pub check_io : {A : Type 0} → Result ErrorKind A → Io A
check_io (ok a) = pure a
check_io (err k) = raise (io k)

-- `Err(e) if e.kind() == NotFound`.
abbrev pub is_not_found : Stop → Bool
is_not_found (raised (io not_found)) = true
is_not_found _ = false

-- Runs the call, or fails as the next fault says; `partly n` is what a failing call has done.
abbrev pub attempt : {A : Type 0} → List Fault → (ℕ → World → World) → Io A → Io A
attempt [] partly act w = act w
attempt (pass ∷ fs) partly act w = act (record w { faults = fs })
attempt (fail k n ∷ fs) partly act w = (err (raised (io k)), partly n (record w { faults = fs }))

unfoldable pub syscall : {A : Type 0} → (ℕ → World → World) → Io A → Io A
syscall partly act w = attempt w.faults partly act w

-- With no fault to come, a call goes through.
pub syscall-quiet :
    {A : Type 0} (partly : ℕ → World → World) (act : Io A) (w : World)
    → w.faults ≡ []
    → syscall partly act w ≡ act w
unfolding syscall
syscall-quiet partly act w h = ap (λ fs. attempt fs partly act w) h

abbrev pub unchanged : ℕ → World → World
unchanged n w = w

-- A fresh handle stands at the file's start and holds no lock.
abbrev pub fresh_handle : World → World
fresh_handle w = record w { cursor = 0; flock = none; fcntl = none }

-- Dropping the handle closes its descriptor, which releases the locks.
abbrev pub close : World → World
close w = fresh_handle w

abbrev pub open_existing : Option File → Io (Unit {0})
open_existing none w = raise (io not_found) w
open_existing (some f) w = (ok tt, fresh_handle w)

abbrev pub create_if_absent : Option File → World → World
create_if_absent none w = record w { file = some (record { content = []; mtime = w.now }) }
create_if_absent (some f) w = w

unfoldable pub open_read : Io (Unit {0})
open_read = syscall unchanged (λ w. open_existing w.file w)

unfoldable pub open_read_write : Io (Unit {0})
open_read_write = syscall unchanged (λ w. open_existing w.file w)

unfoldable pub open_read_write_create : Io (Unit {0})
open_read_write_create = syscall unchanged (λ w. (ok tt, fresh_handle (create_if_absent w.file w)))

pub record StatInfo : Type 0 where
  pub len : ℕ
  pub mtime : ℤ

abbrev pub stat : File → StatInfo
stat f = record { len = length f.content; mtime = f.mtime }

abbrev pub stat_file : Option File → Io StatInfo
stat_file none = raise (io not_found)
stat_file (some f) = pure (stat f)

-- `SysOps::path_metadata`, and `Handle::metadata` on the open file.
unfoldable pub path_metadata : Io StatInfo
path_metadata = syscall unchanged (λ w. stat_file w.file w)

unfoldable pub metadata : Io StatInfo
metadata = syscall unchanged (λ w. stat_file w.file w)

unfoldable pub boot_time : Io ℤ
boot_time = syscall unchanged (λ w. (ok w.boot, w))

unfoldable pub flock_exclusive : Io (Unit {0})
flock_exclusive = syscall unchanged (λ w. (ok tt, record w { flock = some exclusive }))

unfoldable pub flock_shared : Io (Unit {0})
flock_shared = syscall unchanged (λ w. (ok tt, record w { flock = some shared }))

unfoldable pub flock_unlock : Io (Unit {0})
flock_unlock = syscall unchanged (λ w. (ok tt, record w { flock = none }))

unfoldable pub fcntl_exclusive : Io (Unit {0})
fcntl_exclusive = syscall unchanged (λ w. (ok tt, record w { fcntl = some exclusive }))

unfoldable pub fcntl_shared : Io (Unit {0})
fcntl_shared = syscall unchanged (λ w. (ok tt, record w { fcntl = some shared }))

-- The file's bytes; the open handle of a file that is there.
abbrev pub bytes_of : Option File → Bytes
bytes_of none = []
bytes_of (some f) = f.content

-- The file with other bytes, modified now.
abbrev pub rewrite : Option File → Bytes → World → World
rewrite none bytes w = w
rewrite (some f) bytes w = record w { file = some (record { content = bytes; mtime = w.now }) }

-- Bytes written at an offset, over what is there; a gap behind the end is filled with zeros.
unfoldable pub write_at : ℕ → Bytes → Bytes → Bytes
write_at offset bytes content =
    take offset (content ++ replicate (offset - length content) 0)
    ++ (bytes ++ drop (offset + length bytes) content)

-- The file cut, or filled up with zeros, to a length.
unfoldable pub resize : ℕ → Bytes → Bytes
resize len content = take len content ++ replicate (len - length content) 0

abbrev pub written : Bytes → World → World
written bytes w =
    rewrite w.file (write_at w.cursor bytes (bytes_of w.file))
      (record w { cursor = w.cursor + length bytes })

unfoldable pub write_all : Bytes → Io (Unit {0})
write_all bytes = syscall (λ n w. written (take n bytes) w) (λ w. (ok tt, written bytes w))

abbrev pub read_here : ℕ → Bytes → Io Bytes
read_here n rest w =
    if ltb (length rest) n
    then (err (raised (io unexpected_eof)), record w { cursor = w.cursor + length rest })
    else (ok (take n rest), record w { cursor = w.cursor + n })

unfoldable pub read_exact : ℕ → Io Bytes
read_exact n = syscall unchanged (λ w. read_here n (drop w.cursor (bytes_of w.file)) w)

unfoldable pub seek_start : ℕ → Io (Unit {0})
seek_start offset = syscall unchanged (λ w. (ok tt, record w { cursor = offset }))

-- `seek(SeekFrom::End(0))`
unfoldable pub seek_end : Io ℕ
seek_end =
    syscall unchanged
      (λ w. (ok (length (bytes_of w.file)), record w { cursor = length (bytes_of w.file) }))

unfoldable pub stream_position : Io ℕ
stream_position = syscall unchanged (λ w. (ok w.cursor, w))

unfoldable pub set_len : ℕ → Io (Unit {0})
set_len len = syscall unchanged (λ w. (ok tt, rewrite w.file (resize len (bytes_of w.file)) w))

unfoldable pub flush : Io (Unit {0})
flush = syscall unchanged (λ w. (ok tt, w))
