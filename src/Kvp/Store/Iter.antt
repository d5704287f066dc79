-- ===== src/Kvp/Store/Iter.antt =====
-- `lock_for_reading`, `lock_for_writing` and `KvpPoolIter` (store.rs).
pub mod Cells
pub mod Moved
pub mod Stands
pub mod Overwrite
pub mod Remove
pub mod Begin
use azure_init.Prelude.{
  ℕ, zero, suc, ◌+◌, ◌-◌, ◌*◌, ◌≡◌, Bool, true, false, Option, none, some, List, [], ◌∷◌, ◌++◌, leb,
  ◌==◌, if◌then◌else◌, Bytes,
}
use azure_init.Result.{Result, ok, err}
use azure_init.Kvp.Error.{ErrorKind, not_found, invalid_input, KvpError, io}
use azure_init.Kvp.Store.Policy.{wire_max_key_bytes, wire_max_value_bytes, record_size}
use azure_init.Kvp.Store.Record.{
  Entry, decode_record, zero_padded, encode_record, record_count_from_len,
}
use azure_init.Kvp.Store.World
use azure_init.Kvp.Store.World.{
  World, Io, Outcome, Stop, pure, raise, check_io, ◌>>=◌, ◌>>◌, flock_exclusive, flock_shared,
  flock_unlock, fcntl_exclusive, fcntl_shared, metadata, write_all, read_exact, seek_start,
  seek_end, stream_position, set_len,
}

-- `if let Err(e) = fcntl { let _ = flock_unlock(); return Err(e); }`
abbrev pub or_unlock : Outcome (Unit {0}) → Io (Unit {0})
or_unlock (ok u) w = (ok tt, w)
or_unlock (err e) w = (err e, (flock_unlock w).1)

unfoldable pub lock_for_writing : Io (Unit {0})
lock_for_writing = do flock_exclusive; λ w. or_unlock (fcntl_exclusive w).0 (fcntl_exclusive w).1

unfoldable pub lock_for_reading : Io (Unit {0})
lock_for_reading = do flock_shared; λ w. or_unlock (fcntl_shared w).0 (fcntl_shared w).1

-- The handle that the iterator owns is the one in the world.
pub record KvpPoolIter : Type 0 where
  pub record_count : ℕ
  pub current_index : ℕ

unfoldable pub new_iter : Bool → Io KvpPoolIter
new_iter read_only = do
  if read_only then lock_for_reading else lock_for_writing
  info ← metadata
  record_count ← check_io (record_count_from_len info.len)
  seek_start 0
  pure (record { record_count = record_count; current_index = 0 })

-- `append` of the iterator; its `debug_assert!` is no part of a release build.
unfoldable pub append_record : KvpPoolIter → Bytes → Bytes → Io KvpPoolIter
append_record it key value = do
  resume_pos ← stream_position
  pos ← seek_end
  write_all (encode_record key value)
  let it' = record it { record_count = it.record_count + 1 }
  seek_start resume_pos
  pure it'

-- The record that the cursor stands at; `none` at the end. An `Err` item is an error here, since
-- every caller passes it on with `?`.
unfoldable pub next : KvpPoolIter → Io (Option Entry × KvpPoolIter)
next it = if leb it.record_count it.current_index then pure (none, it) else do
  block ← read_exact record_size
  entry ← check_io (decode_record block)
  pure (some entry, record it { current_index = it.current_index + 1 })

unfoldable pub overwrite_current_value : KvpPoolIter → Bytes → Io (Unit {0})
overwrite_current_value it value = if it.current_index == 0 then raise (io invalid_input) else do
  let record_start = (it.current_index - 1) * record_size
  seek_start (record_start + wire_max_key_bytes)
  write_all (zero_padded wire_max_value_bytes value)

-- The last record moved to the slot of the deleted one, unless they are the same.
unfoldable pub fill_slot : ℕ → ℕ → KvpPoolIter → Io KvpPoolIter
fill_slot delete_index last_index it = if delete_index == last_index then pure it else do
  seek_start (last_index * record_size)
  block ← read_exact record_size
  seek_start (delete_index * record_size)
  write_all block
  seek_start (delete_index * record_size)
  pure (record it { current_index = delete_index })

unfoldable pub remove_current : KvpPoolIter → Io KvpPoolIter
unfolding fill_slot
remove_current it = if it.current_index == 0 then raise (io invalid_input) else do
  let last_index = it.record_count - 1
  it' ← fill_slot (it.current_index - 1) last_index it
  set_len (last_index * record_size)
  pure (record it' { record_count = it'.record_count - 1 })
