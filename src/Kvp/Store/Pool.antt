-- ===== src/Kvp/Store/Pool.antt =====
-- The operations of `KvpPoolStore` (store.rs), each as an action on the world.
pub mod Rules
pub mod Scans
pub mod Appends
pub mod Removals
pub mod Deletes
pub mod Upserts
pub mod Inserts
pub mod Stale
pub mod Rejects
pub mod Terminates
pub mod DeleteHalts
pub mod InsertHalts
use azure_init.Prelude.{
  ℕ, zero, suc, ◌+◌, ◌-◌, ◌^◌, ◌≡◌, Bool, true, false, ◌||◌, Option, none, some, List, [], ◌∷◌,
  ◌++◌, ltb, leb, ◌==◌, if◌then◌else◌, Bytes, bytes_eq, length,
}
use azure_init.Prelude.Int.{ℤ, leb_ℤ}
use azure_init.Result.{Result, ok, err}
use azure_init.Kvp.Error.{KvpError, io, max_unique_keys_exceeded}
use azure_init.Kvp.Store.Policy.{
  max_unique_keys, usize_max, PoolMode, max_key_size, max_value_size, validate_key, validate_value,
}
use azure_init.Kvp.Store.Record.{Entry, record_count_from_len}
use azure_init.Kvp.Store.KeySet.{
  set_contains, set_insert, distinct_keys, validate_records, collect_keys,
}
use azure_init.Kvp.Store.World.{
  World, Io, Outcome, Stop, pure, raise, exhausted, check, check_io, ◌>>=◌, ◌>>◌, is_not_found,
  close, open_read, open_read_write, open_read_write_create, path_metadata, metadata, boot_time,
  set_len, flush,
}
use azure_init.Kvp.Store.Iter.{
  KvpPoolIter, new_iter, next, append_record, overwrite_current_value, remove_current,
  lock_for_writing,
}

-- A block at whose end the handle is dropped, on an error too.
abbrev pub scoped : {A : Type 0} → Io A → Io A
scoped m w = ((m w).0, close (m w).1)

-- `match m { Ok(x) => f(x), Err(NotFound) => return Ok(default), Err(e) => return Err(e) }`
abbrev pub unless_not_found : {A B : Type 0} → B → (A → Io B) → Outcome A → Io B
unless_not_found default f (ok a) w = f a w
unless_not_found default f (err s) w = if is_not_found s then (ok default, w) else (err s, w)

abbrev pub or_missing : {A B : Type 0} → Io A → B → (A → Io B) → Io B
or_missing m default f w = unless_not_found default f (m w).0 (m w).1

-- One round of a `while` loop goes on with the loop's variables, or ends the loop.
pub data Round (S R : Type 0) : Type 0 where
  again : S → Round S R
  done : R → Round S R

-- The case is left as a function, so that a round's call waits for its test.
abbrev pub proceed : {S R : Type 0} → (S → Io R) → Round S R → Io R
proceed f (again s) w = f s w
proceed f (done r) w = (ok r, w)

unfoldable pub repeat : {S R : Type 0} → ℕ → (S → Io (Round S R)) → S → Io R
repeat zero body s = exhausted
repeat (suc fuel) body s = body s >>= proceed (repeat fuel body)

-- A loop over the iterator makes a round for each record and one that finds the end.
abbrev pub rounds : KvpPoolIter → ℕ
rounds it = it.record_count + 1

unfoldable pub append : PoolMode → Bytes → Bytes → Io (Unit {0})
append mode key value = do
  check (validate_key key (max_key_size mode))
  check (validate_value value (max_value_size mode))
  scoped (do open_read_write_create; it ← new_iter false; _ ← append_record it key value; flush)

-- `for (k, v) in records { iter.append(k, v)?; }`
unfoldable pub append_all : KvpPoolIter → List Entry → Io KvpPoolIter
append_all it [] = pure it
append_all it ((k, v) ∷ rest) = do it' ← append_record it k v; append_all it' rest

abbrev pub truncate_if : Bool → KvpPoolIter → Io KvpPoolIter
truncate_if false it = pure it
truncate_if true it = do set_len 0; pure (record it { record_count = 0 })

unfoldable pub write_records_locked : List Entry → Bool → Io (Unit {0})
write_records_locked records truncate = scoped (do
  open_read_write_create
  it ← new_iter false
  it' ← truncate_if truncate it
  _ ← append_all it' records
  flush)

unfoldable pub append_multiple : PoolMode → List Entry → Io (Unit {0})
append_multiple mode [] = pure tt
append_multiple mode (r ∷ records) = do
  check (validate_records mode (r ∷ records))
  write_records_locked (r ∷ records) false

unfoldable pub clear : Io (Unit {0})
clear = scoped (or_missing open_read_write tt (λ _. do lock_for_writing; set_len 0))

unfoldable pub clear_if_stale : Io (Unit {0})
clear_if_stale = scoped (
    or_missing open_read_write tt (λ _. do
      booted ← boot_time
      lock_for_writing
      info ← metadata
      if leb_ℤ info.mtime booted then set_len 0 else pure tt))

unfoldable pub iter : Io KvpPoolIter
iter = do open_read; new_iter true

unfoldable pub iter_mut : Io KvpPoolIter
iter_mut = do open_read_write; new_iter false

abbrev pub flush_if : Bool → Io (Unit {0})
flush_if true = flush
flush_if false = pure tt

unfoldable pub delete_round : Bytes → Bool × KvpPoolIter → Io (Round (Bool × KvpPoolIter) Bool)
delete_round key (found, it) = do
  (item, it') ← next it
  elim item [
    | none ↦ pure (done found)
    | some e ↦
        if bytes_eq e.0 key
        then (do it'' ← remove_current it'; pure (again (true, it'')))
        else pure (again (found, it'))
  ]

unfoldable pub delete : Bytes → Io Bool
delete key = do
  check (validate_key key usize_max)
  scoped (
      or_missing iter_mut false (λ it. do
        found ← repeat (rounds it) (delete_round key) (false, it)
        flush_if found
        pure found))

unfoldable pub delete_multiple_round : List Bytes → ℕ × KvpPoolIter → Io (Round (ℕ × KvpPoolIter) ℕ)
delete_multiple_round keys (removed, it) = do
  (item, it') ← next it
  elim item [
    | none ↦ pure (done removed)
    | some e ↦
        if set_contains keys e.0
        then (do it'' ← remove_current it'; pure (again (removed + 1, it'')))
        else pure (again (removed, it'))
  ]

abbrev pub delete_collected : List Bytes → Io ℕ
delete_collected [] = pure 0
delete_collected (k ∷ keys) = scoped (
    or_missing iter_mut 0 (λ it. do
      removed ← repeat (rounds it) (delete_multiple_round (k ∷ keys)) (0, it)
      flush_if (ltb 0 removed)
      pure removed))

unfoldable pub delete_multiple : List Bytes → Io ℕ
delete_multiple keys = do to_delete ← check (collect_keys keys []); delete_collected to_delete

-- `for record in iter.by_ref() { acc = f(acc, record?); }`
unfoldable pub fold_round :
    {A : Type 0} → (A → Entry → A) → A × KvpPoolIter → Io (Round (A × KvpPoolIter) A)
fold_round f (acc, it) = do
  (item, it') ← next it
  elim item [ none ↦ pure (done acc) | some e ↦ pure (again (f acc e, it')) ]

abbrev pub push : List Entry → Entry → List Entry
push records e = records ++ e ∷ []

unfoldable pub dump : Io (List Entry)
dump = scoped (or_missing iter [] (λ it. repeat (rounds it) (fold_round push) ([], it)))

-- A `HashMap` from keys to values, each key once.
abbrev pub Map : Type 0
Map = List Entry

unfoldable pub map_insert : Map → Entry → Map
map_insert [] e = e ∷ []
map_insert ((k, v) ∷ m) e = if bytes_eq k e.0 then e ∷ m else (k, v) ∷ map_insert m e

unfoldable pub map_get : Bytes → Map → Option Bytes
map_get key [] = none
map_get key ((k, v) ∷ m) = if bytes_eq k key then some v else map_get key m

unfoldable pub entries : Io Map
entries = scoped (or_missing iter [] (λ it. repeat (rounds it) (fold_round map_insert) ([], it)))

-- The loop's variables in `insert`: `found`, `unique_keys` and the iterator.
pub record Upsert : Type 0 where
  pub found : Bool
  pub unique_keys : List Bytes
  pub it : KvpPoolIter

unfoldable pub insert_round : Bytes → Bytes → Upsert → Io (Round Upsert Upsert)
unfolding set_insert
insert_round key value u = do
  (item, it') ← next u.it
  elim item [
    | none ↦ pure (done u)
    | some e ↦
        let keys = set_insert e.0 u.unique_keys in
        if bytes_eq e.0 key
        then (if u.found
            then (do
              it'' ← remove_current it'
              pure (again (record { found = true; unique_keys = keys; it = it'' })))
            else (do
              overwrite_current_value it' value
              pure (again (record { found = true; unique_keys = keys; it = it' }))))
        else pure (again (record { found = u.found; unique_keys = keys; it = it' }))
  ]

unfoldable pub append_unless_found : Bytes → Bytes → Upsert → Io (Unit {0})
append_unless_found key value u =
    if u.found
    then pure tt
    else if leb max_unique_keys (length u.unique_keys)
    then raise (max_unique_keys_exceeded max_unique_keys)
    else (do _ ← append_record u.it key value; pure tt)

unfoldable pub insert : PoolMode → Bytes → Bytes → Io (Unit {0})
insert mode key value = do
  check (validate_key key (max_key_size mode))
  check (validate_value value (max_value_size mode))
  scoped (do
    open_read_write_create
    it ← new_iter false
    u ←
        repeat (rounds it) (insert_round key value)
          (record { found = false; unique_keys = []; it = it })
    append_unless_found key value u
    flush)

unfoldable pub len : Io ℕ
len w = or_missing path_metadata 0 (λ info. check_io (record_count_from_len info.len)) w

unfoldable pub is_empty : Io Bool
is_empty = do n ← len; pure (n == 0)

unfoldable pub is_stale : Io Bool
is_stale =
    or_missing path_metadata false (λ info. do booted ← boot_time; pure (leb_ℤ info.mtime booted))

unfoldable pub load : PoolMode → List Entry → Io (Unit {0})
load mode records = do
  check (validate_records mode records)
  (if ltb max_unique_keys (length (distinct_keys records []))
      then raise (max_unique_keys_exceeded max_unique_keys)
      else write_records_locked records true)

abbrev pub keep_last : Bytes → Option Bytes → Entry → Option Bytes
keep_last key result e = if bytes_eq e.0 key then some e.1 else result

unfoldable pub read : Bytes → Io (Option Bytes)
read key = do
  check (validate_key key usize_max)
  scoped (or_missing iter none (λ it. repeat (rounds it) (fold_round (keep_last key)) (none, it)))
