-- ===== src/Kvp/Store/Tests.antt =====
-- Runs of the store, and the theorems about it applied to a pool of three records.
use azure_init.Prelude.{
  ◌≤◌, ◌≡◌, ◌≢◌, refl, true, false, none, some, List, [], ◌∷◌, ◌++◌, inl, arith, ltb, Bytes, codes,
  contains-Lacks, contains, bytes_eq, length,
}
use azure_init.Prelude.Int.{pos}
use azure_init.Result.{ok, err}
use azure_init.Utf8.{is_utf8}
use azure_init.Kvp.Error.{empty_key, value_contains_null}
use azure_init.Kvp.Store.Policy.{
  safe, usize_max, max_unique_keys, max_key_size, max_value_size, validate_key, validate_value,
}
use azure_init.Kvp.Store.Record.{Entry, encode_record, decode_record}
use azure_init.Kvp.Store.Record.RoundTrip.{EntryFits, decode_record-encode_record}
use azure_init.Kvp.Store.KeySet.{set_insert, set_contains, distinct_keys}
use azure_init.Kvp.Store.World.{World, out_of_fuel}
use azure_init.Kvp.Store.World.Ends.{Ends}
use azure_init.Kvp.Store.Iter.Cells.{Cell, encoded, bytes_of_cells}
use azure_init.Kvp.Store.Survivors.{hits}
use azure_init.Kvp.Store.Pool.{
  map_get, append, append_multiple, load, clear, clear_if_stale, is_stale, dump, entries, read, len,
  is_empty, delete, delete_multiple, insert,
}
use azure_init.Kvp.Store.Pool.Rules.{Contains}
use azure_init.Kvp.Store.Pool.Scans.{last_value, dump-Contains, read-Contains, entries-Contains}
use azure_init.Kvp.Store.Pool.Appends.{
  is_there, Accepted, append-Contains, append_multiple-Contains, load-Contains, clear-Contains,
  len-Contains,
}
use azure_init.Kvp.Store.Pool.Removals.{Survive}
use azure_init.Kvp.Store.Pool.Deletes.{is_key, Cleared, delete-Contains, delete_multiple-Contains}
use azure_init.Kvp.Store.Pool.Inserts.{Inserted, insert-Inserted}
use azure_init.Kvp.Store.Pool.Stale.{clear_if_stale-is_stale}
use azure_init.Kvp.Store.Pool.Rejects.{
  Refuses, IsKey, IsValue, no_key, nul_in_value, append-insert-Refuses, batch-Refuses,
}
use azure_init.Kvp.Store.Pool.DeleteHalts.{delete_halts}
use azure_init.Kvp.Store.Pool.InsertHalts.{insert_halts}

abbrev state : Bytes
state = codes "state"

abbrev report : Bytes
report = codes "report"

abbrev pub first : Entry
first = (state, codes "up")

abbrev pub second : Entry
second = (report, codes "ok")

abbrev pub third : Entry
third = (state, codes "down")

pub first_fits : EntryFits first
first_fits =
    unfold is_utf8 in
    (
      record { short = omega arith; no_nul = ground arith; utf8 = refl },
      record { short = omega arith; no_nul = ground arith; utf8 = refl },
    )

pub second_fits : EntryFits second
second_fits =
    unfold is_utf8 in
    (
      record { short = omega arith; no_nul = ground arith; utf8 = refl },
      record { short = omega arith; no_nul = ground arith; utf8 = refl },
    )

pub third_fits : EntryFits third
third_fits =
    unfold is_utf8 in
    (
      record { short = omega arith; no_nul = ground arith; utf8 = refl },
      record { short = omega arith; no_nul = ground arith; utf8 = refl },
    )

abbrev cells : List Cell
cells = encoded first first_fits ∷ encoded second second_fits ∷ encoded third third_fits ∷ []

abbrev pub three : List Entry
three = first ∷ second ∷ third ∷ []

abbrev pub pool : World
pool = record {
  file = some (record { content = bytes_of_cells cells; mtime = pos 7 });
  cursor = 0;
  flock = none;
  fcntl = none;
  faults = [];
  now = pos 9;
  boot = pos 8;
}

pub pool-Contains : Contains three pool
unfolding encoded
pool-Contains = inl (record {
  cells = cells;
  read_as = refl;
  stores = record { quiet = refl; mtime = pos 7; file = refl };
})

abbrev fresh : Entry
fresh = (codes "new", codes "1")

pub first-Accepted : Accepted safe first
unfolding validate_key validate_value is_utf8 contains max_key_size max_value_size
first-Accepted = record { key_valid = refl; value_valid = refl; key_utf8 = refl; value_utf8 = refl }

fresh-Accepted : Accepted safe fresh
unfolding validate_key validate_value is_utf8 contains max_key_size max_value_size
fresh-Accepted = record { key_valid = refl; value_valid = refl; key_utf8 = refl; value_utf8 = refl }

dump-Contains_example : Ends (λ r w'. (r ≡ three) × Contains three w') (dump pool)
dump-Contains_example = dump-Contains three pool pool-Contains

state_valid : validate_key state usize_max ≡ ok tt
unfolding validate_key contains
state_valid = refl

read-Contains_example :
    Ends (λ r w'. (r ≡ last_value state three) × Contains three w') (read state pool)
read-Contains_example = read-Contains state three pool state_valid pool-Contains

entries-Contains_example :
    Ends (λ m w'. (map_get state m ≡ last_value state three) × Contains three w') (entries pool)
entries-Contains_example = entries-Contains state three pool pool-Contains

append-Contains_example :
    Ends (λ _ w'. Contains (three ++ fresh ∷ []) w') (append safe fresh.0 fresh.1 pool)
append-Contains_example =
    append-Contains safe fresh.0 fresh.1 three pool fresh-Accepted pool-Contains

append_multiple-Contains_example :
    Ends
      (λ _ w'. Contains (three ++ fresh ∷ first ∷ []) w')
      (append_multiple safe (fresh ∷ first ∷ []) pool)
append_multiple-Contains_example =
    append_multiple-Contains safe (fresh ∷ first ∷ []) three pool
      (fresh-Accepted, (first-Accepted, tt)) pool-Contains

two_keys : length (distinct_keys (fresh ∷ first ∷ []) []) ≤ max_unique_keys
unfolding distinct_keys set_insert bytes_eq
two_keys = omega arith

load-Contains_example :
    Ends (λ _ w'. Contains (fresh ∷ first ∷ []) w') (load safe (fresh ∷ first ∷ []) pool)
load-Contains_example =
    load-Contains safe (fresh ∷ first ∷ []) three pool (fresh-Accepted, (first-Accepted, tt))
      two_keys pool-Contains

clear-Contains_example :
    Ends (λ _ w'. Contains [] w' × (is_there w'.file ≡ is_there pool.file)) (clear pool)
clear-Contains_example = clear-Contains three pool pool-Contains

len-Contains_example : (len pool ≡ (ok 3, pool)) × (is_empty pool ≡ (ok false, pool))
len-Contains_example = len-Contains three pool pool-Contains

delete-Contains_example :
    Ends
      (λ r w'. (r ≡ ltb 0 (hits (is_key state) three)) × Survive (is_key state) three w')
      (delete state pool)
delete-Contains_example = delete-Contains state three pool state_valid pool-Contains

delete_multiple-Contains_example :
    Ends
      (Cleared (set_contains (state ∷ report ∷ [])) three)
      (delete_multiple (state ∷ report ∷ []) pool)
delete_multiple-Contains_example =
    delete_multiple-Contains (state ∷ report ∷ []) three pool
      (state_valid, (unfold validate_key contains in refl, tt)) pool-Contains

insert-Inserted_example : Inserted state (codes "up") three (insert safe state (codes "up") pool)
insert-Inserted_example =
    insert-Inserted safe state (codes "up") three pool first-Accepted pool-Contains

clear_if_stale-is_stale_example :
    (is_stale pool ≡ (ok true, pool)) × Ends (λ _ w'. Contains [] w') (clear_if_stale pool)
clear_if_stale-is_stale_example = clear_if_stale-is_stale three pool pool-Contains

append-insert-Refuses_example :
    Refuses empty_key (append safe [] state) pool × Refuses empty_key (insert safe [] state) pool
append-insert-Refuses_example = append-insert-Refuses safe [] state empty_key pool (no_key refl)

state_IsKey : IsKey safe state
state_IsKey = ((λ h. cc), contains-Lacks 0 state (unfold contains in refl), omega arith)

up_IsValue : IsValue safe (codes "up")
up_IsValue = (contains-Lacks 0 (codes "up") (unfold contains in refl), omega arith)

-- The entry with the fault is the second.
batch-Refuses_example :
    Refuses value_contains_null (append_multiple safe (first ∷ (state, 0 ∷ []) ∷ second ∷ [])) pool
    × Refuses value_contains_null (load safe (first ∷ (state, 0 ∷ []) ∷ second ∷ [])) pool
batch-Refuses_example =
    batch-Refuses safe (first ∷ []) (second ∷ []) state (0 ∷ []) value_contains_null pool
      ((state_IsKey, up_IsValue), tt) (nul_in_value state_IsKey (λ h. h.0 refl))

delete_halts_example : (delete state pool).0 ≢ err out_of_fuel
delete_halts_example = delete_halts state pool

decode_record-encode_record_example : decode_record (encode_record state (codes "up")) ≡ ok first
decode_record-encode_record_example = decode_record-encode_record first first_fits

insert_halts_example : (insert safe state (codes "up") pool).0 ≢ err out_of_fuel
insert_halts_example = insert_halts safe state (codes "up") pool
