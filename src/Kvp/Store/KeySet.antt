-- ===== src/Kvp/Store/KeySet.antt =====
-- Sets of keys (`HashSet<String>`), and the loops of store.rs that validate their input.
use azure_init.Prelude.{Bool, false, ◌||◌, List, [], ◌∷◌, if◌then◌else◌, Bytes, bytes_eq}
use azure_init.Result.{Result, ok, ◌>>◌}
use azure_init.Kvp.Error.{KvpError}
use azure_init.Kvp.Store.Policy.{
  usize_max, PoolMode, max_key_size, max_value_size, validate_key, validate_value,
}
use azure_init.Kvp.Store.Record.{Entry}

-- A `HashSet` of keys: each key once. `insert` leaves a set alone that has the key.
unfoldable pub set_contains : List Bytes → Bytes → Bool
set_contains [] key = false
set_contains (k ∷ ks) key = bytes_eq k key || set_contains ks key

unfoldable pub set_insert : Bytes → List Bytes → List Bytes
unfolding set_contains
set_insert key ks = if set_contains ks key then ks else key ∷ ks

-- The loop of `delete_multiple` that validates and collects the keys.
unfoldable pub collect_keys : List Bytes → List Bytes → Result KvpError (List Bytes)
collect_keys [] ks = ok ks
collect_keys (key ∷ rest) ks =
    let go = collect_keys rest (set_insert key ks) in do validate_key key usize_max; go

-- The distinct keys of a list, as `load` counts them.
unfoldable pub distinct_keys : List Entry → List Bytes → List Bytes
distinct_keys [] ks = ks
distinct_keys (e ∷ es) ks = distinct_keys es (set_insert e.0 ks)

-- The validation loops of `append_multiple` and `load`.
unfoldable pub validate_records : PoolMode → List Entry → Result KvpError (Unit {0})
validate_records mode [] = ok tt
validate_records mode ((k, v) ∷ rest) =
    let tail = validate_records mode rest in
    do validate_key k (max_key_size mode); validate_value v (max_value_size mode); tail
