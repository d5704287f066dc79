-- ===== src/Kvp/Store/Pool/Appends.antt =====
-- The operations that add records or replace them all, and the count of records.
use mathlib.Core.List.{map-append}
use azure_init.Prelude.{
  ◌==◌, ◌≤◌, ◌≡◌, refl, sym, ap, ◌∙◌, Bool, true, false, Option, none, some, List, [], ◌∷◌, ◌++◌,
  inl, inr, arith, Bytes, length, append_assoc, append-nil, All, length-map, ltb, contains-Lacks,
  contains,
}
use azure_init.Kvp.Store.Pool.{
  is_empty, or_missing, append, append_all, append_multiple, write_records_locked, truncate_if,
  load, clear, len,
}
use azure_init.Result.{ok}
use azure_init.Kvp.Store.Policy.{
  validate_key, PoolMode, safe, unsafe, max_key_size, max_value_size, validate_value,
  wire_max_key_bytes, wire_max_value_bytes, max_unique_keys,
}
use azure_init.Kvp.Store.Record.{Entry}
use azure_init.Kvp.Store.World.{
  World, ◌>>=◌, ◌>>◌, close, open_read_write_create, open_read_write, flush, set_len,
}
use azure_init.Kvp.Store.World.Ends.{Ends, Ends-bind, Ends-map}
use azure_init.Kvp.Store.World.Sees.{Sees, set_len_lem, flush_lem}
use azure_init.Kvp.Store.World.Opens.{
  Sees-Stores, open_read_write_lem, open_read_write-Absent, path_metadata_lem, path_metadata-Absent,
}
use azure_init.Kvp.Store.Iter.{KvpPoolIter, new_iter, append_record, lock_for_writing}
use azure_init.Kvp.Store.Iter.Cells.{
  Cell, bytes_of_cells, entries_of, encoded, entry-encoded, record_count-bytes,
}
use azure_init.Kvp.Store.Iter.Begin.{new_iter_lem, append_record_lem, lock_for_writing_lem}
use azure_init.Kvp.Store.Pool.Rules.{
  Holds, Contains, Holds-of, Ends-scoped, Ends-or_missing, open_to_write,
}
use mathlib.Core.Path.{ap₂}
use azure_init.Utf8.{IsUtf8}
use azure_init.Kvp.Store.Record.RoundTrip.{EntryFits}
use azure_init.Kvp.Store.KeySet.{validate_records, distinct_keys}

-- What `append` accepts: Rust's `str` is UTF-8, and the two validations pass.
pub record Accepted (mode : PoolMode) (e : Entry) : Type 0 where
  pub key_valid : validate_key e.0 (max_key_size mode) ≡ ok tt
  pub value_valid : validate_value e.1 (max_value_size mode) ≡ ok tt
  pub key_utf8 : IsUtf8 e.0
  pub value_utf8 : IsUtf8 e.1

valid_key :
    (mode : PoolMode) (key : Bytes)
    → validate_key key (max_key_size mode) ≡ ok tt
    → (length key ≤ wire_max_key_bytes) × (contains 0 key ≡ false)
unfolding validate_key max_key_size
valid_key safe [] h = absurd (ground arith)
valid_key unsafe [] h = absurd (ground arith)
valid_key safe (b ∷ key) h = ground arith
valid_key unsafe (b ∷ key) h = ground arith

valid_value :
    (mode : PoolMode) (value : Bytes)
    → validate_value value (max_value_size mode) ≡ ok tt
    → (length value ≤ wire_max_value_bytes) × (contains 0 value ≡ false)
unfolding validate_value max_value_size
valid_value safe value h = ground arith
valid_value unsafe value h = ground arith

-- What passes the validation fits the wire format: nothing is cut.
pub Accepted-EntryFits : (mode : PoolMode) (e : Entry) → Accepted mode e → EntryFits e
Accepted-EntryFits mode (k, v) a =
    let (ks, kn) = valid_key mode k a.key_valid in
    let (vs, vn) = valid_value mode v a.value_valid in
    (
      record { short = ks; no_nul = contains-Lacks 0 k kn; utf8 = a.key_utf8 },
      record { short = vs; no_nul = contains-Lacks 0 v vn; utf8 = a.value_utf8 },
    )

pub entries-snoc :
    (cells : List Cell) (es : List Entry) (e : Entry) (f : EntryFits e)
    → entries_of cells ≡ es
    → entries_of (cells ++ encoded e f ∷ []) ≡ es ++ e ∷ []
entries-snoc cells es e f h =
    map-append (λ (c : Cell). c.entry) cells (encoded e f ∷ [])
    ∙ ap₂ (λ s t. s ++ t ∷ []) h (entry-encoded e f)

-- Adding one record after a validation that passed keeps every record that is there, and puts the
-- new one behind them; the file is created if it is absent.
-- The pool file is well-formed or absent, and no call fails.
pub append-Contains :
    (mode : PoolMode) (k v : Bytes) (es : List Entry) (w : World)
    → Accepted mode (k, v)
    → Contains es w
    → Ends (λ _ w'. Contains (es ++ (k, v) ∷ []) w') (append mode k v w)
unfolding append
append-Contains mode k v es w a h =
    let fits = Accepted-EntryFits mode (k, v) a in
    rw (a.key_valid, a.value_valid)
      (Ends-scoped (λ _ w'. Holds (es ++ (k, v) ∷ []) (close w'))
        (λ _ w'. Contains (es ++ (k, v) ∷ []) w')
        (do open_read_write_create; it ← new_iter false; _ ← append_record it k v; flush) w
        (Ends-bind _ _ open_read_write_create _ w (open_to_write es w h) (λ _ w1 (cells, e, s).
          Ends-bind _ _ (new_iter false) _ w1 (new_iter_lem cells false 0 w1 s) (λ it w2 q.
            Ends-bind _ _ (append_record it k v) _ w2
              (append_record_lem cells (k, v) fits it 0 w2 q.2)
              (λ _ w3 p.
                Ends-map _ _ flush w3
                  (λ _ w4 t.
                    Holds-of (cells ++ encoded (k, v) fits ∷ []) _ w4
                      (entries-snoc cells es (k, v) fits e) (0, t))
                  (flush_lem p.1)))))
        (λ _ w1 p. inl p))

-- The open file has cells that read as these entries, with the cursor at the start.
abbrev Reads : List Entry → World → Type 0
Reads es w = (cells : List Cell) × (entries_of cells ≡ es) × Sees (bytes_of_cells cells) 0 w

append_all_lem :
    (mode : PoolMode) (records es : List Entry) (it : KvpPoolIter) (w : World)
    → All (Accepted mode) records
    → Reads es w
    → Ends (λ _ w'. Reads (es ++ records) w') (append_all it records w)
unfolding append_all
append_all_lem mode [] es it w a r = rw (append-nil es) r
append_all_lem mode ((k, v) ∷ records) es it w (a, rest) (cells, e, s) =
    let fits = Accepted-EntryFits mode (k, v) a in
    Ends-bind _ _ (append_record it k v) _ w (append_record_lem cells (k, v) fits it 0 w s)
      (λ it1 w1 q. rw (← append_assoc es ((k, v) ∷ []) records) (
        append_all_lem mode records (es ++ (k, v) ∷ []) it1 w1 rest
          (cells ++ encoded (k, v) fits ∷ [], entries-snoc cells es (k, v) fits e, q.1)))

-- What the pool holds before the records are written.
abbrev kept : Bool → List Entry → List Entry
kept true es = []
kept false es = es

truncate_lem :
    (truncate : Bool) (es : List Entry) (it : KvpPoolIter) (w : World)
    → Reads es w
    → Ends (λ _ w'. Reads (kept truncate es) w') (truncate_if truncate it w)
truncate_lem false es it w r = r
truncate_lem true es it w (cells, e, s) =
    Ends-bind _ _ (set_len 0) _ w (set_len_lem s [] (bytes_of_cells cells) 0 refl refl)
      (λ _ w1 t. ([], refl, t))

write_records_lem :
    (mode : PoolMode) (records es : List Entry) (truncate : Bool) (w : World)
    → All (Accepted mode) records
    → Contains es w
    → Ends
        (λ _ w'. Contains (kept truncate es ++ records) w')
        (write_records_locked records truncate w)
unfolding write_records_locked
write_records_lem mode records es truncate w a h =
    Ends-scoped (λ _ w'. Holds (kept truncate es ++ records) (close w'))
      (λ _ w'. Contains (kept truncate es ++ records) w')
      (do
        open_read_write_create
        it ← new_iter false
        it' ← truncate_if truncate it
        _ ← append_all it' records
        flush)
      w
      (Ends-bind _ _ open_read_write_create _ w (open_to_write es w h) (λ _ w1 (cells, e, s).
        Ends-bind _ _ (new_iter false) _ w1 (new_iter_lem cells false 0 w1 s) (λ it w2 q.
          Ends-bind _ _ (truncate_if truncate it) _ w2
            (truncate_lem truncate es it w2 (cells, e, q.2))
            (λ it1 w3 r.
              Ends-bind _ _ (append_all it1 records) _ w3
                (append_all_lem mode records (kept truncate es) it1 w3 a r)
                (λ _ w4 (cells', e', s').
                  Ends-map _ _ flush w4 (λ _ w5 t. Holds-of cells' _ w5 e' (0, t))
                    (flush_lem s'))))))
      (λ _ w1 p. inl p)

validate_records_lem :
    (mode : PoolMode) (records : List Entry)
    → All (Accepted mode) records
    → validate_records mode records ≡ ok tt
unfolding validate_records
validate_records_lem mode [] a = refl
validate_records_lem mode ((k, v) ∷ records) (a, rest) =
    rw (a.key_valid, a.value_valid) (validate_records_lem mode records rest)

-- A batch of accepted records is added behind what is there, in its order; no limit on the number
-- of records applies.
-- The pool file is well-formed or absent, and no call fails.
pub append_multiple-Contains :
    (mode : PoolMode) (records es : List Entry) (w : World)
    → All (Accepted mode) records
    → Contains es w
    → Ends (λ _ w'. Contains (es ++ records) w') (append_multiple mode records w)
unfolding append_multiple
append_multiple-Contains mode [] es w a h = rw (append-nil es) h
append_multiple-Contains mode (r ∷ records) es w a h =
    rw (validate_records_lem mode (r ∷ records) a)
      (write_records_lem mode (r ∷ records) es false w a h)

-- `load` of accepted records with at most 1024 distinct keys replaces the pool by them.
-- The pool file is well-formed or absent, and no call fails.
pub load-Contains :
    (mode : PoolMode) (records es : List Entry) (w : World)
    → All (Accepted mode) records
    → length (distinct_keys records []) ≤ max_unique_keys
    → Contains es w
    → Ends (λ _ w'. Contains records w') (load mode records w)
unfolding load
load-Contains mode records es w a few h =
    let under : ltb max_unique_keys (length (distinct_keys records [])) ≡ false = ground arith in
    rw (validate_records_lem mode records a, under) (write_records_lem mode records es true w a h)

abbrev pub is_there : {A : Type 0} → Option A → Bool
is_there none = false
is_there (some a) = true

-- `clear` leaves no record, and there is a file afterwards exactly if there was one.
-- The pool file is well-formed or absent, and no call fails.
pub clear-Contains :
    (es : List Entry) (w : World)
    → Contains es w
    → Ends (λ _ w'. Contains [] w' × (is_there w'.file ≡ is_there w.file)) (clear w)
unfolding clear
clear-Contains es w (inl h) =
    Ends-scoped (λ _ w'. Sees [] 0 w')
      (λ _ w'. Contains [] w' × (is_there w'.file ≡ is_there w.file))
      (or_missing open_read_write tt (λ _. do lock_for_writing; set_len 0)) w
      (Ends-or_missing (λ _ w'. Sees (bytes_of_cells h.cells) 0 w') (λ _ w'. Sees [] 0 w')
        open_read_write tt (λ _. do lock_for_writing; set_len 0) w (open_read_write_lem h.stores)
        (λ _ w1 s.
          Ends-bind _ _ lock_for_writing (λ _. set_len 0) w1 (lock_for_writing_lem s)
            (λ _ w2 s2. set_len_lem s2 [] (bytes_of_cells h.cells) 0 refl refl)))
      (λ _ w1 s. (
        inl (record { cells = []; read_as = refl; stores = Sees-Stores s }),
        ap is_there s.file ∙ sym (ap is_there h.stores.file),
      ))
clear-Contains es w (inr (e, a)) =
    rw (open_read_write-Absent a) (inr (refl, record { quiet = a.quiet; file = a.file }), refl)

len_lem : (es : List Entry) (w : World) → Contains es w → len w ≡ (ok (length es), w)
unfolding len
len_lem es w (inl h) =
    rw (path_metadata_lem h.stores, record_count-bytes h.cells)
      (ap (λ n. (ok n, w)) (sym (length-map (λ (c : Cell). c.entry) h.cells) ∙ ap length h.read_as))
len_lem es w (inr (e, a)) = rw (path_metadata-Absent a, e)

-- `len` counts the records, duplicates included, and `is_empty` says whether there are none;
-- neither changes the world.
-- The pool file is well-formed or absent, and no call fails.
pub len-Contains :
    (es : List Entry) (w : World)
    → Contains es w
    → (len w ≡ (ok (length es), w)) × (is_empty w ≡ (ok (length es == 0), w))
unfolding is_empty
len-Contains es w h = (len_lem es w h, rw (len_lem es w h))
