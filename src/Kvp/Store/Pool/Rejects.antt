-- ===== src/Kvp/Store/Pool/Rejects.antt =====
-- Input that is refused: the error comes before the file is opened.
use azure_init.Prelude.{
  ℕ, ◌<◌, ◌≤◌, ◌≡◌, ◌≢◌, refl, true, false, List, [], ◌∷◌, ◌++◌, arith, ltb, Bytes, length, All,
  Lacks, contains, contains-Lacks, Lacks-contains, Bool-cases, inl, inr,
}
use azure_init.Result.{Result, ok, err}
use azure_init.Kvp.Error.{
  KvpError, empty_key, key_contains_null, key_too_large, value_contains_null, value_too_large,
}
use azure_init.Kvp.Store.Policy.{
  PoolMode, safe, unsafe, max_key_size, max_value_size, validate_key, validate_value,
}
use azure_init.Kvp.Store.Record.{Entry}
use azure_init.Kvp.Store.KeySet.{validate_records}
use azure_init.Kvp.Store.World.{World, Io, raised}
use azure_init.Kvp.Store.Pool.{append, insert, append_multiple, load}

-- The action fails with the error and leaves the world as it was.
abbrev pub Refuses : {A : Type 0} → KvpError → Io A → World → Type 0
Refuses e m w = m w ≡ (err (raised e), w)

-- The longest key and value, in bytes.
abbrev pub key_limit : PoolMode → ℕ
key_limit safe = 254
key_limit unsafe = 512

abbrev pub value_limit : PoolMode → ℕ
value_limit safe = 1022
value_limit unsafe = 2048

-- A key or a value that is no reason to refuse an entry.
abbrev pub IsKey : PoolMode → Bytes → Type 0
IsKey mode key = (key ≢ []) × Lacks 0 key × (length key ≤ key_limit mode)

abbrev pub IsValue : PoolMode → Bytes → Type 0
IsValue mode value = Lacks 0 value × (length value ≤ value_limit mode)

-- What is wrong with an entry, and the error that says so. A key is looked at before its value, and
-- NUL bytes before the length.
pub data Faulty (mode : PoolMode) (key value : Bytes) : KvpError → Type 0 where
  no_key : key ≡ [] → Faulty mode key value empty_key
  nul_in_key : (Lacks 0 key → ⊥) → Faulty mode key value key_contains_null
  long_key :
      key ≢ []
      → Lacks 0 key
      → key_limit mode < length key
      → Faulty mode key value (key_too_large (key_limit mode) (length key))
  nul_in_value : IsKey mode key → (Lacks 0 value → ⊥) → Faulty mode key value value_contains_null
  long_value :
      IsKey mode key
      → Lacks 0 value
      → value_limit mode < length value
      → Faulty mode key value (value_too_large (value_limit mode) (length value))

-- What is asked of an entry by each operation.
abbrev entry_check : PoolMode → Bytes → Bytes → Result KvpError (Unit {0})
entry_check mode key value =
    azure_init.Result.◌>>◌ (validate_key key (max_key_size mode))
      (validate_value value (max_value_size mode))

has_nul : (bs : Bytes) → (Lacks 0 bs → ⊥) → contains 0 bs ≡ true
has_nul bs h = elim (Bool-cases (contains 0 bs)) [
  | inl t ↦ t
  | inr f ↦ absurd (h (contains-Lacks 0 bs f))
]

limits :
    (mode : PoolMode)
    → (max_key_size mode ≡ key_limit mode) × (max_value_size mode ≡ value_limit mode)
unfolding max_key_size max_value_size
limits safe = (refl, refl)
limits unsafe = (refl, refl)

key_passes :
    (mode : PoolMode) (key : Bytes) → IsKey mode key → validate_key key (max_key_size mode) ≡ ok tt
unfolding validate_key
key_passes mode [] h = absurd (h.0 refl)
key_passes mode (b ∷ key) (some_key, no_nul, short) =
    let fits : ltb (key_limit mode) (length (b ∷ key)) ≡ false = ground arith in
    rw ((limits mode).0, Lacks-contains 0 (b ∷ key) no_nul, fits) refl

value_passes :
    (mode : PoolMode) (value : Bytes)
    → IsValue mode value
    → validate_value value (max_value_size mode) ≡ ok tt
unfolding validate_value
value_passes mode value (no_nul, short) =
    let fits : ltb (value_limit mode) (length value) ≡ false = ground arith in
    rw ((limits mode).1, Lacks-contains 0 value no_nul, fits) refl

fault_found :
    (mode : PoolMode) (key value : Bytes) (e : KvpError)
    → Faulty mode key value e
    → entry_check mode key value ≡ err e
fault_found mode key value _ (no_key none) = unfold validate_key in rw none refl
fault_found mode [] value _ (nul_in_key nul) = absurd (nul tt)
fault_found mode (b ∷ key) value _ (nul_in_key nul) =
    unfold validate_key in rw (has_nul (b ∷ key) nul) refl
fault_found mode [] value _ (long_key some_key no_nul long) = absurd (some_key refl)
fault_found mode (b ∷ key) value _ (long_key some_key no_nul long) =
    let over : ltb (key_limit mode) (length (b ∷ key)) ≡ true = ground arith in
    unfold validate_key in rw ((limits mode).0, Lacks-contains 0 (b ∷ key) no_nul, over) refl
fault_found mode key value _ (nul_in_value good nul) =
    unfold validate_value in rw (key_passes mode key good, has_nul value nul) refl
fault_found mode key value _ (long_value good no_nul long) =
    let over : ltb (value_limit mode) (length value) ≡ true = ground arith in
    unfold validate_value in
    rw (key_passes mode key good, (limits mode).1, Lacks-contains 0 value no_nul, over) refl

batch_fault :
    (mode : PoolMode) (before after : List Entry) (key value : Bytes) (e : KvpError)
    → All (λ (r : Entry). IsKey mode r.0 × IsValue mode r.1) before
    → Faulty mode key value e
    → validate_records mode (before ++ (key, value) ∷ after) ≡ err e
unfolding validate_records
batch_fault mode [] after key value e h f = ground (arith, fault_found mode key value e f)
batch_fault mode ((k, v) ∷ before) after key value e ((hk, hv), h) f =
    rw (key_passes mode k hk, value_passes mode v hv)
      (batch_fault mode before after key value e h f)

-- `append` and `insert` refuse an entry for its first fault, with the fault's error: a key that is
-- empty, has a NUL byte or is longer than 254 bytes (512 in the unsafe mode), a value that has one
-- or is longer than 1022 bytes (2048). Nothing is changed.
pub append-insert-Refuses :
    (mode : PoolMode) (key value : Bytes) (e : KvpError) (w : World)
    → Faulty mode key value e
    → Refuses e (append mode key value) w × Refuses e (insert mode key value) w
unfolding append insert
append-insert-Refuses mode key value e w f =
    let found = fault_found mode key value e f in ground arith

-- `append_multiple` and `load` refuse a whole batch with the error of its first faulty entry,
-- wherever in the batch it stands, and change nothing.
pub batch-Refuses :
    (mode : PoolMode) (before after : List Entry) (key value : Bytes) (e : KvpError) (w : World)
    → All (λ (r : Entry). IsKey mode r.0 × IsValue mode r.1) before
    → Faulty mode key value e
    → Refuses e (append_multiple mode (before ++ (key, value) ∷ after)) w
      × Refuses e (load mode (before ++ (key, value) ∷ after)) w
unfolding append_multiple load
batch-Refuses mode [] after key value e w h f =
    let found = batch_fault mode [] after key value e h f in (rw found refl, rw found refl)
batch-Refuses mode (r ∷ before) after key value e w h f =
    let found = batch_fault mode (r ∷ before) after key value e h f in
    (rw found refl, rw found refl)
