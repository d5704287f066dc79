-- ===== src/Init/Status/Cleans.antt =====
-- What a successful `clean` removes from the data directory, and what it leaves.
use azure_init.Prelude.{
  ℕ, ◌==◌, ◌++◌, ◌≡◌, ◌≢◌, ◌⊎◌, refl, ap, ◌∙◌, Bool, true, false, ◌&&◌, Option, none, some, List,
  [], ◌∷◌, arith, if◌then◌else◌, Bytes, codes, contains, contains-Lacks, bytes_eq, bytes_eq_sound,
  bytes_eq_refl, bytes_eq_iff, Bool-cases, inl, inr,
}
use azure_init.Result.{Result, ok, err}
use azure_init.Text.{rsplit_once}
use azure_init.Text.Decimal.{rsplit_once_last}
use azure_init.Kvp.Error.{ErrorKind, not_found}
use azure_init.Init.Status.{
  Disk, take_fault, has_name, has_file, marker, extension, stem_and_extension, is_text,
  is_provisioning_complete, is_marker, without, remove_name, after_remove, then_clean, clean_entry,
  clean_entries, clean_listed, clean_provisioning_status,
}

has-without :
    (n m : Bytes) (ns : List Bytes)
    → has_name m (without n ns) ≡ (if bytes_eq n m then false else has_name m ns)
unfolding has_name without
has-without n m [] = ground arith
has-without n m (k ∷ ns) =
    ground (arith, bytes_eq_iff k n, bytes_eq_iff k m, bytes_eq_iff n m, has-without n m ns)

has-remove :
    (n m : Bytes) (names : Option (List Bytes))
    → has_file m (remove_name n names) ≡ (if bytes_eq n m then false else has_file m names)
has-remove n m none = ground arith
has-remove n m (some ns) = has-without n m ns

remove-names :
    (n m : Bytes) (f : Option ErrorKind) (d : Disk)
    → (after_remove n (f, d)).0 ≡ ok tt
    → has_file m (after_remove n (f, d)).1.names
      ≡ (if bytes_eq n m then false else has_file m d.names)
remove-names n m none d h = has-remove n m d.names
remove-names n m (some not_found) d h = has-remove n m d.names
remove-names n m (some _) d h = cc

entry-names :
    (n m : Bytes) (f : Option ErrorKind) (d : Disk)
    → (clean_entry n (f, d)).0 ≡ ok tt
    → has_file m (clean_entry n (f, d)).1.names
      ≡ (if is_marker n && bytes_eq n m then false else has_file m d.names)
entry-names n m (some e) d h = cc
entry-names n m none d h = elim (Bool-cases (is_marker n)) [
  | inl mark ↦
      rw mark (remove-names n m (take_fault d).0 (take_fault d).1 (let g = rw mark at h in g))
  | inr plain ↦ rw plain
]

-- A file is there after the names are cleaned if it was, and is no marker among them.
abbrev CleanedOf : Bytes → List Bytes → Disk → Result ErrorKind (Unit {0}) × Disk → Type 0
CleanedOf m ns d r =
    has_file m r.1.names ≡ (if is_marker m && has_name m ns then false else has_file m d.names)

then-names :
    (n m : Bytes) (ns : List Bytes) (d : Disk) (r : Result ErrorKind (Unit {0}) × Disk)
    → clean_entry n (take_fault d) ≡ r
    → ((d' : Disk) → (clean_entries ns d').0 ≡ ok tt → CleanedOf m ns d' (clean_entries ns d'))
    → (then_clean (λ d'. clean_entries ns d') r).0 ≡ ok tt
    → CleanedOf m (n ∷ ns) d (then_clean (λ d'. clean_entries ns d') r)
unfolding has_name
then-names n m ns d (err e, d') e' ih k = cc
then-names n m ns d (ok u, d') e' ih k =
    ih d' k
    ∙ ground (
      arith,
      entry-names n m (take_fault d).0 (take_fault d).1 (ap (λ r. r.0) e'),
      ap (λ (r : Result ErrorKind (Unit {0}) × Disk). has_file m r.1.names) e',
      bytes_eq_sound n m,
    )

entries-names :
    (m : Bytes) (ns : List Bytes) (d : Disk)
    → (clean_entries ns d).0 ≡ ok tt
    → CleanedOf m ns d (clean_entries ns d)
unfolding clean_entries has_name
entries-names m [] d h = ground arith
entries-names m (n ∷ ns) d h =
    then-names n m ns d (clean_entry n (take_fault d)) refl (λ d' k. entries-names m ns d' k) h

-- The marker of a VM with an id is one.
marker-is_marker : (vm_id : Bytes) → vm_id ≢ [] → is_marker (marker vm_id) ≡ true
unfolding is_marker
marker-is_marker [] h = absurd (h refl)
marker-is_marker (b ∷ bs) h =
    let no_dot : contains b'.' (codes "provisioned") ≡ false = unfold contains in refl in
    rw
      (rsplit_once_last b'.' (b ∷ bs) (codes "provisioned")
        (contains-Lacks b'.' (codes "provisioned") no_dot))
      (bytes_eq_refl (codes "provisioned"))

abbrev cut_if : Bool → Bytes → Option (Bytes × Bytes)
cut_if t bs = if t then some ([], bs) else none

abbrev cut_at : ℕ → ℕ → Bytes → Option (Bytes × Bytes) → Option (Bytes × Bytes)
cut_at sep b bs none = cut_if (b == sep) bs
cut_at sep b bs (some p) = some (b ∷ p.0, p.1)

cut_here :
    (sep b : ℕ) (bs l r : Bytes) (t : Bool)
    → (b == sep) ≡ t
    → cut_if t bs ≡ some (l, r)
    → b ∷ bs ≡ l ++ sep ∷ r
cut_here sep b bs l r true t h =
    let first : l ≡ [] = cc in
    let second : r ≡ bs = cc in let same : b ≡ sep = ground arith in rw (first, second, same) refl
cut_here sep b bs l r false t h = cc

cut_sound :
    (sep b : ℕ) (bs l r : Bytes) (o : Option (Bytes × Bytes))
    → ((x y : Bytes) → o ≡ some (x, y) → bs ≡ x ++ sep ∷ y)
    → cut_at sep b bs o ≡ some (l, r)
    → b ∷ bs ≡ l ++ sep ∷ r
cut_sound sep b bs l r none ih h = cut_here sep b bs l r (b == sep) refl h
cut_sound sep b bs l r (some (x, y)) ih h =
    let first : l ≡ b ∷ x = cc in let second : r ≡ y = cc in rw (first, second, ih x y refl) refl

rsplit_once_sound : (sep : ℕ) (s l r : Bytes) → rsplit_once sep s ≡ some (l, r) → s ≡ l ++ sep ∷ r
unfolding rsplit_once
rsplit_once_sound sep [] l r h = cc
rsplit_once_sound sep (b ∷ bs) l r h =
    cut_sound sep b bs l r (rsplit_once sep bs) (rsplit_once_sound sep bs) h

-- The name of a marker: something, and `.provisioned` behind it.
abbrev pub MarkerName : Bytes → Type 0
MarkerName name = (stem : Bytes) × (stem ≢ []) × (name ≡ stem ++ codes ".provisioned")

named :
    (name : Bytes) (o : Option (Bytes × Bytes))
    → rsplit_once b'.' name ≡ o
    → is_text (stem_and_extension o) (codes "provisioned") ≡ true
    → MarkerName name
named name none e h = cc
named name (some ([], ext)) e h = cc
named name (some (b ∷ bs, ext)) e h =
    let same = bytes_eq_sound ext (codes "provisioned") h in
    (
      b ∷ bs,
      (λ k. cc),
      rsplit_once_sound b'.' name (b ∷ bs) ext e ∙ ap (λ t. (b ∷ bs) ++ b'.' ∷ t) same,
    )

is_marker-MarkerName : (name : Bytes) → is_marker name ≡ true → MarkerName name
unfolding is_marker extension
is_marker-MarkerName name h = named name (rsplit_once b'.' name) refl h

no_marker : (name : Bytes) → (MarkerName name → ⊥) → is_marker name ≡ false
no_marker name h = elim (Bool-cases (is_marker name)) [
  | inl t ↦ absurd (h (is_marker-MarkerName name t))
  | inr f ↦ f
]

-- What a clean leaves: no file that is a marker, and every other, unless there was no directory to
-- read.
abbrev Left : Bytes → Disk → Option ErrorKind → Disk → Type 0
Left m d f d' =
    (has_file m d'.names ≡ (if is_marker m then false else has_file m d.names))
    ⊎ ((f ≡ some not_found) × (d'.names ≡ none))

listed-names :
    (m : Bytes) (f : Option ErrorKind) (names : Option (List Bytes)) (d : Disk)
    → names ≡ d.names
    → (clean_listed names (f, d)).0 ≡ ok tt
    → Left m d f (clean_listed names (f, d)).1
listed-names m none none d e h =
    inl (ground (arith, ap (λ (o : Option (List Bytes)). has_file m o) e))
listed-names m none (some ns) d e h =
    inl (entries-names m ns d h ∙ ground (arith, ap (λ (o : Option (List Bytes)). has_file m o) e))
listed-names m (some not_found) names d e h = inr (refl, refl)
listed-names m (some _) names d e h = cc

module _ (d : Disk) (done : (clean_provisioning_status d).0 ≡ ok tt) where
  left : (m : Bytes) → Left m d (take_fault d).0 (clean_provisioning_status d).1
  unfolding clean_provisioning_status
  left m = listed-names m (take_fault d).0 d.names (take_fault d).1 refl done

  -- After a clean that succeeds no VM with an id counts as provisioned; and every other file is
  -- there exactly if it was, unless reading the directory found that it is gone. Another file is
  -- one whose name is not `.provisioned` behind something: the name `.provisioned` alone is left.
  pub clean_forgets :
      (vm_id other : Bytes)
      → vm_id ≢ []
      → (MarkerName other → ⊥)
      → (is_provisioning_complete (clean_provisioning_status d).1 vm_id ≡ false)
        × ((has_file other (clean_provisioning_status d).1.names ≡ has_file other d.names)
            ⊎ ((take_fault d).0 ≡ some not_found))
  unfolding is_provisioning_complete
  clean_forgets vm_id other some_id plain = (
    ground (arith, left (marker vm_id), marker-is_marker vm_id some_id),
    ground (arith, left other, no_marker other plain),
  )
