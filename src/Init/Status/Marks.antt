-- ===== src/Init/Status/Marks.antt =====
-- What `mark_provisioning_complete` marks.
use azure_init.Prelude.{
  ◌≡◌, refl, ap, sym, ◌∙◌, Bool, true, false, ◌&&◌, ◌||◌, Option, none, some, List, [], arith,
  Bytes, codes, contains, contains-Lacks, bytes_eq, bytes_eq_sound, bytes_eq_refl, Bool-cases, inl,
  inr,
}
use azure_init.Result.{Result, ok, err}
use azure_init.Text.{rsplit_once}
use azure_init.Text.Decimal.{rsplit_once_last}
use azure_init.Kvp.Error.{ErrorKind}
use azure_init.Init.Error.{Error}
use azure_init.Init.Status.{
  Disk, take_fault, has_name, has_file, marker, is_provisioning_complete, check_provision_dir,
  mark_provisioning_complete, add_name, create_marker, check_names, mark_checked, after_create,
}

has-add :
    (n m : Bytes) (ns : List Bytes)
    → has_file m (add_name n (some ns)) ≡ bytes_eq n m || has_name m ns
unfolding has_name
has-add n m ns = elim (Bool-cases (has_name n ns)) [
  | inl old ↦ rw old (ground (arith, bytes_eq_sound n m, old))
  | inr new ↦ rw new
]

abbrev stem : Option (Bytes × Bytes) → Bytes
stem none = []
stem (some p) = p.0

-- Between two markers the VM's id decides.
marker-injective : (a b : Bytes) → marker a ≡ marker b → a ≡ b
marker-injective a b h =
    let no_dot : contains b'.' (codes "provisioned") ≡ false = unfold contains in refl in
    let lacks = contains-Lacks b'.' (codes "provisioned") no_dot in
    ap stem (
      sym (rsplit_once_last b'.' a (codes "provisioned") lacks)
      ∙ ap (rsplit_once b'.') h
      ∙ rsplit_once_last b'.' b (codes "provisioned") lacks)

bytes_eq-marker : (a b : Bytes) → bytes_eq (marker a) (marker b) ≡ bytes_eq a b
bytes_eq-marker a b = elim (Bool-cases (bytes_eq a b)) [
  | inl same ↦ rw (same, bytes_eq_sound a b same) (bytes_eq_refl (marker b))
  | inr other ↦ elim (Bool-cases (bytes_eq (marker a) (marker b))) [
    | inl equal ↦
        let eq = marker-injective a b (bytes_eq_sound (marker a) (marker b) equal) in
        absurd (let t : bytes_eq a b ≡ true = rw eq (bytes_eq_refl b) in cc)
    | inr differ ↦ rw (differ, other)
  ]
]

abbrev pub succeeded : Result Error (Unit {0}) → Bool
succeeded (ok u) = true
succeeded (err e) = false

-- Whether `w` is marked behind a call that returned `r`, where `v` was to be marked.
abbrev MarkedBy : Bytes → Bytes → Disk → Result Error (Unit {0}) × Disk → Type 0
MarkedBy v w d r =
    has_file (marker w) r.1.names ≡ (succeeded r.0 && bytes_eq v w) || has_file (marker w) d.names

create-MarkedBy :
    (v w : Bytes) (f : Option ErrorKind) (ns : List Bytes) (d : Disk)
    → d.names ≡ some ns
    → MarkedBy v w d (create_marker v (f, d))
create-MarkedBy v w (some e) ns d h = refl
create-MarkedBy v w none ns d h =
    rw h (
      has-add (marker v) (marker w) ns
      ∙ ap (λ b. b || has_name (marker w) ns) (bytes_eq-marker v w))

created-MarkedBy :
    (v w : Bytes) (f : Option ErrorKind) (d : Disk)
    → d.names ≡ none
    → MarkedBy v w d (mark_checked v (after_create (f, d)))
created-MarkedBy v w (some e) d h = refl
created-MarkedBy v w none d h =
    let made = record (take_fault d).1 { names = some [] } in
    create-MarkedBy v w (take_fault made).0 [] (take_fault made).1 refl
    ∙ (unfold has_name in
        ap
          (λ (o : Option (List Bytes)).
            (succeeded (create_marker v (take_fault made)).0 && bytes_eq v w)
            || has_file (marker w) o)
          (sym h))

checked-MarkedBy :
    (v w : Bytes) (names : Option (List Bytes)) (d : Disk)
    → d.names ≡ names
    → MarkedBy v w d (mark_checked v (check_names names d))
checked-MarkedBy v w (some ns) d h = create-MarkedBy v w (take_fault d).0 ns (take_fault d).1 h
checked-MarkedBy v w none d h = created-MarkedBy v w (take_fault d).0 (take_fault d).1 h

-- Whatever fails, a VM counts as provisioned after `mark_provisioning_complete` exactly if it did
-- before, or it is the VM that was marked and the call succeeded.
pub mark_provisioning_complete_lem :
    (d : Disk) (vm_id other : Bytes)
    → is_provisioning_complete (mark_provisioning_complete d vm_id).1 other
      ≡ (succeeded (mark_provisioning_complete d vm_id).0 && bytes_eq vm_id other)
        || is_provisioning_complete d other
unfolding is_provisioning_complete mark_provisioning_complete check_provision_dir
mark_provisioning_complete_lem d vm_id other = checked-MarkedBy vm_id other d.names d refl
