-- ===== src/Init/Status/Tests.antt =====
-- The theorems about marker files applied to a directory with one marker and one other file.
use azure_init.Prelude.{
  ◌≡◌, ◌⊎◌, refl, ◌&&◌, ◌||◌, Bool, none, some, [], ◌∷◌, codes, bytes_eq, arith, ap, length,
  length-append,
}
use azure_init.Result.{ok}
use azure_init.Text.{rsplit_once}
use azure_init.Kvp.Error.{not_found}
use azure_init.Init.Status.{
  Disk, take_fault, has_file, is_marker, is_provisioning_complete, mark_provisioning_complete,
  clean_provisioning_status,
}
use azure_init.Init.Status.Marks.{succeeded, mark_provisioning_complete_lem}
use azure_init.Init.Status.Cleans.{MarkerName, clean_forgets}

-- The marker is gone when it is to be removed.
abbrev disk : Disk
disk = record {
  names = some (codes "vm.provisioned" ∷ codes ".provisioned" ∷ []);
  log_file = Bool.true;
  faults = none ∷ none ∷ some not_found ∷ [];
}

cleaned : (clean_provisioning_status disk).0 ≡ ok tt
unfolding clean_provisioning_status is_marker rsplit_once bytes_eq
cleaned = refl

-- The name `.provisioned` alone is no marker's.
bare_name : MarkerName (codes ".provisioned") → ⊥
bare_name ([], some_stem, e) = some_stem refl
bare_name (b ∷ bs, some_stem, e) =
    omega (arith, ap length e, length-append (b ∷ bs) (codes ".provisioned"))

clean_forgets_example :
    (is_provisioning_complete (clean_provisioning_status disk).1 (codes "vm") ≡ Bool.false)
    × ((has_file (codes ".provisioned") (clean_provisioning_status disk).1.names
          ≡ has_file (codes ".provisioned") disk.names)
        ⊎ ((take_fault disk).0 ≡ some not_found))
clean_forgets_example =
    clean_forgets disk cleaned (codes "vm") (codes ".provisioned") (λ h. cc) bare_name

mark_provisioning_complete_lem_example :
    is_provisioning_complete (mark_provisioning_complete disk (codes "new")).1 (codes "vm")
    ≡ (succeeded (mark_provisioning_complete disk (codes "new")).0
        && bytes_eq (codes "new") (codes "vm"))
      || is_provisioning_complete disk (codes "vm")
mark_provisioning_complete_lem_example =
    mark_provisioning_complete_lem disk (codes "new") (codes "vm")
