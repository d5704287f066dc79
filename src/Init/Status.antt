-- ===== src/Init/Status.antt =====
-- The files that say which VM is provisioned (libazureinit/src/status.rs), and `clean` of the binary
-- (src/main.rs), over the data directory of the configuration.
--
-- Each call takes the next entry of `faults`: it goes through, or it fails with an error. A VM's id
-- is taken to be a file name. Setting the directory's permissions may fail without an effect.
pub mod Marks
pub mod Cleans
mod Tests
use azure_init.Prelude.{
  ℕ, Bool, true, false, ◌||◌, Option, none, some, List, [], ◌∷◌, ◌++◌, if◌then◌else◌, Bytes, codes,
  bytes_eq,
}
use azure_init.Result.{Result, ok, err}
use azure_init.Text.{rsplit_once}
use azure_init.Kvp.Error.{ErrorKind, not_found}
use azure_init.Init.Error.{Error, io}

-- The names in the data directory, or none if there is no directory; whether the log file is there.
pub record Disk : Type 0 where
  pub names : Option (List Bytes)
  pub log_file : Bool
  pub faults : List (Option ErrorKind)

abbrev next_fault : List (Option ErrorKind) → Option ErrorKind × List (Option ErrorKind)
next_fault [] = (none, [])
next_fault (f ∷ fs) = (f, fs)

-- The fault of the next call, and the disk behind it.
abbrev pub take_fault : Disk → Option ErrorKind × Disk
take_fault d = ((next_fault d.faults).0, record d { faults = (next_fault d.faults).1 })

unfoldable pub has_name : Bytes → List Bytes → Bool
has_name name [] = false
has_name name (n ∷ ns) = bytes_eq n name || has_name name ns

abbrev pub has_file : Bytes → Option (List Bytes) → Bool
has_file name none = false
has_file name (some names) = has_name name names

-- `format!("{vm_id}.provisioned")`
abbrev pub marker : Bytes → Bytes
marker vm_id = vm_id ++ codes ".provisioned"

unfoldable pub is_provisioning_complete : Disk → Bytes → Bool
unfolding has_name
is_provisioning_complete d vm_id = has_file (marker vm_id) d.names

abbrev pub after_create : Option ErrorKind × Disk → Result Error (Unit {0}) × Disk
after_create (some e, d) = (err io, d)
after_create (none, d) = (ok tt, record (take_fault d).1 { names = some [] })

abbrev pub check_names : Option (List Bytes) → Disk → Result Error (Unit {0}) × Disk
check_names none d = after_create (take_fault d)
check_names (some names) d = (ok tt, d)

-- Creates the directory if it is absent; the second call sets its permissions.
unfoldable pub check_provision_dir : Disk → Result Error (Unit {0}) × Disk
check_provision_dir d = check_names d.names d

abbrev pub add_name : Bytes → Option (List Bytes) → Option (List Bytes)
add_name name none = none
add_name name (some names) = some (if has_name name names then names else name ∷ names)

abbrev pub create_marker : Bytes → Option ErrorKind × Disk → Result Error (Unit {0}) × Disk
create_marker vm_id (some e, d) = (err io, d)
create_marker vm_id (none, d) = (ok tt, record d { names = add_name (marker vm_id) d.names })

abbrev pub mark_checked : Bytes → Result Error (Unit {0}) × Disk → Result Error (Unit {0}) × Disk
mark_checked vm_id (err e, d) = (err e, d)
mark_checked vm_id (ok done, d) = create_marker vm_id (take_fault d)

unfoldable pub mark_provisioning_complete : Disk → Bytes → Result Error (Unit {0}) × Disk
unfolding check_provision_dir has_name
mark_provisioning_complete d vm_id = mark_checked vm_id (check_provision_dir d)

abbrev pub stem_and_extension : Option (Bytes × Bytes) → Option Bytes
stem_and_extension none = none
stem_and_extension (some ([], ext)) = none
stem_and_extension (some (b ∷ bs, ext)) = some ext

-- `Path::extension` of a file name: what follows its last dot, unless the name begins with it.
unfoldable pub extension : Bytes → Option Bytes
extension name = stem_and_extension (rsplit_once b'.' name)

abbrev pub is_text : Option Bytes → Bytes → Bool
is_text none t = false
is_text (some s) t = bytes_eq s t

unfoldable pub is_marker : Bytes → Bool
unfolding extension
is_marker name = is_text (extension name) (codes "provisioned")

unfoldable pub without : Bytes → List Bytes → List Bytes
without name [] = []
without name (n ∷ ns) = if bytes_eq n name then without name ns else n ∷ without name ns

abbrev pub remove_name : Bytes → Option (List Bytes) → Option (List Bytes)
remove_name name none = none
remove_name name (some names) = some (without name names)

-- `remove_file`: that the file is not found means that it is gone already. So too for the directory
-- and the log file below.
abbrev pub after_remove : Bytes → Option ErrorKind × Disk → Result ErrorKind (Unit {0}) × Disk
after_remove name (none, d) = (ok tt, record d { names = remove_name name d.names })
after_remove name (some not_found, d) = (ok tt, record d { names = remove_name name d.names })
after_remove name (some e, d) = (err e, d)

abbrev pub then_clean :
    (Disk → Result ErrorKind (Unit {0}) × Disk)
    → Result ErrorKind (Unit {0}) × Disk
    → Result ErrorKind (Unit {0}) × Disk
then_clean rest (err e, d) = (err e, d)
then_clean rest (ok done, d) = rest d

abbrev pub clean_entry : Bytes → Option ErrorKind × Disk → Result ErrorKind (Unit {0}) × Disk
clean_entry name (some e, d) = (err e, d)
clean_entry name (none, d) = if is_marker name then after_remove name (take_fault d) else (ok tt, d)

-- The loop over the directory's entries, each of which may fail to be read.
unfoldable pub clean_entries : List Bytes → Disk → Result ErrorKind (Unit {0}) × Disk
unfolding is_marker without
clean_entries [] d = (ok tt, d)
clean_entries (name ∷ names) d =
    then_clean (λ d'. clean_entries names d') (clean_entry name (take_fault d))

abbrev pub clean_listed :
    Option (List Bytes) → Option ErrorKind × Disk → Result ErrorKind (Unit {0}) × Disk
clean_listed names (some not_found, d) = (ok tt, record d { names = none })
clean_listed names (some e, d) = (err e, d)
clean_listed none (none, d) = (ok tt, d)
clean_listed (some names) (none, d) = clean_entries names d

unfoldable pub clean_provisioning_status : Disk → Result ErrorKind (Unit {0}) × Disk
unfolding clean_entries
clean_provisioning_status d = clean_listed d.names (take_fault d)

abbrev after_log : Option ErrorKind × Disk → Result ErrorKind (Unit {0}) × Disk
after_log (none, d) = (ok tt, record d { log_file = false })
after_log (some not_found, d) = (ok tt, record d { log_file = false })
after_log (some e, d) = (err e, d)

unfoldable pub clean_log_file : Disk → Result ErrorKind (Unit {0}) × Disk
clean_log_file d = after_log (take_fault d)
