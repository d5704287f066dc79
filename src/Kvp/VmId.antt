-- ===== src/Kvp/VmId.antt =====
-- The VM's id (libazureinit-kvp/src/vm_id.rs, and the same code in libazureinit/src/status.rs).
--
-- `trim` and `to_lowercase` go by the tables of Unicode and are parameters.
pub mod Swap
mod Tests
use azure_init.Prelude.{
  ℕ, zero, suc, ◌+◌, ◌*◌, ◌/◌, ◌%◌, Bool, true, false, ◌&&◌, ◌||◌, not, Option, none, some, [], ◌∷◌,
  ◌++◌, leb, ◌==◌, if◌then◌else◌, Bytes, codes, take, drop,
}
use mathlib.Core.List.{reverse}
use azure_init.Result.{Result, ok, err}
use azure_init.Text.{is_empty}
use azure_init.Kvp.Error.{ErrorKind}

pub data Endian : Type 0 where
  little big : Endian

-- `from_be_bytes`, behind the value `n`.
unfoldable pub from_be_bytes : ℕ → Bytes → ℕ
from_be_bytes n [] = n
from_be_bytes n (b ∷ bs) = from_be_bytes (n * 256 + b) bs

-- `to_le_bytes` of a number of `width` bytes.
unfoldable pub to_le_bytes : ℕ → ℕ → Bytes
to_le_bytes zero n = []
to_le_bytes (suc width) n = (n % 256) ∷ to_le_bytes width (n / 256)

unfoldable pub to_ne_bytes : Endian → ℕ → ℕ → Bytes
unfolding to_le_bytes
to_ne_bytes little width n = to_le_bytes width n
to_ne_bytes big width n = reverse (to_le_bytes width n)

-- The first three fields of the 16 bytes, of 4, 2 and 2 bytes, and the others as they are.
unfoldable pub swap_uuid_to_little_endian : Endian → Bytes → Bytes
unfolding to_ne_bytes from_be_bytes take drop
swap_uuid_to_little_endian native uuid =
    to_ne_bytes native 4 (from_be_bytes 0 (take 4 uuid))
    ++ to_ne_bytes native 2 (from_be_bytes 0 (take 2 (drop 4 uuid)))
    ++ to_ne_bytes native 2 (from_be_bytes 0 (take 2 (drop 6 uuid)))
    ++ drop 8 uuid

-- What the lookup asks of the system, of `str` and of the uuid crate. A parsed UUID is its 16 bytes.
pub record Machine : Type 0 where
  pub native : Endian
  pub read_to_string : Bytes → Result ErrorKind Bytes
  pub exists : Bytes → Bool
  pub trim : Bytes → Bytes
  pub to_lowercase : Bytes → Bytes
  pub parse_str : Bytes → Option Bytes
  pub to_text : Bytes → Bytes

abbrev pub or_path : Option Bytes → Bytes → Bytes
or_path none path = path
or_path (some path) _ = path

module _ (m : Machine) where
  unfoldable pub is_vm_gen1 : Option Bytes → Option Bytes → Bool
  is_vm_gen1 sysfs_efi_path dev_efi_path =
      not (m.exists (or_path sysfs_efi_path (codes "/sys/firmware/efi")))
      && not (m.exists (or_path dev_efi_path (codes "/dev/efi")))

  abbrev pub swapped_or : Bytes → Option Bytes → Bytes
  swapped_or system_uuid none = system_uuid
  swapped_or system_uuid (some u) = m.to_text (swap_uuid_to_little_endian m.native u)

  unfoldable pub id_of_text : Bytes → Bool → Option Bytes
  unfolding swap_uuid_to_little_endian
  id_of_text system_uuid gen1 =
      if is_empty system_uuid
      then none
      else if gen1
      then some (swapped_or system_uuid (m.parse_str system_uuid))
      else some system_uuid

  abbrev pub id_of_file : Result ErrorKind Bytes → Bool → Option Bytes
  id_of_file (err e) gen1 = none
  id_of_file (ok s) gen1 = id_of_text (m.to_lowercase (m.trim s)) gen1

  unfoldable pub private_get_vm_id : Option Bytes → Option Bytes → Option Bytes → Option Bytes
  unfolding id_of_text is_vm_gen1
  private_get_vm_id product_uuid_path sysfs_efi_path dev_efi_path =
      id_of_file
        (m.read_to_string (or_path product_uuid_path (codes "/sys/class/dmi/id/product_uuid")))
        (is_vm_gen1 sysfs_efi_path dev_efi_path)

  unfoldable pub get_vm_id : Option Bytes
  unfolding private_get_vm_id
  get_vm_id = private_get_vm_id none none none
