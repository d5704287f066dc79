-- ===== src/Kvp/VmId/Tests.antt =====
-- Tests of the VM's id on a machine without EFI, whose UUIDs are written as they are.
use azure_init.Prelude.{
  ◌≡◌, refl, none, some, false, ◌==◌, if◌then◌else◌, arith, Bytes, codes, length,
}
use azure_init.Result.{ok}
use azure_init.Kvp.VmId.{Machine, little, swap_uuid_to_little_endian, get_vm_id}
use azure_init.Kvp.VmId.Swap.{swap_reverses}

abbrev uuid : Bytes
uuid = codes "abcdefghijklmnop"

-- A UUID is any text of 16 bytes.
abbrev machine : Machine
machine = record {
  native = little;
  read_to_string = λ path. ok uuid;
  exists = λ path. false;
  trim = λ s. s;
  to_lowercase = λ s. s;
  parse_str = λ s. if length s == 16 then some s else none;
  to_text = λ u. u;
}

gen1_id : get_vm_id machine ≡ some (codes "dcbafehgijklmnop")
unfolding get_vm_id swap_uuid_to_little_endian
gen1_id = refl

swap_reverses_example :
    (swap_uuid_to_little_endian little uuid ≡ codes "dcbafehgijklmnop")
    × (swap_uuid_to_little_endian little (swap_uuid_to_little_endian little uuid) ≡ uuid)
swap_reverses_example = swap_reverses little uuid refl (omega arith)
