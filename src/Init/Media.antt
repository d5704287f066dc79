-- ===== src/Init/Media.antt =====
-- Provisioning media (libazureinit/src/media.rs): the devices with an ovf-env, mounted one by one.
--
-- `FsTab` and serde_xml_rs are other crates: the entries of the mount table, and the environment that
-- a text is parsed as, are parameters.
use azure_init.Prelude.{
  Bool, ◌||◌, not, Option, none, some, List, [], ◌∷◌, ◌++◌, if◌then◌else◌, Bytes, codes, bytes_eq,
}
use azure_init.Result.{Result, ok, err}
use azure_init.Text.{is_empty}
use azure_init.Init.Error.{Error, xml, non_empty_password}
use azure_init.Init.Machine.{
  Action, create_dir, stat, set_mode, open_existing, read, Sys, pure, ◌>>=◌, ◌>>◌, call, run,
}

pub record LinuxProvisioningConfigurationSet : Type 0 where
  pub username : Bytes
  pub password : Bytes
  pub hostname : Bytes

pub record ProvisioningSection : Type 0 where
  pub version : Bytes
  pub linux_prov_conf_set : LinuxProvisioningConfigurationSet

pub record PlatformSettings : Type 0 where
  pub preprovisioned_vm : Bool
  pub preprovisioned_vm_type : Bytes

pub record PlatformSettingsSection : Type 0 where
  pub platform_version : Bytes
  pub platform_settings : PlatformSettings

pub record Environment : Type 0 where
  pub provisioning_section : ProvisioningSection
  pub platform_settings_section : PlatformSettingsSection

-- An entry of the mount table, in the two fields that are read.
pub record MountEntry : Type 0 where
  pub fs_spec : Bytes
  pub vfs_type : Bytes

-- CDROM_VALID_FS
unfoldable pub is_cdrom : MountEntry → Bool
is_cdrom e = bytes_eq e.vfs_type (codes "iso9660") || bytes_eq e.vfs_type (codes "udf")

unfoldable pub cdrom_devices : List MountEntry → List Bytes
unfolding is_cdrom
cdrom_devices [] = []
cdrom_devices (e ∷ es) =
    let rest = cdrom_devices es in if is_cdrom e then e.fs_spec ∷ rest else rest

unfoldable pub get_mount_device : Result Error (List MountEntry) → Result Error (List Bytes)
unfolding cdrom_devices
get_mount_device (ok entries) = ok (cdrom_devices entries)
get_mount_device (err e) = err e

abbrev pub path_mount_point : Bytes
path_mount_point = codes "/run/azure-init/media/"

-- `Media<Unmounted>::mount`
unfoldable pub mount : Bytes → Sys (Unit {0})
mount device = do
  call (create_dir path_mount_point 0o777)
  call (stat path_mount_point)
  call (set_mode path_mount_point 0o700)
  run (codes "mount") (codes "-o" ∷ codes "ro" ∷ device ∷ path_mount_point ∷ [])

-- `Media<Mounted>::unmount`
unfoldable pub unmount : Bytes → Sys (Unit {0})
unmount device = do run (codes "umount") (path_mount_point ∷ []); run (codes "eject") (device ∷ [])

-- `contents` is what the file holds after what was done; `parse` is `from_str`.
module _ (contents : List Action → Bytes) (parse : Bytes → Option Environment) where
  abbrev ovf_path : Bytes
  ovf_path = path_mount_point ++ codes "ovf-env.xml"

  unfoldable pub read_ovf_env_to_string : Sys Bytes
  read_ovf_env_to_string = do
    call (open_existing ovf_path)
    call (read ovf_path)
    λ m. (ok (contents m.log), m)

  abbrev checked_password : Option Environment → Result Error Environment
  checked_password none = err xml
  checked_password (some e) =
      if not (is_empty e.provisioning_section.linux_prov_conf_set.password)
      then err non_empty_password
      else ok e

  unfoldable pub parse_ovf_env : Bytes → Result Error Environment
  parse_ovf_env ovf_body = checked_password (parse ovf_body)

  -- `orchestrate_ovf_env` with the functions of `Media`.
  unfoldable pub mount_parse_ovf_env : Bytes → Sys Environment
  unfolding mount unmount read_ovf_env_to_string parse_ovf_env
  mount_parse_ovf_env device = do
    mount device
    ovf_body ← read_ovf_env_to_string
    environment ← λ m. (parse_ovf_env ovf_body, m)
    unmount device
    pure environment
