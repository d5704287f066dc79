-- ===== src/Init/Main.antt =====
-- The agent's run (src/main.rs): cleaning, or provisioning a VM that is not yet provisioned.
--
-- The command line, the configuration, the metadata service and the wireserver are parameters. An
-- error of loading the configuration, the version's text and logging are left out.
pub mod Completes
pub mod Passwords
mod Tests
use azure_init.Prelude.{
  ℕ, Bool, true, false, Option, none, some, List, [], ◌∷◌, if◌then◌else◌, Bytes, codes,
}
use azure_init.Result.{Result, ok, err}
use azure_init.Kvp.Error.{ErrorKind}
use azure_init.Kvp.Store.Record.{Entry}
use azure_init.Kvp.Report.{Csv}
use azure_init.Init.Error.{
  Error, user_missing, non_empty_password, username_failure, instance_metadata_failure,
  unhandled_error, as_encoded_report,
}
use azure_init.Init.Http.{Attempt}
use azure_init.Init.Imds.{query, InstanceMetadata, Run, done, unfinished}
use azure_init.Init.Health.{Wireserver, report_ready, report_failure}
use azure_init.Init.Status.{
  Disk, is_provisioning_complete, mark_provisioning_complete, clean_provisioning_status,
  clean_log_file,
}
use azure_init.Init.Machine.{Action, Machine, Sys, pure, fail, ◌>>=◌, ◌>>◌}
use azure_init.Init.Media.{Environment, MountEntry, get_mount_device, mount_parse_ovf_env}
use azure_init.Init.Provision.Ssh.{Regex}
use azure_init.Init.Provision.{Config, User, new_user, with_groups, Paths, provision}

-- The loop of `get_environment`: what is found so far is kept where a device fails, and replaced by
-- the environment of a later one.
abbrev pub found_or :
    Option Environment → Result Error Environment × Machine → Option Environment × Machine
found_or found (ok e, m) = (some e, m)
found_or found (err e, m) = (found, m)

abbrev pub ok_of : {A : Type 0} → Run A → Option A
ok_of (done (ok a)) = some a
ok_of (done (err e)) = none
ok_of unfinished = none

unfoldable pub get_username : Option InstanceMetadata → Option Environment → Result Error Bytes
get_username (some metadata) environment = ok metadata.compute.os_profile.admin_username
get_username none (some env) = ok env.provisioning_section.linux_prov_conf_set.username
get_username none none = err username_failure

-- What the run leaves: the exit code, how the report to the wireserver ended, the machine and the
-- data directory.
pub record Ending : Type 0 where
  pub exit_code : ℕ
  pub reported : Option (Run (Unit {0}))
  pub machine : Machine
  pub disk : Disk

-- What is given: programs and the regex crate, the configuration and the wireserver, the metadata
-- service with its limits and the parser of its text, the mount table, what is on the media,
-- `--groups`, and what reports take.
pub record Given : Type 0 where
  pub paths : Paths
  pub regex : Regex
  pub config : Config
  pub wireserver : Wireserver
  pub imds : ℕ → Attempt
  pub expired : ℕ → ℕ → Bool
  pub retry_interval : ℕ
  pub parse : Bytes → Option InstanceMetadata
  pub total_retry_timeout : ℕ
  pub mount_table : Result Error (List MountEntry)
  pub contents : List Action → Bytes
  pub parse_xml : Bytes → Option Environment
  pub groups : List Bytes
  pub csv : Csv
  pub version : Bytes
  pub now : Bytes
  pub display : Error → Bytes
  pub iter : List Entry → List Entry

-- `query(…).await.ok()`
abbrev pub metadata_of : Given → Option InstanceMetadata
metadata_of g = ok_of (query g.imds g.expired g.retry_interval g.parse g.total_retry_timeout 0)

abbrev is_config_error : Error → Bool
is_config_error (user_missing user) = true
is_config_error non_empty_password = true
is_config_error e = false

-- `exitcode::CONFIG` or a failure.
unfoldable pub failure_code : Error → ℕ
failure_code e = if is_config_error e then 78 else 1

abbrev exit_if : Bool → ℕ
exit_if true = 0
exit_if false = 1

abbrev is_ok : {E A : Type 0} → Result E A → Bool
is_ok (ok a) = true
is_ok (err e) = false

module _ (g : Given) where
  unfoldable pub find_environment :
      Option Environment → List Bytes → Machine → Option Environment × Machine
  unfolding mount_parse_ovf_env
  find_environment found [] m = (found, m)
  find_environment found (device ∷ devices) m =
      let r = found_or found (mount_parse_ovf_env g.contents g.parse_xml device m) in
      find_environment r.0 devices r.1

  abbrev on_devices : Result Error (List Bytes) → Machine → Option Environment × Machine
  on_devices (err e) m = (none, m)
  on_devices (ok devices) m = find_environment none devices m

  -- `get_environment().ok()`
  unfoldable pub get_environment : Machine → Option Environment × Machine
  unfolding find_environment get_mount_device
  get_environment m = on_devices (get_mount_device g.mount_table) m

  abbrev with_metadata : Option InstanceMetadata → Bytes → Sys (Unit {0})
  with_metadata none username = fail instance_metadata_failure
  with_metadata (some im) username =
      provision g.paths g.regex g.config im.compute.os_profile.computer_name
        (with_groups (new_user username im.compute.public_keys) g.groups)
        im.compute.os_profile.disable_password_authentication

  abbrev with_username : Result Error Bytes → Sys (Unit {0})
  with_username (err e) = fail e
  with_username (ok username) = with_metadata (metadata_of g) username

  -- `provision` up to `mark_provisioning_complete`.
  unfoldable pub provision_machine : Sys (Unit {0})
  unfolding get_environment get_username provision new_user with_groups
  provision_machine m =
      let r = get_environment m in with_username (get_username (metadata_of g) r.0) r.1

  abbrev pub then_mark :
      Bytes → Disk → Result Error (Unit {0}) × Machine → Result Error (Unit {0}) × (Machine × Disk)
  then_mark vm_id d (err e, m) = (err e, (m, d))
  then_mark vm_id d (ok finished, m) = let r = mark_provisioning_complete d vm_id in (r.0, (m, r.1))

  -- `provision` of src/main.rs.
  unfoldable pub provision_vm : Bytes → Machine → Disk → Result Error (Unit {0}) × (Machine × Disk)
  unfolding provision_machine mark_provisioning_complete
  provision_vm vm_id m d = then_mark vm_id d (provision_machine m)

  -- Both reports are sent, and how they end does not change the exit code.
  abbrev pub after_provision : Bytes → Result Error (Unit {0}) × (Machine × Disk) → Ending
  after_provision vm_id (ok finished, (m, d)) = record {
    exit_code = 0;
    reported = some (report_ready g.wireserver g.csv g.version g.now vm_id none 0);
    machine = m;
    disk = d;
  }
  after_provision vm_id (err e, (m, d)) = record {
    exit_code = failure_code e;
    reported = some (
        report_failure g.wireserver
          (as_encoded_report g.csv g.version g.now g.display g.iter e vm_id) 0);
    machine = m;
    disk = d;
  }

  abbrev pub unless_complete : Bool → Bytes → Machine → Disk → Ending
  unless_complete true vm_id m d = record { exit_code = 0; reported = none; machine = m; disk = d }
  unless_complete false vm_id m d = after_provision vm_id (provision_vm vm_id m d)

  -- The run without a command.
  unfoldable pub provision_once : Bytes → Machine → Disk → Ending
  unfolding provision_vm is_provisioning_complete
  provision_once vm_id m d = unless_complete (is_provisioning_complete d vm_id) vm_id m d

abbrev clean_logs : Bool → Result ErrorKind (Unit {0}) × Disk → Result ErrorKind (Unit {0}) × Disk
clean_logs logs (err e, d) = (err e, d)
clean_logs false (ok finished, d) = (ok tt, d)
clean_logs true (ok finished, d) = clean_log_file d

-- The command `clean`: the exit code and the disk.
unfoldable pub clean_all : Bool → Disk → ℕ × Disk
unfolding clean_provisioning_status clean_log_file
clean_all logs d =
    let r = clean_logs logs (clean_provisioning_status d) in (exit_if (is_ok r.0), r.1)
