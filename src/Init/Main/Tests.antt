-- ===== src/Init/Main/Tests.antt =====
-- The theorems about a run applied to a VM that is provisioned for the first time.
use azure_init.Prelude.{
  ◌≡◌, refl, true, ◌&&◌, ◌||◌, ◌==◌, Option, none, [], ◌∷◌, Bytes, codes, bytes_eq, All,
}
use azure_init.Result.{ok}
use azure_init.Text.{starts_with}
use azure_init.Kvp.Report.Tests.{stand_in}
use azure_init.Init.Http.{request}
use azure_init.Init.Imds.{query}
use azure_init.Init.Status.{Disk, is_provisioning_complete, mark_provisioning_complete}
use azure_init.Init.Machine.{◌>>=◌, call, attempt, run}
use azure_init.Init.Media.{Environment}
use azure_init.Init.Provision.Effects.{Permitted}
use azure_init.Init.Provision.Tests.{whole_file, paths, config, machine}
use azure_init.Init.Tests.{wireserver, busy, strictly, parse}
use azure_init.Init.Main.{Given, provision_once}
use azure_init.Init.Main.Completes.{provision_once-Completes}
use azure_init.Init.Main.Passwords.{provision_once-Permitted}

-- The one medium has no environment, and the metadata service has all that is asked of it.
abbrev environment : Bytes → Option Environment
environment text = none

abbrev given : Given
given = record {
  paths = paths;
  regex = whole_file;
  config = config;
  wireserver = wireserver;
  imds = busy;
  expired = strictly;
  retry_interval = 1;
  parse = parse;
  total_retry_timeout = 20;
  mount_table = ok (
      record { fs_spec = codes "/dev/sr0"; vfs_type = codes "udf" }
      ∷ record { fs_spec = codes "/dev/sda1"; vfs_type = codes "ext4" }
      ∷ []);
  contents = λ log. codes "<Environment/>";
  parse_xml = environment;
  groups = codes "wheel" ∷ [];
  csv = stand_in;
  version = codes "0.1.1";
  now = codes "now";
  display = λ e. codes "error";
  iter = λ es. es;
}

abbrev empty_disk : Disk
empty_disk = record { names = none; log_file = true; faults = [] }

abbrev vm : Bytes
vm = codes "vm"

exits : (provision_once given vm machine empty_disk).exit_code ≡ 0
unfolding provision_once ◌>>=◌ call attempt run query request is_provisioning_complete
    mark_provisioning_complete bytes_eq starts_with
exits = refl

provision_once-Completes_example :
    is_provisioning_complete (provision_once given vm machine empty_disk).disk vm
    ≡ (((provision_once given vm machine empty_disk).exit_code == 0) && bytes_eq vm vm)
      || is_provisioning_complete empty_disk vm
provision_once-Completes_example = provision_once-Completes given vm vm empty_disk machine

provision_once-Permitted_example :
    All (Permitted paths) (provision_once given vm machine empty_disk).machine.log
provision_once-Permitted_example = provision_once-Permitted given vm machine empty_disk tt
