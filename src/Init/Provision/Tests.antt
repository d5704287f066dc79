-- ===== src/Init/Provision/Tests.antt =====
-- The theorem about the configuration of sshd applied to a machine that has one.
use azure_init.Prelude.{bytes_eq, ◌≡◌, refl, true, some, [], ◌∷◌, Bytes, codes}
use azure_init.Text.{starts_with}
use azure_init.Init.Machine.{success, exit_status, Machine, SshUser, ◌>>=◌, call, attempt}
use azure_init.Init.Provision.Ssh.{Regex}
use azure_init.Init.Provision.{Config, Paths, hostnamectl, useradd, passwd, update_ssh_config}

-- Stands in for the regex crate: a setting is at the start of the file, and is all of it.
abbrev pub whole_file : Regex
whole_file = record {
  is_match = starts_with (codes "PasswordAuthentication");
  replace_all = λ content setting. setting;
}

abbrev pub paths : Paths
paths = record {
  hostnamectl = codes "hostnamectl";
  useradd = codes "useradd";
  passwd = codes "passwd";
  drop_in_dir = true;
}

abbrev pub config : Config
config = record {
  hostname_backends = hostnamectl ∷ [];
  user_backends = useradd ∷ [];
  password_backends = passwd ∷ [];
  authorized_keys_path = codes ".ssh/authorized_keys";
  query_sshd_config = true;
  configure_sshd_password_authentication = true;
}

abbrev home : SshUser
home = record { home_dir = codes "/home/azureuser"; uid = 1000; gid = 1000 }

abbrev drop_in : Bytes
drop_in = codes "/etc/ssh/sshd_config.d/50-azure-init.conf"

-- The user is not there yet, all else goes through, and each file has the setting.
abbrev pub machine : Machine
machine = record {
  log = [];
  answers = success ∷ exit_status (codes "2") ∷ [];
  files = λ path. some (codes "PasswordAuthentication yes");
  lookup = λ log name. some home;
  sshd_output = codes "port 22\nauthorizedkeysfile .ssh/keys";
  debug = λ program args. program;
}

-- A machine on which all calls go through.
abbrev willing : Machine
willing = record machine { answers = [] }

updated :
    (update_ssh_config paths whole_file config true willing).1.files drop_in
    ≡ some (codes "PasswordAuthentication no # modified by azure-init\n")
unfolding update_ssh_config ◌>>=◌ call attempt starts_with bytes_eq
updated = refl
