-- ===== src/Init/Provision.antt =====
-- Provisioning (libazureinit/src/provision): hostname, user, password and SSH, in this order.
--
-- `env!` paths of programs are `paths`. The regular expression of sshd's setting is the regex crate's
-- work: `Regex` has its two uses. Output of `sshd -G` is taken to be ASCII.
pub mod Ssh
pub mod Effects
pub mod Passwords
pub mod SshdConfig
pub mod Tests
use azure_init.Prelude.{
  ℕ, Bool, true, false, ◌&&◌, ◌||◌, Option, none, some, List, [], ◌∷◌, ◌++◌, if◌then◌else◌, Bytes,
  codes,
}
use azure_init.Result.{Result, ok, err}
use azure_init.Text.{is_empty}
use azure_init.Init.Error.{
  Error, io, user_missing, no_hostname_provisioner, no_user_provisioner, no_password_provisioner,
  update_sshd_config_failed, unhandled_error, subprocess_failed,
}
use azure_init.Init.Imds.{PublicKeys}
use azure_init.Init.Machine.{
  Action, run_program, spawn, feed, wait, open_truncate, write, flush, Answer, success, exit_status,
  io_error, Machine, Sys, pure, fail, ◌>>=◌, ◌>>◌, attempt, call, checked, run, SshUser,
}
use azure_init.Init.Provision.Ssh.{Regex, provision_ssh, get_sshd_config_path, update_sshd_config}

-- The backends of the configuration that are no tests'.
pub data HostnameProvisioner : Type 0 where
  hostnamectl : HostnameProvisioner

pub data UserProvisioner : Type 0 where
  useradd : UserProvisioner

pub data PasswordProvisioner : Type 0 where
  passwd : PasswordProvisioner

pub record Config : Type 0 where
  pub hostname_backends : List HostnameProvisioner
  pub user_backends : List UserProvisioner
  pub password_backends : List PasswordProvisioner
  pub authorized_keys_path : Bytes
  pub query_sshd_config : Bool
  pub configure_sshd_password_authentication : Bool

pub record User : Type 0 where
  pub name : Bytes
  pub groups : List Bytes
  pub ssh_keys : List PublicKeys
  pub password : Option Bytes

unfoldable pub new_user : Bytes → List PublicKeys → User
new_user name keys = record { name = name; groups = []; ssh_keys = keys; password = none }

unfoldable pub with_password : User → Bytes → User
with_password user password = record user { password = some password }

unfoldable pub with_groups : User → List Bytes → User
with_groups user groups = record user { groups = groups }

-- The paths of the programs that the build sets, and whether sshd's drop-in directory is there.
pub record Paths : Type 0 where
  pub hostnamectl : Bytes
  pub useradd : Bytes
  pub passwd : Bytes
  pub drop_in_dir : Bool

abbrev pub or_next :
    (Sys (Unit {0})) → Result Error (Unit {0}) × Machine → Result Error (Unit {0}) × Machine
or_next next (ok done, m) = (ok tt, m)
or_next next (err failed, m) = next m

-- `find_map(… .ok()).ok_or(e)`: the backends are tried until one succeeds.
unfoldable pub first_success : {B : Type 0} → (B → Sys (Unit {0})) → Error → List B → Sys (Unit {0})
first_success try e [] = fail e
first_success try e (b ∷ bs) = λ m. or_next (first_success try e bs) (try b m)

-- `join(",")`
unfoldable pub join_commas : List Bytes → Bytes
join_commas [] = []
join_commas (g ∷ []) = g
join_commas (g ∷ h ∷ gs) = g ++ codes "," ++ join_commas (h ∷ gs)

abbrev pub exists_from : Answer × Machine → Result Error Bool × Machine
exists_from (success, m) = (ok true, m)
exists_from (exit_status s, m) = (ok false, m)
exists_from (io_error, m) = (err io, m)

unfoldable pub user_exists : Bytes → Sys Bool
user_exists username m =
    exists_from (attempt (run_program (codes "getent") (codes "passwd" ∷ username ∷ [])) m)

abbrev home_of : Bytes → Bytes
home_of name = codes "/home/" ++ name

module _ (paths : Paths) where
  -- `hostnamectl set-hostname`
  unfoldable pub set_with_hostnamectl : Bytes → Sys (Unit {0})
  set_with_hostnamectl hostname = run paths.hostnamectl (codes "set-hostname" ∷ hostname ∷ [])

  abbrev pub add_or_modify : User → Bool → Sys (Unit {0})
  add_or_modify user true =
      run (codes "usermod") (codes "-aG" ∷ join_commas user.groups ∷ user.name ∷ [])
  add_or_modify user false = run paths.useradd (
      user.name
      ∷ codes "--comment"
      ∷ codes "azure-init created this user based on username provided in IMDS"
      ∷ codes "--groups"
      ∷ join_commas user.groups
      ∷ codes "-d"
      ∷ home_of user.name
      ∷ codes "-m"
      ∷ [])

  -- The function `useradd`.
  unfoldable pub useradd_user : User → Sys (Unit {0})
  unfolding user_exists join_commas
  useradd_user user = do there ← user_exists user.name; add_or_modify user there

  unfoldable pub add_user_for_passwordless_sudo : Bytes → Bytes → Sys (Unit {0})
  add_user_for_passwordless_sudo username path = do
    call (open_truncate path 0o600)
    call (write path (username ++ codes " ALL=(ALL) NOPASSWD: ALL\n"))
    call (flush path)

  -- `UserProvisioner::create`
  unfoldable pub create_with_useradd : User → Sys (Unit {0})
  unfolding useradd_user add_user_for_passwordless_sudo
  create_with_useradd user = do
    useradd_user user
    add_user_for_passwordless_sudo user.name (codes "/etc/sudoers.d/azure-init-user")

  abbrev pub waited : Answer × Machine → Result Error (Unit {0}) × Machine
  waited (success, m) = (ok tt, m)
  waited (exit_status s, m) = (err (subprocess_failed (codes "chpasswd") s), m)
  waited (io_error, m) = (err io, m)

  unfoldable pub feed_chpasswd : Bytes → Bytes → Sys (Unit {0})
  feed_chpasswd username password = do
    call (spawn (codes "chpasswd"))
    call (feed (username ++ b':' ∷ password))
    λ m. waited (attempt (wait (codes "chpasswd")) m)

  unfoldable pub set_user_password : Bytes → Bytes → Sys (Unit {0})
  unfolding feed_chpasswd
  set_user_password username password =
      if is_empty username
      then fail (unhandled_error (codes "Username cannot be empty"))
      else if is_empty password
      then fail (unhandled_error (codes "Password cannot be empty"))
      else feed_chpasswd username password

  unfoldable pub lock_user : Bytes → Sys (Unit {0})
  lock_user username =
      if is_empty username
      then fail (unhandled_error (codes "Username cannot be empty"))
      else run paths.passwd (codes "-l" ∷ username ∷ [])

  abbrev pub set_or_lock : Bytes → Option Bytes → Sys (Unit {0})
  set_or_lock username none = lock_user username
  set_or_lock username (some password) = set_user_password username password

  -- The function `passwd`.
  unfoldable pub passwd_user : User → Sys (Unit {0})
  unfolding lock_user set_user_password
  passwd_user user = set_or_lock user.name user.password

  abbrev pub try_hostname : Bytes → HostnameProvisioner → Sys (Unit {0})
  try_hostname hostname hostnamectl = set_with_hostnamectl hostname

  abbrev pub try_user : User → UserProvisioner → Sys (Unit {0})
  try_user user useradd = create_with_useradd user

  abbrev pub try_password : User → PasswordProvisioner → Sys (Unit {0})
  try_password user passwd = passwd_user user

  module _ (regex : Regex) (config : Config) where
    unfoldable pub set_hostname : Bytes → Sys (Unit {0})
    unfolding first_success set_with_hostnamectl
    set_hostname hostname =
        first_success (try_hostname hostname) no_hostname_provisioner config.hostname_backends

    unfoldable pub create_user : User → Sys (Unit {0})
    unfolding first_success create_with_useradd
    create_user user = first_success (try_user user) no_user_provisioner config.user_backends

    unfoldable pub set_password : User → Sys (Unit {0})
    unfolding first_success passwd_user
    set_password user =
        first_success (try_password user) no_password_provisioner config.password_backends

    unfoldable pub provision_core : Bytes → User → Sys (Unit {0})
    unfolding set_hostname create_user set_password
    provision_core hostname user = do set_hostname hostname; create_user user; set_password user

    abbrev pub any_config_error :
        Result Error (Unit {0}) × Machine → Result Error (Unit {0}) × Machine
    any_config_error (ok done, m) = (ok tt, m)
    any_config_error (err e, m) = (err update_sshd_config_failed, m)

    abbrev pub update_if : Bool → Bool → Sys (Unit {0})
    update_if false disable m = pure tt m
    update_if true disable m =
        any_config_error
          (update_sshd_config regex (get_sshd_config_path paths.drop_in_dir) disable m)

    unfoldable pub update_ssh_config : Bool → Sys (Unit {0})
    unfolding update_sshd_config get_sshd_config_path
    update_ssh_config disable = update_if config.configure_sshd_password_authentication disable

    abbrev pub keys_of_user : User → Option SshUser → Sys (Unit {0})
    keys_of_user user none = fail (user_missing user.name)
    keys_of_user user (some ssh_user) =
        provision_ssh ssh_user user.ssh_keys config.authorized_keys_path config.query_sshd_config

    abbrev pub keys_unless_none : User → List PublicKeys → Sys (Unit {0})
    keys_unless_none user [] m = pure tt m
    keys_unless_none user (key ∷ keys) m = keys_of_user user (m.lookup m.log user.name) m

    unfoldable pub provision_ssh_keys : User → Sys (Unit {0})
    unfolding provision_ssh
    provision_ssh_keys user = keys_unless_none user user.ssh_keys

    unfoldable pub provision : Bytes → User → Bool → Sys (Unit {0})
    unfolding provision_core update_ssh_config provision_ssh_keys
    provision hostname user disable_password_authentication = do
      provision_core hostname user
      update_ssh_config disable_password_authentication
      provision_ssh_keys user
