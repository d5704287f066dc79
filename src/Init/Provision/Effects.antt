-- ===== src/Init/Provision/Effects.antt =====
-- What provisioning leaves alone: relations between the machine before and after that each step keeps.
use azure_init.Prelude.{
  ℕ, Bool, true, false, Option, none, some, List, [], ◌∷◌, ◌++◌, Bytes, codes, if◌then◌else◌,
}
use azure_init.Result.{Result, ok, err}
use azure_init.Text.{is_empty}
use azure_init.Init.Error.{Error}
use azure_init.Init.Imds.{PublicKeys}
use azure_init.Init.Machine.{
  Action, run_program, spawn, feed, wait, create_dir, create_file, open_truncate, set_mode, chown,
  write, flush, Answer, success, exit_status, io_error, Machine, Sys, pure, fail, continue, ◌>>=◌,
  attempt, answered, change, call, checked, run, SshUser,
}
use azure_init.Init.Provision.Ssh.{
  Regex, keys_path, path_from_output, keys_path_from_sshd, write_keys, provision_ssh,
}
use azure_init.Init.Provision.{
  Config, User, Paths, or_next, first_success, set_user_password, lock_user, user_exists,
  exists_from, waited, useradd_user, add_or_modify, create_with_useradd,
  add_user_for_passwordless_sudo, passwd_user, set_or_lock, HostnameProvisioner, UserProvisioner,
  PasswordProvisioner, set_with_hostnamectl, set_hostname, create_user, set_password,
  provision_core, provision_ssh_keys, keys_unless_none, keys_of_user, try_hostname, try_user,
  try_password, hostnamectl, useradd, passwd, feed_chpasswd,
}

-- The programs with their arguments that a provisioning without a password may run to their end:
-- `useradd` has no argument that sets a password, and `passwd` only locks.
pub data Program (paths : Paths) : Bytes → List Bytes → Type 0 where
  names_host :
      (hostname : Bytes) → Program paths paths.hostnamectl (codes "set-hostname" ∷ hostname ∷ [])
  finds_user : (name : Bytes) → Program paths (codes "getent") (codes "passwd" ∷ name ∷ [])
  adds_to_groups :
      (groups name : Bytes) → Program paths (codes "usermod") (codes "-aG" ∷ groups ∷ name ∷ [])
  adds_user :
      (groups name : Bytes)
      → Program paths paths.useradd (
          name
          ∷ codes "--comment"
          ∷ codes "azure-init created this user based on username provided in IMDS"
          ∷ codes "--groups"
          ∷ groups
          ∷ codes "-d"
          ∷ (codes "/home/" ++ name)
          ∷ codes "-m"
          ∷ [])
  locks_user : (name : Bytes) → Program paths paths.passwd (codes "-l" ∷ name ∷ [])
  asks_sshd : Program paths (codes "sshd") (codes "-G" ∷ [])
  mounts :
      (device : Bytes)
      → Program paths
          (codes "mount")
          (codes "-o" ∷ codes "ro" ∷ device ∷ codes "/run/azure-init/media/" ∷ [])
  unmounts : Program paths (codes "umount") (codes "/run/azure-init/media/" ∷ [])
  ejects : (device : Bytes) → Program paths (codes "eject") (device ∷ [])

-- One of these programs, or a call on files; no program that is started and fed its input.
abbrev pub Permitted : Paths → Action → Type 0
Permitted paths (run_program program args) = Program paths program args
Permitted paths (spawn p) = ⊥
Permitted paths (feed p) = ⊥
Permitted paths (wait p) = ⊥
Permitted paths _ = Unit

-- `R` holds between a machine and itself, along two steps, across each allowed act, and across what
-- an act does to the files.
pub record Kept (paths : Paths) (Allowed : Action → Type 0) (R : Machine → Machine → Type 0)
    : Type 0 where
  pub same : (m : Machine) → R m m
  pub along : (a b c : Machine) → R a b → R b c → R a c
  pub across : (act : Action) (m : Machine) → Allowed act → R m (attempt act m).1
  pub changed : (act : Action) (m : Machine) → R m (record m { files = change act m.files })
  pub permitted : (act : Action) → Permitted paths act → Allowed act

module _ {paths : Paths} {Allowed : Action → Type 0} {R : Machine → Machine → Type 0}
    (kept : Kept paths Allowed R) where
  -- `R` holds across the whole of `s`.
  pub record Keeps {A : Type 0} (s : Sys A) : Type 0 where
    pub holds : (m : Machine) → R m (s m).1

  pub pure-Keeps : {A : Type 0} (a : A) → Keeps (pure a)
  pure-Keeps a = record { holds = kept.same }

  pub fail-Keeps : {A : Type 0} (e : Error) → Keeps {A = A} (fail e)
  fail-Keeps e = record { holds = kept.same }

  pub bind-Keeps :
      {A B : Type 0} (s : Sys A) (f : A → Sys B)
      → Keeps s
      → ((a : A) → Keeps (f a))
      → Keeps (s >>= f)
  unfolding ◌>>=◌
  bind-Keeps {A} s f hs hf = record { holds = λ m. after m (s m) (hs.holds m) }
    where
      after : (m : Machine) (r : Result Error A × Machine) → R m r.1 → R m (continue r f).1
      after m (ok a, m') h = kept.along m m' (f a m').1 h ((hf a).holds m')
      after m (err e, m') h = h

  pub if-Keeps :
      {A : Type 0} (b : Bool) (s t : Sys A) → Keeps s → Keeps t → Keeps (if b then s else t)
  if-Keeps true s t hs ht = hs
  if-Keeps false s t hs ht = ht

  pub act-Keeps : (act : Action) → Allowed act → Keeps (call act)
  unfolding call
  act-Keeps act allowed = record {
    holds = λ m. after m (attempt act m) (kept.across act m allowed);
  }
    where
      after : (m : Machine) (r : Answer × Machine) → R m r.1 → R m (answered act r).1
      after m (success, m') k = kept.along m m' _ k (kept.changed act m')
      after m (exit_status s, m') k = k
      after m (io_error, m') k = k

  pub call-Keeps : (act : Action) → Permitted paths act → Keeps (call act)
  call-Keeps act h = act-Keeps act (kept.permitted act h)

  pub run-Keeps :
      (program : Bytes) (args : List Bytes) → Program paths program args → Keeps (run program args)
  unfolding run
  run-Keeps program args h = record {
    holds = λ m.
        after m (attempt (run_program program args) m)
          (kept.across (run_program program args) m (kept.permitted (run_program program args) h));
  }
    where
      after :
          (m : Machine) (r : Answer × Machine) → R m r.1 → R m (checked (m.debug program args) r).1
      after m (success, m') h = h
      after m (exit_status s, m') h = h
      after m (io_error, m') h = h

  first_success-Keeps :
      {B : Type 0} (try : B → Sys (Unit {0})) (e : Error) (bs : List B)
      → ((b : B) → Keeps (try b))
      → Keeps (first_success try e bs)
  unfolding first_success
  first_success-Keeps try e [] h = fail-Keeps e
  first_success-Keeps {B} try e (b ∷ bs) h = record {
    holds = λ m. after m (try b m) ((h b).holds m) (first_success-Keeps try e bs h);
  }
    where
      after :
          (m : Machine) (r : Result Error (Unit {0}) × Machine)
          → R m r.1
          → Keeps (first_success try e bs)
          → R m (or_next (first_success try e bs) r).1
      after m (ok u, m') k ih = k
      after m (err x, m') k ih = kept.along m m' (first_success try e bs m').1 k (ih.holds m')

  open_truncate-Keeps : (path : Bytes) (mode : ℕ) → Keeps (call (open_truncate path mode))
  open_truncate-Keeps path mode = call-Keeps (open_truncate path mode) tt

  write-Keeps : (path content : Bytes) → Keeps (call (write path content))
  write-Keeps path content = call-Keeps (write path content) tt

  flush-Keeps : (path : Bytes) → Keeps (call (flush path))
  flush-Keeps path = call-Keeps (flush path) tt

  create_dir-Keeps : (path : Bytes) (mode : ℕ) → Keeps (call (create_dir path mode))
  create_dir-Keeps path mode = call-Keeps (create_dir path mode) tt

  set_mode-Keeps : (path : Bytes) (mode : ℕ) → Keeps (call (set_mode path mode))
  set_mode-Keeps path mode = call-Keeps (set_mode path mode) tt

  chown-Keeps : (path : Bytes) (uid gid : ℕ) → Keeps (call (chown path uid gid))
  chown-Keeps path uid gid = call-Keeps (chown path uid gid) tt

  create_file-Keeps : (path : Bytes) → Keeps (call (create_file path))
  create_file-Keeps path = call-Keeps (create_file path) tt

  ruleset steps = (
    bind-Keeps, pure-Keeps, fail-Keeps, open_truncate-Keeps, write-Keeps, flush-Keeps,
    create_dir-Keeps, set_mode-Keeps, chown-Keeps, create_file-Keeps,
  )

  -- What setting a password may do is asked for only where there is one.
  abbrev pub MayUse : Option Bytes → Type 0
  MayUse none = Unit
  MayUse (some password) = (act : Action) → Allowed act

  user_exists-Keeps : (name : Bytes) → Keeps (user_exists name)
  unfolding user_exists
  user_exists-Keeps name = record {
    holds = λ m.
        after m (attempt (query name) m)
          (kept.across (query name) m (kept.permitted (query name) (finds_user name)));
  }
    where
      query : Bytes → Action
      query n = run_program (codes "getent") (codes "passwd" ∷ n ∷ [])

      after : (m : Machine) (r : Answer × Machine) → R m r.1 → R m (exists_from r).1
      after m (success, m') h = h
      after m (exit_status s, m') h = h
      after m (io_error, m') h = h

  keys_path-Keeps :
      (user : SshUser) (configured : Bytes) (query : Bool) → Keeps (keys_path user configured query)
  keys_path-Keeps user configured false = pure-Keeps _
  keys_path-Keeps user configured true = record { holds = λ m. asked m }
    where
      sshd : Action
      sshd = run_program (codes "sshd") (codes "-G" ∷ [])

      after : (m : Machine) (r : Answer × Machine) → R m r.1 → R m (path_from_output r).1
      after m (success, m') h = h
      after m (exit_status s, m') h = h
      after m (io_error, m') h = h

      asked : (m : Machine) → R m (keys_path_from_sshd m).1
      asked m =
          unfold keys_path_from_sshd in
          after m (attempt sshd m) (kept.across sshd m (kept.permitted sshd asks_sshd))

  write_keys-Keeps : (path : Bytes) (keys : List PublicKeys) → Keeps (write_keys path keys)
  unfolding write_keys
  write_keys-Keeps path [] = pure-Keeps tt
  write_keys-Keeps path (key ∷ keys) =
      bind-Keeps _ _ (write-Keeps path _) (λ done. write_keys-Keeps path keys)

  provision_ssh-Keeps :
      (user : SshUser) (keys : List PublicKeys) (path : Bytes) (query : Bool)
      → Keeps (provision_ssh user keys path query)
  unfolding provision_ssh
  provision_ssh-Keeps user keys path query =
      search (steps, keys_path-Keeps, write_keys-Keeps) depth 12

  add_or_modify-Keeps : (user : User) (there : Bool) → Keeps (add_or_modify paths user there)
  add_or_modify-Keeps user true = run-Keeps _ _ (adds_to_groups _ _)
  add_or_modify-Keeps user false = run-Keeps _ _ (adds_user _ _)

  create_with_useradd-Keeps : (user : User) → Keeps (create_with_useradd paths user)
  unfolding create_with_useradd add_user_for_passwordless_sudo useradd_user
  create_with_useradd-Keeps user = search (steps, user_exists-Keeps, add_or_modify-Keeps) depth 9

  set_user_password-Keeps :
      (name password : Bytes)
      → ((act : Action) → Allowed act)
      → Keeps (set_user_password paths name password)
  unfolding set_user_password feed_chpasswd
  set_user_password-Keeps name password all = if-Keeps (is_empty name) _ _ (fail-Keeps _) (
      if-Keeps (is_empty password) _ _ (fail-Keeps _) (
        bind-Keeps _ _ (act-Keeps (spawn (codes "chpasswd")) (all _)) (λ started.
          bind-Keeps _ _ (act-Keeps (feed (name ++ b':' ∷ password)) (all _))
            (λ fed. waited-Keeps))))
    where
      after : (m : Machine) (r : Answer × Machine) → R m r.1 → R m (waited paths r).1
      after m (success, m') h = h
      after m (exit_status s, m') h = h
      after m (io_error, m') h = h

      waited-Keeps : Keeps (λ m. waited paths (attempt (wait (codes "chpasswd")) m))
      waited-Keeps = record {
        holds = λ m.
            after m (attempt (wait (codes "chpasswd")) m)
              (kept.across (wait (codes "chpasswd")) m (all (wait (codes "chpasswd"))));
      }

  set_or_lock-Keeps :
      (name : Bytes) (password : Option Bytes)
      → MayUse password
      → Keeps (set_or_lock paths name password)
  set_or_lock-Keeps name none h =
      unfold lock_user in
      if-Keeps (is_empty name) _ _ (fail-Keeps _) (run-Keeps _ _ (locks_user name))
  set_or_lock-Keeps name (some password) h = set_user_password-Keeps name password h

  module _ (regex : Regex) (config : Config) where
    pub core-Keeps :
        (hostname : Bytes) (user : User)
        → MayUse user.password
        → Keeps (provision_core paths regex config hostname user)
    unfolding provision_core set_hostname create_user set_password passwd_user set_with_hostnamectl
    core-Keeps hostname user h = bind-Keeps _ _ (first_success-Keeps _ _ _ hostnames) (λ named.
        bind-Keeps _ _ (first_success-Keeps _ _ _ users)
          (λ created. first_success-Keeps _ _ _ passwords))
      where
        hostnames : (b : HostnameProvisioner) → Keeps (try_hostname paths hostname b)
        hostnames hostnamectl = run-Keeps _ _ (names_host hostname)

        users : (b : UserProvisioner) → Keeps (try_user paths user b)
        users useradd = create_with_useradd-Keeps user

        passwords : (b : PasswordProvisioner) → Keeps (try_password paths user b)
        passwords passwd = set_or_lock-Keeps user.name user.password h

    pub ssh_keys-Keeps : (user : User) → Keeps (provision_ssh_keys paths regex config user)
    unfolding provision_ssh_keys
    ssh_keys-Keeps user = record { holds = λ m. of_keys m user.ssh_keys }
      where
        found :
            (m : Machine) (u : Option SshUser) → R m (keys_of_user paths regex config user u m).1
        found m none = kept.same m
        found m (some u) =
            (provision_ssh-Keeps u user.ssh_keys config.authorized_keys_path
                config.query_sshd_config).holds
              m

        of_keys :
            (m : Machine) (keys : List PublicKeys)
            → R m (keys_unless_none paths regex config user keys m).1
        of_keys m [] = kept.same m
        of_keys m (key ∷ keys) = found m (m.lookup m.log user.name)
