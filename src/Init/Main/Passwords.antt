-- ===== src/Init/Main/Passwords.antt =====
-- The programs that a run of the agent starts.
use azure_init.Prelude.{refl, Option, none, some, List, [], ◌∷◌, Bytes, Bool, true, false, All}
use azure_init.Result.{Result, ok, err}
use azure_init.Init.Error.{Error}
use azure_init.Init.Imds.{InstanceMetadata}
use azure_init.Init.Status.{Disk, is_provisioning_complete}
use azure_init.Init.Machine.{Action, Machine}
use azure_init.Init.Media.{
  Environment, mount, unmount, read_ovf_env_to_string, mount_parse_ovf_env, get_mount_device,
}
use azure_init.Init.Provision.{Paths, new_user, with_groups}
use azure_init.Init.Provision.Effects.{
  Permitted, mounts, unmounts, ejects, Kept, Keeps, bind-Keeps, pure-Keeps, fail-Keeps, call-Keeps,
  run-Keeps,
}
use azure_init.Init.Provision.Passwords.{StaysPermitted, only_permitted, provision-Permitted}
use azure_init.Init.Main.{
  Given, metadata_of, found_or, find_environment, on_devices, get_environment, with_metadata,
  with_username, provision_machine, then_mark, provision_vm, after_provision, unless_complete,
  provision_once,
}

module _ {paths : Paths} {Allowed : Action → Type 0} {R : Machine → Machine → Type 0}
    (kept : Kept paths Allowed R) where
  mount-Keeps : (device : Bytes) → Keeps kept (mount device)
  unfolding mount
  mount-Keeps device = bind-Keeps kept _ _ (call-Keeps kept _ tt) (λ created.
      bind-Keeps kept _ _ (call-Keeps kept _ tt) (λ found.
        bind-Keeps kept _ _ (call-Keeps kept _ tt) (λ moded. run-Keeps kept _ _ (mounts device))))

  unmount-Keeps : (device : Bytes) → Keeps kept (unmount device)
  unfolding unmount
  unmount-Keeps device =
      bind-Keeps kept _ _ (run-Keeps kept _ _ unmounts)
        (λ unmounted. run-Keeps kept _ _ (ejects device))

  module _ (contents : List Action → Bytes) (parse : Bytes → Option Environment) where
    read-Keeps : Keeps kept (read_ovf_env_to_string contents parse)
    unfolding read_ovf_env_to_string
    read-Keeps = bind-Keeps kept _ _ (call-Keeps kept _ tt) (λ opened.
        bind-Keeps kept _ _ (call-Keeps kept _ tt) (λ done. record { holds = kept.same }))

    pub media-Keeps : (device : Bytes) → Keeps kept (mount_parse_ovf_env contents parse device)
    unfolding mount_parse_ovf_env
    media-Keeps device = bind-Keeps kept _ _ (mount-Keeps device) (λ mounted.
        bind-Keeps kept _ _ read-Keeps (λ body.
          bind-Keeps kept _ _ (record { holds = kept.same })
            (λ environment.
              bind-Keeps kept _ _ (unmount-Keeps device) (λ done. pure-Keeps kept _))))

found-Stays :
    (paths : Paths) (found : Option Environment) (r : Result Error Environment × Machine)
    → All (Permitted paths) r.1.log
    → All (Permitted paths) (found_or found r).1.log
found-Stays paths found (ok e, m) h = h
found-Stays paths found (err e, m) h = h

module _ (g : Given) where
  find-Stays :
      (found : Option Environment) (devices : List Bytes) (m : Machine)
      → StaysPermitted g.paths m (find_environment g found devices m).1
  unfolding find_environment
  find-Stays found [] m h = h
  find-Stays found (device ∷ devices) m h =
      let r = found_or found (mount_parse_ovf_env g.contents g.parse_xml device m) in
      find-Stays r.0 devices r.1 (
        found-Stays g.paths found (mount_parse_ovf_env g.contents g.parse_xml device m)
          ((media-Keeps (only_permitted g.paths) g.contents g.parse_xml device).holds m h))

  devices-Stays :
      (devices : Result Error (List Bytes)) (m : Machine)
      → StaysPermitted g.paths m (on_devices g devices m).1
  devices-Stays (ok devices) m h = find-Stays none devices m h
  devices-Stays (err e) m h = h

  metadata-Stays :
      (metadata : Option InstanceMetadata) (username : Bytes)
      → Keeps (only_permitted g.paths) (with_metadata g metadata username)
  unfolding new_user with_groups
  metadata-Stays none username = fail-Keeps (only_permitted g.paths) _
  metadata-Stays (some im) username = record {
    holds = λ m.
        provision-Permitted g.paths g.regex g.config im.compute.os_profile.computer_name
          (with_groups (new_user username im.compute.public_keys) g.groups)
          im.compute.os_profile.disable_password_authentication m refl;
  }

  username-Stays :
      (username : Result Error Bytes) → Keeps (only_permitted g.paths) (with_username g username)
  username-Stays (err e) = fail-Keeps (only_permitted g.paths) e
  username-Stays (ok username) = metadata-Stays (metadata_of g) username

  machine-Stays : Keeps (only_permitted g.paths) (provision_machine g)
  unfolding provision_machine get_environment
  machine-Stays = record {
    holds = λ m h. (username-Stays _).holds _ (devices-Stays (get_mount_device g.mount_table) m h);
  }

  module _ (vm_id : Bytes) (m : Machine) (d : Disk) (h : All (Permitted g.paths) m.log) where
    ended :
        (r : Result Error (Unit {0}) × (Machine × Disk))
        → All (Permitted g.paths) r.1.0.log
        → All (Permitted g.paths) (after_provision g vm_id r).machine.log
    ended (ok finished, (m', d')) k = k
    ended (err e, (m', d')) k = k

    marked :
        (r : Result Error (Unit {0}) × Machine)
        → All (Permitted g.paths) r.1.log
        → All (Permitted g.paths) (then_mark g vm_id d r).1.0.log
    marked (ok finished, m') k = k
    marked (err e, m') k = k

    checked :
        (complete : Bool)
        → All (Permitted g.paths) (unless_complete g complete vm_id m d).machine.log
    unfolding provision_vm
    checked true = h
    checked false =
        ended (then_mark g vm_id d (provision_machine g m))
          (marked (provision_machine g m) (machine-Stays.holds m h))

    -- Where only permitted acts were done before, only permitted ones were done after a run of the
    -- agent, whatever the metadata, the media and the configuration say and whatever the calls
    -- answer: each program it runs is one of `Program`, with arguments of that form, and none is
    -- started to be fed a password. What is written to files is not restricted.
    pub provision_once-Permitted : All (Permitted g.paths) (provision_once g vm_id m d).machine.log
    unfolding provision_once
    provision_once-Permitted = checked (is_provisioning_complete d vm_id)
