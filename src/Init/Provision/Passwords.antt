-- ===== src/Init/Provision/Passwords.antt =====
-- Provisioning a user without a password.
use azure_init.Prelude.{◌≡◌, Bool, true, false, Option, none, some, Bytes, All, [], ◌∷◌, All-append}
use azure_init.Result.{Result, ok, err}
use azure_init.Init.Error.{Error}
use azure_init.Init.Machine.{Action, Machine, attempt}
use azure_init.Init.Provision.Ssh.{
  Regex, replace_setting, append_setting, edit_config, create_config, update_content,
  update_sshd_config, get_sshd_config_path,
}
use azure_init.Init.Provision.{
  Config, User, Paths, any_config_error, update_if, update_ssh_config, provision,
}
use azure_init.Init.Provision.Effects.{
  Permitted, Kept, Keeps, MayUse, pure-Keeps, bind-Keeps, if-Keeps, call-Keeps, core-Keeps,
  ssh_keys-Keeps,
}

-- Only permitted acts were done on the way.
abbrev pub StaysPermitted : Paths → Machine → Machine → Type 0
StaysPermitted paths m m' = All (Permitted paths) m.log → All (Permitted paths) m'.log

pub only_permitted : (paths : Paths) → Kept paths (Permitted paths) (StaysPermitted paths)
unfolding attempt
only_permitted paths = record {
  same = λ m h. h;
  along = λ a b c f g h. g (f h);
  across = λ act m allowed h. All-append (Permitted paths) m.log (act ∷ []) h (allowed, tt);
  changed = λ act m h. h;
  permitted = λ act h. h;
}

pub no_password :
    (paths : Paths) (password : Option Bytes)
    → password ≡ none
    → MayUse (only_permitted paths) password
no_password paths none e = tt
no_password paths (some password) e = cc

module _ {paths : Paths} {Allowed : Action → Type 0} {R : Machine → Machine → Type 0}
    (kept : Kept paths Allowed R) where
  module _ (regex : Regex) (path : Bytes) (disable : Bool) where
    replace-Keeps : (content : Bytes) → Keeps kept (replace_setting regex path disable content)
    unfolding replace_setting
    replace-Keeps content =
        bind-Keeps kept _ _ (call-Keeps kept _ tt) (λ opened. call-Keeps kept _ tt)

    append-Keeps : (content : Bytes) → Keeps kept (append_setting regex path disable content)
    unfolding append_setting
    append-Keeps content =
        bind-Keeps kept _ _ (call-Keeps kept _ tt) (λ opened. call-Keeps kept _ tt)

    update_content-Keeps : (old : Option Bytes) → Keeps kept (update_content regex old path disable)
    unfolding create_config edit_config
    update_content-Keeps none =
        bind-Keeps kept _ _ (call-Keeps kept _ tt)
          (λ created. bind-Keeps kept _ _ (call-Keeps kept _ tt) (λ moded. call-Keeps kept _ tt))
    update_content-Keeps (some content) = bind-Keeps kept _ _ (call-Keeps kept _ tt) (λ opened.
        bind-Keeps kept _ _ (call-Keeps kept _ tt) (λ done.
          if-Keeps kept (regex.is_match content) _ _ (replace-Keeps content)
            (append-Keeps content)))

  module _ (regex : Regex) (config : Config) where
    update_if-Keeps :
        (wanted disable : Bool) → Keeps kept (update_if paths regex config wanted disable)
    update_if-Keeps false disable = pure-Keeps kept tt
    update_if-Keeps true disable = record { holds = λ m. after m _ (updated m) }
      where
        after :
            (m : Machine) (r : Result Error (Unit {0}) × Machine)
            → R m r.1
            → R m (any_config_error paths regex config r).1
        after m (ok done, m') h = h
        after m (err e, m') h = h

        updated :
            (m : Machine)
            → R m (update_sshd_config regex (get_sshd_config_path paths.drop_in_dir) disable m).1
        updated m =
            unfold update_sshd_config in
            (update_content-Keeps regex (get_sshd_config_path paths.drop_in_dir) disable
                (m.files (get_sshd_config_path paths.drop_in_dir))).holds
              m

    pub provision-Keeps :
        (hostname : Bytes) (user : User) (disable : Bool)
        → MayUse kept user.password
        → Keeps kept (provision paths regex config hostname user disable)
    unfolding provision update_ssh_config
    provision-Keeps hostname user disable h =
        bind-Keeps kept _ _ (core-Keeps kept regex config hostname user h) (λ done.
          bind-Keeps kept _ _
            (update_if-Keeps config.configure_sshd_password_authentication disable)
            (λ updated. ssh_keys-Keeps kept regex config user))

-- A user without a password: whatever the calls answer, and whether provisioning succeeds or stops
-- on the way, all that it does is permitted.
pub provision-Permitted :
    (paths : Paths) (regex : Regex) (config : Config) (hostname : Bytes) (user : User)
    (disable : Bool) (m : Machine)
    → user.password ≡ none
    → StaysPermitted paths m (provision paths regex config hostname user disable m).1
provision-Permitted paths regex config hostname user disable m e =
    (provision-Keeps (only_permitted paths) regex config hostname user disable
        (no_password paths user.password e)).holds
      m
