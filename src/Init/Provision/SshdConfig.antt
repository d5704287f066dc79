-- ===== src/Init/Provision/SshdConfig.antt =====
-- The configuration of sshd after `update_ssh_config` (libazureinit/src/provision/mod.rs).
use azure_init.Prelude.{
  ◌≡◌, ◌⊎◌, Bool, true, false, Option, none, some, List, [], ◌++◌, Bytes, codes, if◌then◌else◌, All,
}
use azure_init.Result.{Result, ok, err}
use azure_init.Init.Error.{Error, update_sshd_config_failed}
use azure_init.Init.Machine.{write, Answer, success, Files, Machine, Sys, put, change}
use azure_init.Init.Provision.Ssh.{Regex, setting}
use azure_init.Init.Provision.{Config, Paths}

-- The file that has the setting, and the lines that it is written as.
abbrev pub sshd_file : Bool → Bytes
sshd_file true = codes "/etc/ssh/sshd_config.d/50-azure-init.conf"
sshd_file false = codes "/etc/ssh/sshd_config"

abbrev pub new_line : Bool → Bytes
new_line true = codes "PasswordAuthentication no\n"
new_line false = codes "PasswordAuthentication yes\n"

abbrev pub modified_line : Bool → Bytes
modified_line true = codes "PasswordAuthentication no # modified by azure-init\n"
modified_line false = codes "PasswordAuthentication yes # modified by azure-init\n"

abbrev pub added_line : Bool → Bytes
added_line true = codes "PasswordAuthentication no # added by azure-init\n"
added_line false = codes "PasswordAuthentication yes # added by azure-init\n"

abbrev pub configured : Regex → Bool → Option Bytes → Bytes
configured regex disable none = new_line disable
configured regex disable (some content) =
    if regex.is_match content
    then regex.replace_all content (modified_line disable)
    else content ++ added_line disable

-- No call that is still to come fails.
abbrev pub AllSucceed : List Answer → Type 0
AllSucceed answers = All (λ a. a ≡ success) answers

-- A step that goes through leaves these files; one that fails had an answer that is no success.
abbrev Ended : {A : Type 0} → Machine → Files → Result Error A × Machine → Type 0
Ended m files (ok a, m') = (m'.files ≡ files) × (AllSucceed m.answers → AllSucceed m'.answers)
Ended m files (err e, m') = AllSucceed m.answers → ⊥

abbrev Ends : {A : Type 0} → (Files → Files) → Sys A → Type 0
Ends f s = (m : Machine) → Ended m (f m.files) (s m)

module _ (regex : Regex) (path : Bytes) (disable : Bool) where
  abbrev modified : Bytes → Bytes
  modified content =
      regex.replace_all content (setting disable ++ codes " # modified by azure-init\n")

  abbrev added : Bytes
  added = setting disable ++ codes " # added by azure-init\n"

  -- What the calls do to the files, one after the other.
  abbrev edits : Bytes → Bool → Files → Files
  edits content true files = change (write path (modified content)) (put path [] files)
  edits content false files = change (write path added) files

  abbrev updates : Option Bytes → Files → Files
  updates none files = change (write path (setting disable ++ codes "\n")) (put path [] files)
  updates (some content) files = edits content (regex.is_match content) files

module _ (paths : Paths) (regex : Regex) (config : Config) (disable : Bool) (m : Machine)
    (q : Bytes) where
  -- The file at `q` afterwards.
  abbrev pub SettledAs : Option Bytes → Result Error (Unit {0}) × Machine → Type 0
  SettledAs content r =
      ((r.0 ≡ ok tt) × (r.1.files q ≡ content))
      ⊎ ((r.0 ≡ err update_sshd_config_failed) × (AllSucceed m.answers → ⊥))
