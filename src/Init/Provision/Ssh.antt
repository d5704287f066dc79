-- ===== src/Init/Provision/Ssh.antt =====
-- SSH keys and the configuration of sshd (libazureinit/src/provision/ssh.rs).
use azure_init.Prelude.{
  ℕ, Bool, true, false, ◌||◌, ◌&&◌, Option, none, some, List, [], ◌∷◌, ◌++◌, leb, ◌==◌,
  if◌then◌else◌, Bytes, codes,
}
use azure_init.Text.{split, starts_with, is_empty}
use azure_init.Init.Imds.{PublicKeys}
use azure_init.Init.Machine.{
  run_program, create_dir, create_file, open_existing, open_emptied, set_mode, chown, write, read,
  Answer, success, exit_status, io_error, SshUser, Machine, Sys, pure, ◌>>=◌, ◌>>◌, attempt, call,
}

abbrev is_whitespace : ℕ → Bool
is_whitespace b = (leb 9 b && leb b 13) || (b == b' ')

abbrev add_word : Bytes → List Bytes → List Bytes
add_word word words = if is_empty word then words else word ∷ words

-- `split_whitespace`, with the characters of a word read so far.
unfoldable pub words_from : Bytes → Bytes → List Bytes
words_from word [] = add_word word []
words_from word (b ∷ bs) =
    let next = words_from [] bs in
    let longer = words_from (word ++ b ∷ []) bs in
    if is_whitespace b then add_word word next else longer

abbrev pub second : List Bytes → Option Bytes
second (a ∷ b ∷ words) = some b
second _ = none

abbrev pub or_later : Option Bytes → Option Bytes → Option Bytes
or_later none later = later
or_later (some path) later = some path

-- The first line of the setting that has a path. What `lines` strips of a line is white space.
unfoldable pub keys_path_of : List Bytes → Option Bytes
unfolding words_from
keys_path_of [] = none
keys_path_of (line ∷ lines) =
    let later = keys_path_of lines in
    if starts_with (codes "authorizedkeysfile") line
    then or_later (second (words_from [] line)) later
    else later

unfoldable pub extract_authorized_keys_file_path : Bytes → Option Bytes
unfolding keys_path_of
extract_authorized_keys_file_path stdout = keys_path_of (split b'\n' stdout)

abbrev pub path_from_output : Answer × Machine → Option Bytes × Machine
path_from_output (success, m) = (extract_authorized_keys_file_path m.sshd_output, m)
path_from_output (exit_status s, m) = (none, m)
path_from_output (io_error, m) = (none, m)

-- `get_authorized_keys_path_from_sshd` of the command `sshd -G`.
unfoldable pub keys_path_from_sshd : Machine → Option Bytes × Machine
unfolding extract_authorized_keys_file_path
keys_path_from_sshd m = path_from_output (attempt (run_program (codes "sshd") (codes "-G" ∷ [])) m)

abbrev ends_with_slash : Bytes → Bool
ends_with_slash [] = true
ends_with_slash (b ∷ []) = b == b'/'
ends_with_slash (b ∷ c ∷ bs) = ends_with_slash (c ∷ bs)

-- `Path::join`: an absolute path replaces the base.
unfoldable pub join : Bytes → Bytes → Bytes
join base path =
    if starts_with (codes "/") path
    then path
    else if ends_with_slash base
    then base ++ path
    else base ++ b'/' ∷ path

abbrev or_configured : Bytes → Option Bytes → Bytes
or_configured configured none = configured
or_configured configured (some path) = path

-- Where the keys go: asked of sshd if that is configured.
abbrev pub keys_path : SshUser → Bytes → Bool → Sys Bytes
keys_path user configured false m = pure (join user.home_dir configured) m
keys_path user configured true m =
    pure (join user.home_dir (or_configured configured (keys_path_from_sshd m).0))
      (keys_path_from_sshd m).1

unfoldable pub write_keys : Bytes → List PublicKeys → Sys (Unit {0})
write_keys path [] = pure tt
write_keys path (key ∷ keys) = do
  call (write path (key.key_data ++ b'\n' ∷ []))
  write_keys path keys

unfoldable pub provision_ssh : SshUser → List PublicKeys → Bytes → Bool → Sys (Unit {0})
unfolding keys_path_from_sshd join write_keys
provision_ssh user keys authorized_keys_path query_sshd_config = do
  path ← keys_path user authorized_keys_path query_sshd_config
  let ssh_dir = join user.home_dir (codes ".ssh")
  call (create_dir ssh_dir 0o700)
  call (set_mode ssh_dir 0o700)
  call (chown ssh_dir user.uid user.gid)
  call (create_file path)
  call (set_mode path 0o600)
  write_keys path keys
  call (chown path user.uid user.gid)

-- PASSWORD_REGEX in its two uses: whether it matches, and what replacing its matches gives.
pub record Regex : Type 0 where
  pub is_match : Bytes → Bool
  pub replace_all : Bytes → Bytes → Bytes

-- `resolve_sshd_config_path`
unfoldable pub get_sshd_config_path : Bool → Bytes
get_sshd_config_path true = codes "/etc/ssh/sshd_config.d/50-azure-init.conf"
get_sshd_config_path false = codes "/etc/ssh/sshd_config"

abbrev pub setting : Bool → Bytes
setting disable = codes "PasswordAuthentication " ++ (if disable then codes "no" else codes "yes")

module _ (regex : Regex) where
  unfoldable pub replace_setting : Bytes → Bool → Bytes → Sys (Unit {0})
  replace_setting path disable content = do
    let modified =
        regex.replace_all content (setting disable ++ codes " # modified by azure-init\n")
    call (open_emptied path)
    call (write path modified)

  unfoldable pub append_setting : Bytes → Bool → Bytes → Sys (Unit {0})
  append_setting path disable content = do
    let line = setting disable ++ codes " # added by azure-init\n"
    call (open_existing path)
    call (write path line)

  -- The file is there with this content.
  unfoldable pub edit_config : Bytes → Bool → Bytes → Sys (Unit {0})
  unfolding replace_setting append_setting
  edit_config path disable content = do
    call (open_existing path)
    call (read path)
    if regex.is_match content
        then replace_setting path disable content
        else append_setting path disable content

  unfoldable pub create_config : Bytes → Bool → Sys (Unit {0})
  create_config path disable = do
    call (create_file path)
    call (set_mode path 0o600)
    call (write path (setting disable ++ codes "\n"))

  abbrev pub update_content : Option Bytes → Bytes → Bool → Sys (Unit {0})
  update_content none path disable = create_config path disable
  update_content (some content) path disable = edit_config path disable content

  unfoldable pub update_sshd_config : Bytes → Bool → Sys (Unit {0})
  unfolding edit_config create_config
  update_sshd_config path disable m = update_content (m.files path) path disable m
