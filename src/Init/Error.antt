-- ===== src/Init/Error.antt =====
-- The errors of libazureinit and how they are reported (libazureinit/src/error.rs, and the encoding
-- of reports in libazureinit/src/health.rs). What an error of another crate says is left out.
pub mod Reports
mod Tests
use azure_init.Prelude.{ℕ, Option, none, some, List, [], ◌∷◌, ◌++◌, map, Bytes, codes}
use azure_init.Text.{to_decimal}
use azure_init.Kvp.Store.Record.{Entry}
use azure_init.Kvp.Report.{Csv, pop_newline, field_text}

pub data Error : Type 0 where
  json xml http io nul_error rustix block_utils : Error
  http_status : Bytes → ℕ → Error
  subprocess_failed : Bytes → Bytes → Error
  user_missing : Bytes → Error
  username_failure instance_metadata_failure non_empty_password : Error
  no_hostname_provisioner no_user_provisioner no_password_provisioner : Error
  timeout update_sshd_config_failed : Error
  load_sshd_config : Bytes → Error
  unhandled_error : Bytes → Error

abbrev pub documentation_url_text : Bytes
documentation_url_text = codes "https://aka.ms/linuxprovisioningerror"

unfoldable pub reason : Error → Bytes
reason json = codes "JSON error"
reason xml = codes "XML error"
reason http = codes "HTTP error"
reason io = codes "I/O error"
reason (http_status endpoint status) = codes "http status error"
reason (subprocess_failed command status) = codes "subprocess failed"
reason nul_error = codes "C string nul byte"
reason rustix = codes "rustix error"
reason (user_missing user) = codes "user not found"
reason username_failure = codes "failed to determine username"
reason instance_metadata_failure = codes "failed to retrieve instance metadata"
reason non_empty_password = codes "provisioning with non-empty password is unsupported"
reason block_utils = codes "block device error"
reason no_hostname_provisioner = codes "failed to provision hostname"
reason no_user_provisioner = codes "failed to provision user"
reason no_password_provisioner = codes "failed to provision password"
reason timeout = codes "operation timed out"
reason update_sshd_config_failed = codes "failed to update sshd config"
reason (load_sshd_config details) = codes "failed to load sshd config"
reason (unhandled_error details) = codes "unhandled error"

-- `iter` is the order in which the map of two entries is visited, `display` the error's message.
module _ (display : Error → Bytes) (iter : List Entry → List Entry) where
  unfoldable pub supporting_data : Error → List Entry
  supporting_data (http_status endpoint status) =
      iter ((codes "endpoint", endpoint) ∷ (codes "status", to_decimal status) ∷ [])
  supporting_data (subprocess_failed command status) =
      iter ((codes "command", command) ∷ (codes "exit_status", status) ∷ [])
  supporting_data (user_missing user) = (codes "user", user) ∷ []
  supporting_data (load_sshd_config details) = (codes "details", details) ∷ []
  supporting_data e = (codes "error", display e) ∷ []

-- `health::encode_report`
unfoldable pub encode_report : Csv → List Bytes → Bytes
encode_report csv fields = pop_newline (csv.write_record fields)

-- `format!("Azure-Init/{}", version)`
abbrev pub agent_text : Bytes → Bytes
agent_text version = codes "Azure-Init/" ++ version

module _ (csv : Csv) (version now : Bytes) where
  module _ (display : Error → Bytes) (iter : List Entry → List Entry) where
    unfoldable pub as_encoded_report : Error → Bytes → Bytes
    unfolding encode_report reason supporting_data
    as_encoded_report e vm_id = encode_report csv (
        codes "result=error"
        ∷ (codes "reason=" ++ reason e)
        ∷ (codes "agent=" ++ agent_text version)
        ∷ (map field_text (supporting_data display iter e)
            ++ codes "pps_type=None"
              ∷ (codes "vm_id=" ++ vm_id)
              ∷ (codes "timestamp=" ++ now)
              ∷ (codes "documentation_url=" ++ documentation_url_text)
              ∷ []))

  abbrev optional_field : Option Entry → List Bytes
  optional_field none = []
  optional_field (some e) = field_text e ∷ []

  -- `health::encoded_success_report`
  unfoldable pub encoded_success_report : Bytes → Option Entry → Bytes
  unfolding encode_report
  encoded_success_report vm_id optional_key_value = encode_report csv (
      codes "result=success"
      ∷ (codes "agent=" ++ agent_text version)
      ∷ codes "pps_type=None"
      ∷ (codes "vm_id=" ++ vm_id)
      ∷ (codes "timestamp=" ++ now)
      ∷ optional_field optional_key_value)
