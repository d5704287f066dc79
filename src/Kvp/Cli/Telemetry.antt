-- ===== src/Kvp/Cli/Telemetry.antt =====
-- The commands of the tool that write a report or emit a diagnostic (cli.rs).
use azure_init.Prelude.{Option, none, some, List, [], ◌∷◌, Bytes}
use azure_init.Result.{Result, ok, err}
use azure_init.Kvp.Store.Policy.{PoolMode}
use azure_init.Kvp.Store.Record.{Entry}
use azure_init.Kvp.Store.World.{Io, pure, check, ◌>>=◌, ◌>>◌}
use azure_init.Kvp.Report.{
  Csv, ProvisioningReport, no_pps, success_report, failure_report, with_documentation_url,
  with_extra, write_report,
}
use azure_init.Kvp.Diagnostics.Model.{text}
use azure_init.Kvp.Diagnostics.External.{External}
use azure_init.Kvp.Diagnostics.Writer.{new_writer, emit_event}
use azure_init.Kvp.Cli.{Command, quietly, resolve_vm_id_with}

-- `.with_extra` of the supporting data in order.
unfoldable pub with_extras : ProvisioningReport → List Entry → ProvisioningReport
unfolding with_extra
with_extras report [] = report
with_extras report (e ∷ es) = with_extras (with_extra report e.0 e.1) es

abbrev with_url : ProvisioningReport → Option Bytes → ProvisioningReport
with_url report none = report
with_url report (some url) = with_documentation_url report url

abbrev with_id : Result Bytes Bytes → (Bytes → Io (Unit {0})) → Command
with_id (err message) act = pure (err message)
with_id (ok vm_id) act = do act vm_id; pure (ok quietly)

-- `current` is the id of this VM, if it is known, and `now` the time.
module _ (csv : Csv) (mode : PoolMode) (current : Option Bytes) (now : Bytes) where
  unfoldable pub report_success : Option Bytes → Bytes → List Entry → Command
  unfolding with_extras success_report resolve_vm_id_with
  report_success vm_id agent supporting_data = with_id (resolve_vm_id_with vm_id current) (λ id.
      write_report csv mode (with_extras (success_report now agent id no_pps) supporting_data))

  unfoldable pub report_failure : Option Bytes → Bytes → Bytes → Option Bytes → List Entry → Command
  unfolding with_extras failure_report with_documentation_url resolve_vm_id_with
  report_failure vm_id agent reason documentation_url supporting_data =
      with_id (resolve_vm_id_with vm_id current) (λ id. write_report csv mode (
        with_url (with_extras (failure_report now agent id reason no_pps) supporting_data)
          documentation_url))

module _ (ext : External) (mode : PoolMode) (current : Option Bytes) where
  open ext use {Timestamp}

  -- `now` and `fresh_id` are the time and the new UUID.
  unfoldable pub emit_command : Timestamp → Bytes → Bytes → Bytes → Option Bytes → Bytes → Command
  unfolding resolve_vm_id_with
  emit_command now fresh_id name message vm_id agent =
      with_id (resolve_vm_id_with vm_id current) (λ id. do
        writer ← check (new_writer ext mode agent id)
        emit_event ext writer now fresh_id name (text message) none none none)
