-- ===== src/Init/Health.antt =====
-- Health reports to the wireserver (libazureinit/src/health.rs). The JSON text of a body is
-- serde_json's work; here it is the body's fields.
pub mod Once
use azure_init.Prelude.{
  ℕ, zero, suc, Bool, true, false, ◌||◌, ◌&&◌, Option, none, some, ◌++◌, leb, ltb, ◌==◌,
  if◌then◌else◌, Bytes, codes,
}
use azure_init.Result.{Result, ok, err}
use azure_init.Kvp.Store.Record.{Entry}
use azure_init.Kvp.Report.{Csv}
use azure_init.Init.Error.{Error, http, http_status, timeout, encoded_success_report}
use azure_init.Init.Http.{
  Response, Attempt, Outcome, success, fatal, timed_out, out_of_fuel, request,
}
use azure_init.Init.Imds.{Run, done, unfinished}

pub data ProvisioningState : Type 0 where
  ready not_ready : ProvisioningState

pub data ProvisioningSubStatus : Type 0 where
  provisioning_failed provisioning : ProvisioningSubStatus

unfoldable pub state_str : ProvisioningState → Bytes
state_str ready = codes "Ready"
state_str not_ready = codes "NotReady"

unfoldable pub sub_status_str : ProvisioningSubStatus → Bytes
sub_status_str provisioning_failed = codes "ProvisioningFailed"
sub_status_str provisioning = codes "Provisioning"

-- `sub_status` and `description` are the fields of `details`.
pub record Details : Type 0 where
  pub sub_status : Bytes
  pub description : Bytes

pub record Body : Type 0 where
  pub state : Bytes
  pub details : Option Details

abbrev or_default : Option Bytes → Bytes
or_default none = codes ""
or_default (some s) = s

unfoldable pub report_body : ProvisioningState → Option ProvisioningSubStatus → Option Bytes → Body
unfolding state_str sub_status_str
report_body state none description = record { state = state_str state; details = none }
report_body state (some sub) description = record {
  state = state_str state;
  details = some (record { sub_status = sub_status_str sub; description = or_default description });
}

-- `StatusCode::is_success`
abbrev pub is_success : ℕ → Bool
is_success s = leb 200 s && ltb s 300

-- The wireserver's answers depend on the body; `expired` is as for requests. The retry interval of
-- a report is the configured timeout for a connection.
pub record Wireserver : Type 0 where
  pub server : Body → ℕ → Attempt
  pub expired : ℕ → ℕ → Bool
  pub connection_timeout : ℕ
  pub total_retry_timeout : ℕ
  pub health_endpoint : Bytes

module _ (ws : Wireserver) where
  -- What a round of `_report` makes of a response's status; `again` is the next round.
  unfoldable pub after_status : ℕ → Run (Unit {0}) → Run (Unit {0})
  after_status s again =
      if is_success s
      then done (ok tt)
      else if (s == 429) || (s == 503) || (s == 500)
      then again
      else done (err (http_status ws.health_endpoint s))

  unfoldable pub after_post : Outcome → (ℕ → ℕ → Run (Unit {0})) → Run (Unit {0})
  unfolding after_status
  after_post (success r left next) again = after_status r.status (again left next)
  after_post (fatal s) again = done (err http)
  after_post timed_out again = done (err timeout)
  after_post out_of_fuel again = unfinished

  -- The loop of `_report` from request `n` on, with `remaining` left.
  unfoldable pub report_loop : Body → ℕ → ℕ → ℕ → Run (Unit {0})
  unfolding after_post
  report_loop body zero remaining n = unfinished
  report_loop body (suc fuel) remaining n =
      let round =
        after_post (request (ws.server body) ws.expired ws.connection_timeout remaining n)
          (λ left next. report_loop body fuel left next) in
      if remaining == 0 then done (err timeout) else round

  unfoldable pub send_report :
      ProvisioningState → Option ProvisioningSubStatus → Option Bytes → ℕ → Run (Unit {0})
  unfolding report_loop report_body
  send_report state substatus description n =
      report_loop (report_body state substatus description) (suc ws.total_retry_timeout)
        ws.total_retry_timeout n

  -- `version` and `now` are the package's version and the time.
  unfoldable pub report_ready : Csv → Bytes → Bytes → Bytes → Option Entry → ℕ → Run (Unit {0})
  unfolding send_report encoded_success_report
  report_ready csv version now vm_id optional_key_value n =
      send_report ready none
        (some (encoded_success_report csv version now vm_id optional_key_value)) n

  unfoldable pub report_failure : Bytes → ℕ → Run (Unit {0})
  unfolding send_report
  report_failure report_str n = send_report not_ready (some provisioning_failed) (some report_str) n

  unfoldable pub report_in_progress : Bytes → ℕ → Run (Unit {0})
  unfolding send_report
  report_in_progress vm_id n =
      send_report not_ready (some provisioning)
        (some (codes "Provisioning is still in progress for vm_id=" ++ vm_id ++ codes ".")) n
