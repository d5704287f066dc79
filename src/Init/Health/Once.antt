-- ===== src/Init/Health/Once.antt =====
-- `_report` and its requests.
use azure_init.Prelude.{ℕ, ◌<◌, ◌≡◌, refl, Bool, true, false, Option, arith, ◌==◌, Bytes}
use azure_init.Result.{ok, err}
use azure_init.Init.Error.{http, http_status, timeout}
use azure_init.Init.Http.{
  Outcome, success, fatal, timed_out, out_of_fuel, is_error_status, Expires, request,
}
use azure_init.Init.Http.Settles.{SettledBy, request_settles}
use azure_init.Init.Imds.{Run, done, unfinished}
use azure_init.Init.Health.{
  ProvisioningState, ProvisioningSubStatus, Body, report_body, is_success, Wireserver, after_status,
  after_post, report_loop, send_report,
}

module _ (ws : Wireserver) where
  -- A report by one request: accepted with a 2xx status, and refused with any other.
  abbrev by_status : ℕ → Bool → Run (Unit {0})
  by_status s true = done (ok tt)
  by_status s false = done (err (http_status ws.health_endpoint s))

  abbrev pub by_one_request : Outcome → Run (Unit {0})
  by_one_request (success r left next) = by_status r.status (is_success r.status)
  by_one_request (fatal s) = done (err http)
  by_one_request timed_out = done (err timeout)
  by_one_request out_of_fuel = unfinished

  no_retry :
      (s : ℕ) (again : Run (Unit {0}))
      → is_error_status s ≡ false
      → after_status ws s again ≡ by_status s (is_success s)
  unfolding after_status is_error_status
  no_retry s again h = ground arith

  after_post-one :
      (body : Body) (remaining n : ℕ) (o : Outcome) (again : ℕ → ℕ → Run (Unit {0}))
      → SettledBy (ws.server body) ws.expired ws.connection_timeout remaining n 0 o
      → after_post ws o again ≡ by_one_request o
  unfolding after_post
  after_post-one body remaining n (success r left next) again settled =
      no_retry r.status (again left next) settled.3
  after_post-one body remaining n (fatal s) again settled = refl
  after_post-one body remaining n timed_out again settled = refl
  after_post-one body remaining n out_of_fuel again settled = refl

  -- Where the wait for a retry takes time and there is time for the report at all, a report is
  -- settled by the first request, whose retries are `request`'s: a 2xx status is a success, another
  -- status that is no error fails with that status, and a fatal status or the time limit fail.
  pub send_report_once :
      (state : ProvisioningState) (substatus : Option ProvisioningSubStatus)
      (description : Option Bytes) (n : ℕ)
      → Expires ws.expired
      → 0 < ws.connection_timeout
      → 0 < ws.total_retry_timeout
      → send_report ws state substatus description n
        ≡ by_one_request (
            request
              (ws.server (report_body state substatus description))
              ws.expired
              ws.connection_timeout
              ws.total_retry_timeout
              n)
  unfolding send_report report_loop
  send_report_once state substatus description n laws waits pos =
      let some_left : (ws.total_retry_timeout == 0) ≡ false = ground arith in
      let body = report_body state substatus description in
      let one =
        request (ws.server body) ws.expired ws.connection_timeout ws.total_retry_timeout n in
      rw some_left (
        after_post-one body ws.total_retry_timeout n one _ (
          request_settles (ws.server body) ws.expired ws.connection_timeout ws.total_retry_timeout
            laws waits n))
