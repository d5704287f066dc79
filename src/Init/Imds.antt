-- ===== src/Init/Imds.antt =====
-- Instance metadata from IMDS (libazureinit/src/imds.rs). Parsing the response's text is serde's work
-- and a parameter, but for `string_bool`, which the source gives it.
pub mod Query
use azure_init.Prelude.{
  ℕ, zero, suc, Bool, true, false, Option, none, some, List, ◌==◌, if◌then◌else◌, Bytes, codes,
  bytes_eq,
}
use azure_init.Result.{Result, ok, err}
use azure_init.Init.Error.{Error, http, timeout}
use azure_init.Init.Http.{
  Response, Attempt, Outcome, success, fatal, timed_out, out_of_fuel, request,
}

pub record PublicKeys : Type 0 where
  pub key_data : Bytes
  pub path : Bytes

pub record OsProfile : Type 0 where
  pub admin_username : Bytes
  pub computer_name : Bytes
  pub disable_password_authentication : Bool

pub record Compute : Type 0 where
  pub os_profile : OsProfile
  pub public_keys : List PublicKeys

pub record InstanceMetadata : Type 0 where
  pub compute : Compute

-- A JSON value, as far as `string_bool` looks at it.
pub data Value : Type 0 where
  string : Bytes → Value
  bool : Bool → Value
  other : Value

-- The Boolean of IMDS's texts; none is an error of deserialization.
unfoldable pub string_bool : Value → Option Bool
string_bool (string s) =
    if bytes_eq s (codes "true")
    then some true
    else if bytes_eq s (codes "false")
    then some false
    else none
string_bool (bool b) = some b
string_bool other = none

-- The end of a loop over requests, or that its bound is used up.
pub data Run (A : Type 0) : Type 0 where
  done : Result Error A → Run A
  unfinished : Run A

module _ (server : ℕ → Attempt) (expired : ℕ → ℕ → Bool) (retry_interval : ℕ)
    (parse : Bytes → Option InstanceMetadata) where
  abbrev pub parse_body : Option Bytes → Option InstanceMetadata
  parse_body none = none
  parse_body (some t) = parse t

  -- What `query` makes of a response; `again` is the next round of its loop.
  abbrev pub take_body : Option InstanceMetadata → Run InstanceMetadata → Run InstanceMetadata
  take_body none again = again
  take_body (some m) again = done (ok m)

  -- A round of the loop behind its request; `again` makes the next one.
  unfoldable pub after_request : Outcome → (ℕ → ℕ → Run InstanceMetadata) → Run InstanceMetadata
  after_request (success r left next) again = take_body (parse_body r.body) (again left next)
  after_request (fatal s) again = done (err http)
  after_request timed_out again = done (err timeout)
  after_request out_of_fuel again = unfinished

  -- The loop of `query` from request `n` on, with `total_timeout` left.
  unfoldable pub query_loop : ℕ → ℕ → ℕ → Run InstanceMetadata
  unfolding after_request
  query_loop zero total_timeout n = unfinished
  query_loop (suc fuel) total_timeout n =
      let round =
        after_request (request server expired retry_interval total_timeout n)
          (λ left next. query_loop fuel left next) in
      if total_timeout == 0 then done (err timeout) else round

  unfoldable pub query : ℕ → ℕ → Run InstanceMetadata
  unfolding query_loop
  query total_timeout n = query_loop (suc total_timeout) total_timeout n
