-- ===== src/Init/Http.antt =====
-- Requests that are tried again (libazureinit/src/http.rs).
--
-- `server n` is what becomes of the n-th request that the agent sends: how long it takes, and the
-- response, or none where it fails or is too slow. Time is counted in any unit. `expired elapsed
-- limit` says whether tokio's `timeout` ends what is not done after `elapsed`: at the limit itself it
-- may do either.
pub mod Settles
use azure_init.Prelude.{
  ℕ, zero, suc, ◌+◌, ◌-◌, ◌<◌, ◌≡◌, Bool, true, false, ◌&&◌, ◌||◌, Option, List, [], ◌∷◌, ltb, leb,
  ◌==◌, if◌then◌else◌, Bytes,
}

-- `body` is what `text()` gives: none if reading it fails.
pub record Response : Type 0 where
  pub status : ℕ
  pub body : Option Bytes

pub data Reply : Type 0 where
  responded : Response → Reply
  unanswered : Reply

pub record Attempt : Type 0 where
  pub took : ℕ
  pub reply : Reply

-- A response with the time that is left and the number of the next request; a status that is not
-- tried again; the time limit; and the model's bound on the attempts.
pub data Outcome : Type 0 where
  success : Response → ℕ → ℕ → Outcome
  fatal : ℕ → Outcome
  timed_out : Outcome
  out_of_fuel : Outcome

-- RETRY_CODES
abbrev retry_codes : List ℕ
retry_codes = 400 ∷ 404 ∷ 410 ∷ 429 ∷ 500 ∷ 503 ∷ []

unfoldable pub is_one_of : ℕ → List ℕ → Bool
is_one_of s [] = false
is_one_of s (c ∷ cs) = (s == c) || is_one_of s cs

unfoldable pub is_retry_code : ℕ → Bool
unfolding is_one_of
is_retry_code s = is_one_of s retry_codes

-- `error_for_status` fails on the codes of clients' and servers' errors.
unfoldable pub is_error_status : ℕ → Bool
is_error_status s = leb 400 s && ltb s 600

-- What tokio documents of `timeout`.
pub record Expires (expired : ℕ → ℕ → Bool) : Type 0 where
  pub early : (elapsed limit : ℕ) → elapsed < limit → expired elapsed limit ≡ false
  pub late : (elapsed limit : ℕ) → limit < elapsed → expired elapsed limit ≡ true

module _ (server : ℕ → Attempt) (expired : ℕ → ℕ → Bool) (retry_interval retry_for : ℕ) where
  -- The reply to request `n`, which came at `now`; `again` is what follows the wait for a retry.
  unfoldable pub handle : Reply → ℕ → ℕ → Outcome → Outcome
  unfolding is_retry_code is_error_status
  handle unanswered n now again = again
  handle (responded r) n now again =
      if is_error_status r.status
      then (if is_retry_code r.status then again else fatal r.status)
      else success r (retry_for - (now + retry_interval)) (suc n)

  -- The loop of `request` from request `n` on, at the time `now` after its start.
  unfoldable pub request_loop : ℕ → ℕ → ℕ → Outcome
  unfolding handle
  request_loop zero n now = out_of_fuel
  request_loop (suc fuel) n now =
      let answered = now + (server n).took in
      let rest = request_loop fuel (suc n) (answered + retry_interval) in
      let again = if expired (answered + retry_interval) retry_for then timed_out else rest in
      if expired answered retry_for then timed_out else handle (server n).reply n answered again

  unfoldable pub request : ℕ → Outcome
  unfolding request_loop
  request n = request_loop (suc retry_for) n 0
