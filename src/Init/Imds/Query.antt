-- ===== src/Init/Imds/Query.antt =====
-- How the query of IMDS ends.
use azure_init.Prelude.{
  ℕ, zero, suc, ◌+◌, ◌≤◌, ◌<◌, ◌≡◌, ◌⊎◌, refl, Bool, false, Option, some, arith, ◌==◌, Bytes,
  Bool-cases, Option-cases, inl, inr,
}
use azure_init.Result.{ok, err}
use azure_init.Init.Error.{http, timeout}
use azure_init.Init.Http.{
  Response, responded, Attempt, Outcome, success, fatal, timed_out, out_of_fuel, is_error_status,
  Expires, request,
}
use azure_init.Init.Http.Settles.{SettledBy, request_settles}
use azure_init.Init.Imds.{
  InstanceMetadata, Run, done, unfinished, parse_body, after_request, query_loop, query,
}

module _ (server : ℕ → Attempt) (expired : ℕ → ℕ → Bool) (retry_interval : ℕ)
    (parse : Bytes → Option InstanceMetadata) where
  -- Metadata are those of a response without an error status, to a request from `n` on; the query
  -- fails for a fatal status or with a timeout only.
  abbrev pub Answered : ℕ → Run InstanceMetadata → Type 0
  Answered n (done (ok m)) =
      (i : ℕ) × (r : Response) × (n ≤ i)
      × ((server i).reply ≡ responded r)
      × (is_error_status r.status ≡ false)
      × (parse_body server expired retry_interval parse r.body ≡ some m)
  Answered n (done (err e)) = (e ≡ http) ⊎ (e ≡ timeout)
  Answered n unfinished = ⊥

  later : (n next : ℕ) (o : Run InstanceMetadata) → n ≤ next → Answered next o → Answered n o
  later n next (done (ok m)) le (i, r, low, reply, fine, parsed) =
      (i, r, omega arith, reply, fine, parsed)
  later n next (done (err e)) le a = a
  later n next unfinished le a = a

  after-Answered :
      (total n : ℕ) (o : Outcome) (again : ℕ → ℕ → Run InstanceMetadata)
      → 0 < retry_interval
      → 0 < total
      → SettledBy server expired retry_interval total n 0 o
      → ((left next : ℕ) → left < total → Answered next (again left next))
      → Answered n (after_request server expired retry_interval parse o again)
  unfolding after_request
  after-Answered total n (success r left next) again waits pos
        (k, all, reply, fine, early, left_is, next_is) rounds =
      elim (Option-cases (parse_body server expired retry_interval parse r.body)) [
        | inl e ↦
            rw e (later n next (again left next) (omega arith) (rounds left next (omega arith)))
        | inr (m, e) ↦ rw e (n + k, r, omega arith, reply, fine, e)
      ]
  after-Answered total n (fatal s) again waits pos settled rounds = inl refl
  after-Answered total n timed_out again waits pos settled rounds = inr refl
  after-Answered total n out_of_fuel again waits pos settled rounds = settled

  module _ (laws : Expires expired) (waits : 0 < retry_interval) where
    loop-Answered :
        (fuel total n : ℕ)
        → total < fuel
        → Answered n (query_loop server expired retry_interval parse fuel total n)
    unfolding query_loop
    loop-Answered zero total n h = absurd (omega arith)
    loop-Answered (suc fuel) total n h = elim (Bool-cases (total == 0)) [
      | inl none_left ↦ rw none_left (inr refl)
      | inr some_left ↦ rw some_left (
          after-Answered total n (request server expired retry_interval total n) _ waits
            (let pos : 0 < total = ground arith in pos)
            (request_settles server expired retry_interval total laws waits n)
            (λ left next less. loop-Answered fuel left next (omega arith)))
    ]

    -- Where the wait for a retry takes time, `query` ends, whatever the server does: with metadata
    -- parsed from a response without an error status, or with an HTTP error or a timeout.
    pub query_ends : (total n : ℕ) → Answered n (query server expired retry_interval parse total n)
    unfolding query
    query_ends total n = loop-Answered (suc total) total n (omega arith)
