-- ===== src/Init/Http/Settles.antt =====
-- How a request settles: by the first attempt that is not to be tried again, or by the time limit.
use azure_init.Prelude.{
  ℕ, zero, suc, ◌+◌, ◌-◌, ◌≤◌, ◌<◌, ◌≡◌, ◌⊎◌, refl, ap, sym, subst, ◌∙◌, Bool, true, false, arith,
  Bool-cases, inl, inr,
}
use native.Mathlib.Decide.{dec_le}
use azure_init.Init.Http.{
  Response, Reply, responded, unanswered, Attempt, Outcome, success, fatal, timed_out, out_of_fuel,
  is_retry_code, is_error_status, Expires, handle, request_loop, request,
}

-- The attempt failed, or was answered with a status that is tried again.
abbrev pub Retried : Reply → Type 0
Retried unanswered = Unit
Retried (responded r) = (is_error_status r.status ≡ true) × (is_retry_code r.status ≡ true)

module _ (server : ℕ → Attempt) (expired : ℕ → ℕ → Bool) (retry_interval retry_for : ℕ) where
  -- The `k` attempts from `n` on are all retried.
  abbrev pub AllRetried : ℕ → ℕ → Type 0
  AllRetried n zero = Unit
  AllRetried n (suc k) = Retried (server n).reply × AllRetried (suc n) k

  -- When attempt `n + k` is answered, if attempt `n` begins at `now`: each retry waits first.
  abbrev pub answered_at : ℕ → ℕ → ℕ → ℕ
  answered_at n now zero = now + (server n).took
  answered_at n now (suc k) = answered_at (suc n) (now + (server n).took + retry_interval) k

  -- A success is the answer to the first attempt that is not retried, with no error status, and
  -- leaves the time that is not used by then, less one interval; a fatal status is the first
  -- that is an error and not retried; and at the time limit only retried attempts were answered.
  abbrev pub SettledBy : ℕ → ℕ → Outcome → Type 0
  SettledBy n now (success r left next) =
      (k : ℕ) × AllRetried n k
      × ((server (n + k)).reply ≡ responded r)
      × (is_error_status r.status ≡ false)
      × (expired (answered_at n now k) retry_for ≡ false)
      × (left ≡ retry_for - (answered_at n now k + retry_interval))
      × (next ≡ suc (n + k))
  SettledBy n now (fatal s) =
      (k : ℕ) × (r : Response) × AllRetried n k
      × ((server (n + k)).reply ≡ responded r)
      × (r.status ≡ s)
      × (is_error_status s ≡ true)
      × (is_retry_code s ≡ false)
  SettledBy n now timed_out =
      (k : ℕ) × AllRetried n k
      × ((expired (answered_at n now k) retry_for ≡ true)
          ⊎ (Retried (server (n + k)).reply
              × (expired (answered_at n now k + retry_interval) retry_for ≡ true)))
  SettledBy n now out_of_fuel = ⊥

  later_reply : (n k : ℕ) → (server (n + suc k)).reply ≡ (server (suc n + k)).reply
  later_reply n k =
      ap (λ m. (server m).reply) (let same : n + suc k ≡ suc n + k = omega arith in same)

  -- What settles the loop behind a retried attempt settles it from that attempt on.
  step_back :
      (n now : ℕ) (o : Outcome)
      → Retried (server n).reply
      → SettledBy (suc n) (now + (server n).took + retry_interval) o
      → SettledBy n now o
  step_back n now (success r left next) h (k, all, reply, fine, early, l, next_is) =
      (suc k, (h, all), later_reply n k ∙ reply, fine, early, l, omega arith)
  step_back n now (fatal s) h (k, r, all, reply, same, error, final) =
      (suc k, r, (h, all), later_reply n k ∙ reply, same, error, final)
  step_back n now timed_out h (k, all, inl late) = (suc k, (h, all), inl late)
  step_back n now timed_out h (k, all, inr (retried, late)) =
      (suc k, (h, all), inr (subst Retried (sym (later_reply n k)) retried, late))
  step_back n now out_of_fuel h b = b

  reply_here : (n : ℕ) {reply : Reply} → (server n).reply ≡ reply → (server (n + 0)).reply ≡ reply
  reply_here n e = ap (λ m. (server m).reply) (let same : n + 0 ≡ n = omega arith in same) ∙ e

  -- Attempt `n` handled: it is retried, or it settles the loop.
  handle-SettledBy :
      (n now : ℕ) (reply : Reply) (again : Outcome)
      → (server n).reply ≡ reply
      → expired (now + (server n).took) retry_for ≡ false
      → (Retried reply → SettledBy n now again)
      → SettledBy n now
          (handle server expired retry_interval retry_for reply n (now + (server n).took) again)
  unfolding handle
  handle-SettledBy n now unanswered again e early next = next tt
  handle-SettledBy n now (responded r) again e early next =
      elim (Bool-cases (is_error_status r.status)) [
        | inl error ↦ elim (Bool-cases (is_retry_code r.status)) [
          | inl retry ↦ rw (error, retry) (next (error, retry))
          | inr final ↦ rw (error, final) (0, r, tt, reply_here n e, refl, error, final)
        ]
        | inr fine ↦ rw fine (0, tt, reply_here n e, fine, early, refl, omega arith)
      ]

  module _ (laws : Expires expired) (waits : 0 < retry_interval) where
    not_late : (t : ℕ) → expired t retry_for ≡ false → t ≤ retry_for
    not_late t h = elim (dec_le t retry_for) [
      | yes p ↦ p
      | no p ↦ absurd (let q = laws.late t retry_for (omega arith) in cc)
    ]

    loop-SettledBy :
        (fuel n now : ℕ)
        → now ≤ retry_for
        → retry_for < now + fuel
        → SettledBy n now (request_loop server expired retry_interval retry_for fuel n now)
    unfolding request_loop
    loop-SettledBy zero n now low enough = absurd (omega arith)
    loop-SettledBy (suc fuel) n now low enough =
        let answered = now + (server n).took in
        elim (Bool-cases (expired answered retry_for)) [
          | inl late ↦ rw late (0, tt, inl late)
          | inr early ↦ rw early (
              handle-SettledBy n now (server n).reply _ refl early (λ retried.
                elim (Bool-cases (expired (answered + retry_interval) retry_for)) [
                  | inl late ↦
                      rw late (0, tt, inr (subst Retried (sym (reply_here n refl)) retried, late))
                  | inr soon ↦ rw soon (
                      step_back n now _ retried (
                        loop-SettledBy fuel (suc n) (answered + retry_interval)
                          (not_late (answered + retry_interval) soon) (omega arith)))
                ]))
        ]

    -- Where the wait for a retry takes time, `request` settles: with the first answer that is not
    -- retried, with the first fatal status, or by the time limit after retried attempts alone.
    pub request_settles :
        (n : ℕ) → SettledBy n 0 (request server expired retry_interval retry_for n)
    unfolding request
    request_settles n = loop-SettledBy (suc retry_for) n 0 (omega arith) (omega arith)
