-- ===== src/Client/Request/Results.antt =====
-- What holds of every value that a request loop may return: what holds of the policy's readings.
use xero_visma_v.Base.{
  ℕ, zero, suc, ◌+◌, ◌<◌, ◌≡◌, sym, ◌∙◌, false, none, some, ok, err, ltb, ◌==◌, arith, Bool-cases,
  Option-cases, inl, inr,
}
use xero_visma_v.Client.RateLimit.{has_slot}
use xero_visma_v.Client.Http.{
  Request, Response, Reply, response, transport_error, Network, World, acquire,
}
use xero_visma_v.Client.Request.{is_success, Policy, send_loop, send_request}
use xero_visma_v.Client.Request.Laws.{
  is_retryable, answer, wait_of, last_error, slept_after, decide_final, decide_again, decide_last,
  step_done, step_again,
}

module _ {A : Type 0} (p : Policy A) (P : A → Type 0)
    (accepted : (r : Response) (a : A) → p.accept r ≡ ok a → P a)
    (unmodified : (f : Response → A) (r : Response) → p.not_modified ≡ some f → P (f r)) where
  answer-holds : (reply : Reply) (a : A) → answer p reply ≡ ok a → P a
  unfolding answer
  answer-holds (transport_error transient message) a h = cc h
  answer-holds (response r) a h = elim (Bool-cases (is_success r.status)) [
    | inl good ↦ elim (Option-cases p.not_modified) [
      | inl never ↦ accepted r a (rw (never, good) at h)
      | inr (f, may) ↦ elim (Bool-cases (r.status == 304)) [
        | inl same ↦ let e : f r ≡ a = cc (rw (may, same) at h) in rw (← e) (unmodified f r may)
        | inr other ↦ accepted r a (rw (may, other, good) at h)
      ]
    ]
    | inr bad ↦ elim (Option-cases p.not_modified) [
      | inl never ↦ cc (rw (never, bad) at h)
      | inr (f, may) ↦ elim (Bool-cases (r.status == 304)) [
        | inl same ↦ let e : f r ≡ a = cc (rw (may, same) at h) in rw (← e) (unmodified f r may)
        | inr other ↦ cc (rw (may, other, bad) at h)
      ]
    ]
  ]

  module _ (N : Network) (request : Request) where
    no_slot :
        (fuel attempt : ℕ) (w : World)
        → ltb w.limiter.in_flight 6 ≡ false
        → send_loop N p request (suc fuel) attempt w ≡ none
    unfolding send_loop acquire has_slot
    no_slot fuel attempt w full = ground arith

    loop-holds :
        (fuel attempt : ℕ) (w : World) (a : A) (v : World)
        → send_loop N p request fuel attempt w ≡ some (ok a, v)
        → P a
    unfolding send_loop
    loop-holds zero attempt w a v h = cc h
    loop-holds (suc fuel) attempt w a v h = elim (Bool-cases (ltb w.limiter.in_flight 6)) [
      | inr full ↦ cc (no_slot fuel attempt w full, h)
      | inl slot ↦
          let reply = N.send w.sent request in
          let free : w.limiter.in_flight < 6 = ground (arith, slot) in
          elim (Bool-cases (is_retryable p reply)) [
            | inr final ↦
                let e =
                  step_done N p request fuel attempt w (answer p reply) free
                    (decide_final p (N.random w.sent) attempt reply final) in
                answer-holds reply a (cc (e, h))
            | inl retry ↦ elim (Bool-cases (ltb attempt 5)) [
              | inl left ↦
                  let ms = wait_of p (N.random w.sent) attempt reply in
                  let e =
                    step_again N p request fuel attempt w ms free (
                      decide_again p (N.random w.sent) attempt reply retry
                        (ground (arith, left))) in
                  loop-holds fuel (attempt + 1) (slept_after N p request ms w) a v (sym e ∙ h)
              | inr last ↦
                  let e =
                    step_done N p request fuel attempt w (err (last_error p reply)) free (
                      decide_last p (N.random w.sent) attempt reply retry (ground (arith, last))) in
                  cc (e, h)
            ]
          ]
    ]

    pub send_request-holds :
        (w : World) (a : A) (v : World) → send_request N p request w ≡ some (ok a, v) → P a
    unfolding send_request
    send_request-holds w a v h = loop-holds 6 0 w a v h
