-- ===== src/Client/Request/Laws.antt =====
-- Every request loop ends, within six attempts, and hands its permit back; what it answers is the
-- first reply that is not worth a retry.
use xero_visma_v.Base.{
  ℕ, zero, suc, ◌+◌, ◌≤◌, ◌<◌, ◌≡◌, ◌∙◌, Bool, true, false, not, ◌&&◌, ◌||◌, Option, none, some,
  ◌∷◌, ◌++◌, codes, show, Result, ok, err, ◌==◌, if◌then◌else◌, Bool-cases, arith, inl, inr,
}
use xero_visma_v.Errors.{Error, xero_api}
use xero_visma_v.Client.Retry.{max_attempts, exp_backoff, retry_after_or_default}
use xero_visma_v.Client.RateLimit.{take_permit, release, update_from_headers}
use xero_visma_v.Client.Http.{
  Request, Response, Reply, response, transport_error, Network, World, with_permit, acquire, learn,
}
use xero_visma_v.Client.Request.{
  done, again, is_success, is_server_error, Policy, status_error, decide, after_attempt, send_loop,
  send_request,
}

abbrev pub is_304 {ℓ} : {A : Type ℓ} → Option (Response → A) → ℕ → Bool
is_304 none s = false
is_304 (some a) s = s == 304

abbrev pub or_304 {ℓ} :
    {A : Type ℓ} → Option (Response → A) → Response → Result Error A → Result Error A
or_304 none r other = other
or_304 (some a) r other = if r.status == 304 then ok (a r) else other

module _ {ℓ} {A : Type ℓ} (p : Policy A) where
  -- A reply after which the loop tries again, while attempts are left.
  unfoldable pub is_retryable : Reply → Bool
  is_retryable (response r) =
      not (is_304 p.not_modified r.status)
      && ((r.status == 429) || (is_server_error r.status && p.retries_server_errors))
  is_retryable (transport_error transient message) = transient

  -- What the other replies are answered with, whatever the attempt.
  unfoldable pub answer : Reply → Result Error A
  answer (response r) =
      or_304 p.not_modified r
        (if is_success r.status then p.accept r else err (status_error p.label r))
  answer (transport_error transient message) = err (xero_api message)

  pub wait_of : (ℕ → ℕ) → ℕ → Reply → ℕ
  wait_of draw attempt (response r) =
      if r.status == 429 then retry_after_or_default r.headers else exp_backoff draw attempt
  wait_of draw attempt (transport_error transient message) = exp_backoff draw attempt

  pub last_error : Reply → Error
  last_error (response r) =
      if r.status == 429
      then xero_api
          (codes "429 " ++ p.label ++ codes " after " ++ show max_attempts ++ codes " attempts")
      else status_error p.label r
  last_error (transport_error transient message) = xero_api message

  pub decide_final :
      (draw : ℕ → ℕ) (attempt : ℕ) (reply : Reply)
      → is_retryable reply ≡ false
      → decide p draw attempt reply ≡ done (answer reply)
  unfolding decide is_retryable answer
  decide_final draw attempt (response r) h = ground arith
  decide_final draw attempt (transport_error transient message) h = ground arith

  pub decide_again :
      (draw : ℕ → ℕ) (attempt : ℕ) (reply : Reply)
      → is_retryable reply ≡ true
      → attempt < 5
      → decide p draw attempt reply ≡ again (wait_of draw attempt reply)
  unfolding decide is_retryable wait_of
  decide_again draw attempt (response r) h lt = ground arith
  decide_again draw attempt (transport_error transient message) h lt = ground arith

  pub decide_last :
      (draw : ℕ → ℕ) (attempt : ℕ) (reply : Reply)
      → is_retryable reply ≡ true
      → 5 ≤ attempt
      → decide p draw attempt reply ≡ done (err (last_error reply))
  unfolding decide is_retryable last_error
  decide_last draw attempt (response r) h le = ground arith
  decide_last draw attempt (transport_error transient message) h le = ground arith

-- What a call leaves behind: its permit is given back, and it has sent between one request and
-- `most` of them.
pub record Settles {ℓ} {A : Type ℓ} (w : World) (most : ℕ) (r : Option (Result Error A × World))
    : Type ℓ where
  pub result : Result Error A
  pub last : World
  pub ends : r ≡ some (result, last)
  pub permit_back : last.limiter.in_flight ≡ w.limiter.in_flight
  pub some_sent : w.sent < last.sent
  pub few_sent : last.sent ≤ w.sent + most

module _ {ℓ} (N : Network) {A : Type ℓ} (p : Policy A) (request : Request) where
  abbrev pub slept_after : ℕ → World → World
  slept_after ms w =
      let v = after_attempt N p request (with_permit w) in record v { slept = ms ∷ v.slept }

  pub after_kept :
      (w : World)
      → ((after_attempt N p request (with_permit w)).limiter.in_flight ≡ w.limiter.in_flight)
        × ((after_attempt N p request (with_permit w)).sent ≡ w.sent + 1)
  unfolding after_attempt with_permit learn update_from_headers release take_permit
  after_kept w = ground arith

  pub step_done :
      (fuel attempt : ℕ) (w : World) (r : Result Error A)
      → w.limiter.in_flight < 6
      → decide p (N.random w.sent) attempt (N.send w.sent request) ≡ done r
      → send_loop N p request (suc fuel) attempt w
        ≡ some (r, after_attempt N p request (with_permit w))
  unfolding send_loop acquire with_permit
  step_done fuel attempt w r free e = ground arith

  pub step_again :
      (fuel attempt : ℕ) (w : World) (ms : ℕ)
      → w.limiter.in_flight < 6
      → decide p (N.random w.sent) attempt (N.send w.sent request) ≡ again ms
      → send_loop N p request (suc fuel) attempt w
        ≡ send_loop N p request fuel (attempt + 1) (slept_after ms w)
  unfolding send_loop acquire with_permit
  step_again fuel attempt w ms free e = ground arith

  loop-Settles :
      (fuel attempt : ℕ) (w : World)
      → attempt + suc fuel ≡ 6
      → w.limiter.in_flight < 6
      → Settles w (suc fuel) (send_loop N p request (suc fuel) attempt w)
  loop-Settles zero attempt w six free =
      let reply = N.send w.sent request in
      let k = after_kept w in
      let d : (r : Result Error A) × (decide p (N.random w.sent) attempt reply ≡ done r) =
        elim (Bool-cases (is_retryable p reply)) [
          | inl y ↦ (err (last_error p reply), decide_last p _ attempt reply y (omega arith))
          | inr n ↦ (answer p reply, decide_final p _ attempt reply n)
        ] in
      record {
        result = d.0;
        last = after_attempt N p request (with_permit w);
        ends = step_done zero attempt w d.0 free d.1;
        permit_back = k.0;
        some_sent = omega (arith, k.1);
        few_sent = omega (arith, k.1);
      }
  loop-Settles (suc fuel) attempt w six free =
      let reply = N.send w.sent request in
      let k = after_kept w in
      elim (Bool-cases (is_retryable p reply)) [
        | inl y ↦
            let ms = wait_of p (N.random w.sent) attempt reply in
            let s =
              loop-Settles fuel (attempt + 1) (slept_after ms w) (omega arith)
                (omega (arith, k.0)) in
            record {
              result = s.result;
              last = s.last;
              ends =
                  step_again (suc fuel) attempt w ms free
                    (decide_again p _ attempt reply y (omega arith))
                  ∙ s.ends;
              permit_back = omega (arith, k.0, s.permit_back);
              some_sent = omega (arith, k.1, s.some_sent);
              few_sent = omega (arith, k.1, s.few_sent);
            }
        | inr n ↦ record {
          result = answer p reply;
          last = after_attempt N p request (with_permit w);
          ends = step_done (suc fuel) attempt w _ free (decide_final p _ attempt reply n);
          permit_back = k.0;
          some_sent = omega (arith, k.1);
          few_sent = omega (arith, k.1);
        }
      ]

  -- Every request loop ends: where the limiter has a slot, the call returns after one to six
  -- requests, whatever the network replies, and the number in flight is what it was before.
  pub send_request-Settles :
      (w : World) → w.limiter.in_flight < 6 → Settles w 6 (send_request N p request w)
  unfolding send_request
  send_request-Settles w free = loop-Settles 5 0 w (omega arith) free
