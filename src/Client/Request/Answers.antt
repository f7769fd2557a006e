-- ===== src/Client/Request/Answers.antt =====
-- What a request loop answers: the first reply that is not worth a retry, or an error after six.
use xero_visma_v.Base.{
  ℕ, zero, suc, ◌+◌, ◌-◌, ◌≤◌, ◌<◌, ◌≡◌, ◌∙◌, subst, true, false, some, err, arith,
}
use xero_visma_v.Client.Http.{Request, Network, World, with_permit}
use xero_visma_v.Client.Request.{Policy, after_attempt, send_loop, send_request}
use xero_visma_v.Client.Request.Laws.{
  is_retryable, answer, wait_of, last_error, decide_final, decide_again, decide_last, slept_after,
  after_kept, step_done, step_again,
}

module _ {ℓ} (N : Network) {A : Type ℓ} (p : Policy A) (request : Request) where
  loop_answers :
      (k attempt : ℕ) (w : World)
      → attempt + k ≤ 5
      → w.limiter.in_flight < 6
      → ((i : ℕ) → i < k → is_retryable p (N.send (w.sent + i) request) ≡ true)
      → is_retryable p (N.send (w.sent + k) request) ≡ false
      → (v : World) × (send_loop N p request (suc (5 - attempt)) attempt w
          ≡ some (answer p (N.send (w.sent + k) request), v))
        × (v.sent ≡ w.sent + k + 1)
        × (v.limiter.in_flight ≡ w.limiter.in_flight)
  loop_answers zero attempt w few free bad good =
      let e : w.sent + 0 ≡ w.sent = omega arith in
      let k = after_kept N p request w in
      rw e (
        after_attempt N p request (with_permit w),
        step_done N p request (5 - attempt) attempt w _ free
            (decide_final p _ attempt _ (rw e at good)),
        k.1,
        k.0,
      )
  loop_answers (suc k) attempt w few free bad good =
      let reply = N.send w.sent request in
      let ms = wait_of p (N.random w.sent) attempt reply in
      let kept = after_kept N p request w in
      let u = slept_after N p request ms w in
      let shift : (i : ℕ) → w.sent + suc i ≡ u.sent + i = λ i. omega (arith, kept.1) in
      let first : is_retryable p reply ≡ true =
        subst (λ n. is_retryable p (N.send n request) ≡ true) (omega arith) (bad 0 (omega arith)) in
      let (v, e, s, f) =
        loop_answers k (attempt + 1) u (omega arith) (omega (arith, kept.0))
          (λ i lt. rw (← shift i) (bad (suc i) (omega arith))) (rw (← shift k) good) in
      let fuel : 5 - attempt ≡ suc (5 - (attempt + 1)) = omega arith in
      (
        v,
        rw (fuel, shift k)
            (step_again N p request (suc (5 - (attempt + 1))) attempt w ms free
                (decide_again p _ attempt reply first (omega arith))
              ∙ e),
        omega (arith, kept.1),
        omega (arith, kept.0),
      )

  -- Where the limiter has a slot and the network fails at most five times in a row in a way that
  -- is worth a retry, the call answers what its policy makes of the next reply, after exactly one
  -- request more, and the number in flight is what it was before.
  pub send_request-answer :
      (k : ℕ) (w : World)
      → k ≤ 5
      → w.limiter.in_flight < 6
      → ((i : ℕ) → i < k → is_retryable p (N.send (w.sent + i) request) ≡ true)
      → is_retryable p (N.send (w.sent + k) request) ≡ false
      → (v : World) × (send_request N p request w
          ≡ some (answer p (N.send (w.sent + k) request), v))
        × (v.sent ≡ w.sent + k + 1)
        × (v.limiter.in_flight ≡ w.limiter.in_flight)
  unfolding send_request
  send_request-answer k w few free bad good = loop_answers k 0 w (omega arith) free bad good

  loop_exhausts :
      (fuel attempt : ℕ) (w : World)
      → attempt + suc fuel ≡ 6
      → w.limiter.in_flight < 6
      → ((i : ℕ) → i ≤ fuel → is_retryable p (N.send (w.sent + i) request) ≡ true)
      → (v : World) × (send_loop N p request (suc fuel) attempt w
          ≡ some (err (last_error p (N.send (w.sent + fuel) request)), v))
        × (v.sent ≡ w.sent + suc fuel)
  loop_exhausts zero attempt w six free bad =
      let e : w.sent + 0 ≡ w.sent = omega arith in
      let final =
        decide_last p (N.random w.sent) attempt (N.send w.sent request)
          (rw e at (bad 0 (omega arith))) (omega arith) in
      (
        after_attempt N p request (with_permit w),
        rw e (step_done N p request zero attempt w _ free final),
        omega (arith, (after_kept N p request w).1),
      )
  loop_exhausts (suc fuel) attempt w six free bad =
      let reply = N.send w.sent request in
      let ms = wait_of p (N.random w.sent) attempt reply in
      let kept = after_kept N p request w in
      let u = slept_after N p request ms w in
      let shift : (i : ℕ) → w.sent + suc i ≡ u.sent + i = λ i. omega (arith, kept.1) in
      let first : is_retryable p reply ≡ true =
        subst (λ n. is_retryable p (N.send n request) ≡ true) (omega arith) (bad 0 (omega arith)) in
      let (v, e, s) =
        loop_exhausts fuel (attempt + 1) u (omega arith) (omega (arith, kept.0))
          (λ i le. rw (← shift i) (bad (suc i) (omega arith))) in
      (
        v,
        rw (shift fuel) (
            step_again N p request (suc fuel) attempt w ms free
              (decide_again p _ attempt reply first (omega arith))
            ∙ e),
        omega (arith, kept.1),
      )

  -- Where the limiter has a slot, six replies in a row that are worth a retry end in an error,
  -- after exactly six requests.
  send_request-exhausts :
      (w : World)
      → w.limiter.in_flight < 6
      → ((i : ℕ) → i ≤ 5 → is_retryable p (N.send (w.sent + i) request) ≡ true)
      → (v : World) × (send_request N p request w
          ≡ some (err (last_error p (N.send (w.sent + 5) request)), v))
        × (v.sent ≡ w.sent + 6)
  unfolding send_request
  send_request-exhausts w free bad = loop_exhausts 5 0 w (omega arith) free bad
