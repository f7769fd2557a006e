-- ===== src/Client/Request.antt =====
-- The request loops of core/crates/xero-client/src/lib.rs. They differ in what they take for an
-- answer (`Policy`) and share the rest: a permit for each attempt, a wait after a 429, a backoff
-- after a server error or a transient transport error, and no more than `max_attempts` retries.
pub mod Laws
pub mod Answers
pub mod Results
use xero_visma_v.Base.{
  ℕ, zero, suc, ◌+◌, Bool, true, false, not, ◌&&◌, ◌||◌, Option, none, some, List, [], ◌∷◌, ◌++◌,
  Text, codes, show, Result, ok, err, ltb, leb, ◌==◌, if◌then◌else◌,
}
use xero_visma_v.Errors.{Error, xero_api}
use xero_visma_v.Client.Retry.{Headers, max_attempts, exp_backoff, retry_after_or_default}
use xero_visma_v.Client.RateLimit.{release}
use xero_visma_v.Client.Http.{
  Request, Response, Body, bytes, broken, Reply, response, transport_error, Network, World, Run,
  acquire, learn,
}

-- What one attempt leads to: the end of the loop, or another attempt after a sleep.
pub data Decision {ℓ} (A : Type ℓ) : Type ℓ where
  done : Result Error A → Decision A
  again : ℕ → Decision A

-- `StatusCode::is_success` and `is_server_error`
abbrev pub is_success : ℕ → Bool
is_success s = leb 200 s && ltb s 300

abbrev pub is_server_error : ℕ → Bool
is_server_error s = leb 500 s && ltb s 600

-- What a request loop makes of the replies: the path for its messages, its answer to a 304 if it
-- has one, whether server errors are retried, and its reading of a successful response.
pub record Policy {ℓ} (A : Type ℓ) : Type ℓ where
  pub label : Text
  pub not_modified : Option (Response → A)
  pub retries_server_errors : Bool
  pub accept : Response → Result Error A

-- `resp.text().await.unwrap_or_default()`
abbrev text_or_default : Body → Text
text_or_default (bytes s) = s
text_or_default (broken e) = []

unfoldable pub status_error : Text → Response → Error
status_error label r =
    xero_api (show r.status ++ codes " " ++ label ++ codes ": " ++ text_or_default r.body)

module _ {ℓ} {A : Type ℓ} (p : Policy A) (draw : ℕ → ℕ) (attempt : ℕ) where
  -- The branches after the one for a 304.
  unfoldable pub decide_modified : Response → Decision A
  decide_modified r =
      if r.status == 429
      then (if leb max_attempts attempt
          then done (
              err (
                xero_api (
                  codes "429 "
                  ++ p.label
                  ++ codes " after "
                  ++ show max_attempts
                  ++ codes " attempts")))
          else again (retry_after_or_default r.headers))
      else if is_server_error r.status && p.retries_server_errors
      then (if leb max_attempts attempt
          then done (err (status_error p.label r))
          else again (exp_backoff draw attempt))
      else if not (is_success r.status)
      then done (err (status_error p.label r))
      else done (p.accept r)

  unfoldable pub decide_response : Option (Response → A) → Response → Decision A
  unfolding decide_modified
  decide_response none r = decide_modified r
  decide_response (some a) r = if r.status == 304 then done (ok (a r)) else decide_modified r

  -- One pass of the loop's `match`.
  unfoldable pub decide : Reply → Decision A
  unfolding decide_response
  decide (response r) = decide_response p.not_modified r
  decide (transport_error transient message) =
      if transient && ltb attempt max_attempts
      then again (exp_backoff draw attempt)
      else done (err (xero_api message))

module _ {ℓ} (N : Network) {A : Type ℓ} (p : Policy A) (request : Request) where
  -- The state after an attempt: the request is counted, the headers are read, and the permit is
  -- given back, by `drop` before a sleep or at the return.
  unfoldable pub after_attempt : World → World
  unfolding learn
  after_attempt w = record w {
    sent = w.sent + 1;
    limiter = release (learn (N.send w.sent request) w.limiter);
  }

  -- `loop { … }`, on fuel, after `attempt` attempts that failed.
  unfoldable pub send_loop : ℕ → ℕ → Run A
  send_loop zero attempt w = none
  send_loop (suc fuel) attempt w = elim (acquire w) [
    | none ↦ none
    | some v ↦ elim (decide p (N.random v.sent) attempt (N.send v.sent request)) [
      | done r ↦ some (r, after_attempt v)
      | again ms ↦
          let next = after_attempt v in
          send_loop fuel (attempt + 1) (record next { slept = ms ∷ next.slept })
    ]
  ]

  -- One attempt and `max_attempts` retries need six rounds.
  unfoldable pub send_request : Run A
  unfolding send_loop
  send_request = send_loop 6 0
