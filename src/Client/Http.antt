-- ===== src/Client/Http.antt =====
-- The network as the client sees it: requests, replies, and the state that a call of the client
-- changes. A call returns nothing while the limiter has no slot; `RateLimit/Tasks` is about the
-- tasks that wait for one.
use xero_visma_v.Base.{ℕ, Bool, Option, none, some, List, ◌∷◌, Text, Result, ok, err, if◌then◌else◌}
use xero_visma_v.Errors.{Error}
use xero_visma_v.Foreign.{Time}
use xero_visma_v.Client.Retry.{Headers}
use xero_visma_v.Client.RateLimit.{
  Limiter, has_slot, proactive_wait, take_permit, update_from_headers,
}

-- `GET {BASE_URL}/{path}` with its query; the headers that vary, where they are sent.
pub record Request : Type 0 where
  pub path : Text
  pub query : List (Text × Text)
  pub access_token : Text
  pub tenant_header : Option Text
  pub if_modified_since : Option Text

-- The bytes of a body, or the error of reading it.
pub data Body : Type 0 where
  bytes : Text → Body
  broken : Text → Body

pub record Response : Type 0 where
  pub status : ℕ
  pub headers : Headers
  pub body : Body
  -- the clock when the body has been read
  pub read_at : Time

-- A transport error says whether it is a timeout, a connection or a request error.
pub data Reply : Type 0 where
  response : Response → Reply
  transport_error : Bool → Text → Reply

-- The reply to the n-th request of the process, the random number below a bound and the time, at
-- that moment.
pub record Network : Type 0 where
  pub send : ℕ → Request → Reply
  pub random : ℕ → ℕ → ℕ
  pub now : ℕ → Time

-- Requests sent so far, the tenant's limiter, and the sleeps in milliseconds, the latest first.
pub record World : Type 0 where
  pub sent : ℕ
  pub limiter : Limiter
  pub slept : List ℕ

abbrev pub Run {ℓ} : Type ℓ → Type ℓ
Run A = World → Option (Result Error A × World)

module _ {ℓ κ} {A : Type ℓ} {B : Type κ} where
  abbrev pub then_run :
      Option (Result Error A × World) → (A → Run B) → Option (Result Error B × World)
  then_run none f = none
  then_run (some (ok a, w)) f = f a w
  then_run (some (err e, w)) f = some (err e, w)

  infixl 5 ◌>>=◌
  abbrev pub ◌>>=◌ : Run A → (A → Run B) → Run B
  ◌>>=◌ m f w = then_run (m w) f

abbrev pub return {ℓ} : {A : Type ℓ} → A → Run A
return a w = some (ok a, w)

abbrev pub fail {ℓ} : {A : Type ℓ} → Error → Run A
fail e w = some (err e, w)

abbrev sleep : Option ℕ → List ℕ → List ℕ
sleep none slept = slept
sleep (some ms) slept = ms ∷ slept

-- The sleep and the count at the end of `acquire`.
unfoldable pub with_permit : World → World
unfolding proactive_wait take_permit
with_permit w = record w {
  limiter = take_permit w.limiter;
  slept = sleep (proactive_wait w.limiter) w.slept;
}

-- `TenantRateLimiter::acquire`
unfoldable pub acquire : World → Option World
unfolding has_slot with_permit
acquire w = if has_slot w.limiter then some (with_permit w) else none

-- What the limiter learns from a reply.
unfoldable pub learn : Reply → Limiter → Limiter
learn (response r) l = update_from_headers r.headers l
learn (transport_error transient message) l = l
