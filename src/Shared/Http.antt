-- ===== src/Shared/Http.antt =====
-- What crosses HTTP between the services: errors that a handler raises (`HTTPException`, less its
-- message text), and the reply that an httpx call brings back.
use Prim.Native.Nat.{ℕ}
use Prim.Native.String.{String}
use mathlib.Core.Option.{Option, none, some}

-- The `detail` of an HTTPException: a plain message, or `{"detail": …, "code": …}`.
pub record HttpError : Type 0 where
  pub status_code : ℕ
  pub detail : Option (Option String)

-- `detail="…"`
abbrev pub plain_error : ℕ → HttpError
plain_error status = record { status_code = status; detail = none }

-- `detail={"detail": …, "code": code}`
abbrev pub coded_error : ℕ → Option String → HttpError
coded_error status code = record { status_code = status; detail = some code }

-- The JSON of a reply, as far as the callers read it: the endpoint's payload, or an error body.
-- `unparsable` stands for a body on which `resp.json().get("detail", {})` raises.
pub data Body (A : Type 0) : Type 0 where
  payload : A → Body A
  unparsable no_detail text_detail : Body A
  no_code : Body A
  coded : Option String → Body A

pub data Reply (A : Type 0) : Type 0 where
  timeout request_error : Reply A
  response : ℕ → Body A → Reply A

-- The body that FastAPI renders for an HTTPException.
abbrev pub error_body : {A : Type 0} → HttpError → Body A
error_body e = elim e.detail [ none ↦ text_detail | some code ↦ coded code ]

abbrev pub error_reply : {A : Type 0} → HttpError → Reply A
error_reply e = response e.status_code (error_body e)
