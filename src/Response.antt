-- ===== src/Response.antt =====
-- The answer to OPA's client. `types.DataResponseV1` is OPA's; the repository writes only its
-- field `Result`, and only the values below (internal/authorizer/authorizer.go). Its JSON form is
-- a parameter, `Codec`.
use opa_openshift.Base.{String, Bool, ◌≡◌, Result, ok}

pub data DataResponse : Type 0 where
  -- `types.DataResponseV1{}`
  no_result : DataResponse
  -- a Boolean result
  bare : Bool → DataResponse
  -- a result with the texts "allowed" and "data"
  matched : String → String → DataResponse

-- `json.Marshal` and `json.Unmarshal` on a response. What is written can be read back.
pub record Codec : Type 0 where
  pub marshal : DataResponse → Result String
  pub unmarshal : String → Result DataResponse
  pub unmarshal-marshal : (r : DataResponse) (b : String) → marshal r ≡ ok b → unmarshal b ≡ ok r
