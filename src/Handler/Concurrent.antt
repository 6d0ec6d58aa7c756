-- ===== src/Handler/Concurrent.antt =====
-- HTTP requests to internal/handler/handler.go that are handled at the same time, each in a
-- goroutine of its own, on one cache. The checks and the reply are one step each; the call of the
-- authorizer between them makes the steps of Authorizer/Concurrent. Each decision asks the API
-- server about nothing but its own request, and the server may answer anything. What it has
-- answered to each request is part of the state.
pub mod Alone
pub mod Granted
pub mod Reviewed
pub mod Safety
use opa_openshift.Base.{ℕ, String, Bool, List, [], ◌∷◌, ◌++◌, none, some, ◌≡◌, Result}
use opa_openshift.Base.Interleaving.{System, update}
use opa_openshift.Response.{DataResponse}
use opa_openshift.Cache.{CacherLaws}
use opa_openshift.Openshift.{Client}
use opa_openshift.Openshift.Reviews.{Trace, Cluster, client}
use opa_openshift.Authorizer.Concurrent.{
  Task, Phase, waiting, finished, Move, world_after, IsEmpty, IsLoss,
}
use opa_openshift.Handler.{
  HttpRequest, Action, http_error, pass, stop, Setting, Prepared, prepare, reply,
}

-- The client that asks an API server, in a mode, before any call of its own.
abbrev pub asking : Bool → Cluster → Client Trace × Trace
asking ssar cluster = (client cluster ssar, [])

module _ {S : Type 0} (t : Setting S) where
  abbrev pub task_of : Prepared t → Task
  task_of p = record { matcher = p.matcher; query = p.query }

  -- Where a request stands: not looked at yet; in the authorizer; replied to.
  pub data HttpPhase : Type 0 where
    received : HttpPhase
    authorizing : Prepared t → Phase → HttpPhase
    replied : List Action → HttpPhase

  -- One step of one request, on the cache in the state s.
  pub data HttpMove (r : HttpRequest) (s : S) : HttpPhase → S → HttpPhase → Type 0 where
    refuse :
        (text : String) (code : ℕ)
        → prepare t r ≡ stop text code
        → HttpMove r s received s (replied (http_error text code ∷ []))
    accept :
        (p : Prepared t) → prepare t r ≡ pass p → HttpMove r s received s (authorizing p waiting)
    proceed :
        (p : Prepared t) {s' : S} {ph ph' : Phase}
        → Move (asking p.connection.ssar) t.sha256_hex t.labels t.cache (task_of p) s ph s' ph'
        → HttpMove r s (authorizing p ph) s' (authorizing p ph')
    answer :
        (p : Prepared t) (res : Result DataResponse)
        → HttpMove r s (authorizing p (finished res)) s (replied (reply t res))

  -- The steps of one request, with no other in between.
  pub data HttpMoves (r : HttpRequest) : S → HttpPhase → S → HttpPhase → Type 0 where
    here : {s : S} {ph : HttpPhase} → HttpMoves r s ph s ph
    next :
        {s s' s'' : S} {ph ph' ph'' : HttpPhase}
        → HttpMove r s ph s' ph'
        → HttpMoves r s' ph' s'' ph''
        → HttpMoves r s ph s'' ph''

  -- The calls to the API server that are made and answered in a step.
  abbrev pub calls_of :
      {r : HttpRequest} {s s' : S} {ph ph' : HttpPhase} → HttpMove r s ph s' ph' → Trace
  calls_of (refuse text code stopped) = []
  calls_of (accept p passed) = []
  calls_of (proceed p move) =
      elim (world_after (asking p.connection.ssar) t.sha256_hex t.labels t.cache move) [
        | none ↦ []
        | some calls ↦ calls
      ]
  calls_of (answer p res) = []

  -- The cache, and the calls that the API server has answered to each request so far.
  pub record Shared : Type 0 where
    pub cache : S
    pub answered : ℕ → Trace

  module _ (laws : CacherLaws t.cache) (requests : ℕ → HttpRequest) where
    -- A step of the i-th request, whose calls are added to those that were answered to it.
    pub record RequestMove (i : ℕ) (x : Shared) (ph : HttpPhase) (x' : Shared) (ph' : HttpPhase)
        : Type 0 where
      pub move : HttpMove (requests i) x.cache ph x'.cache ph'
      pub logged : x'.answered ≡ update x.answered i (x.answered i ++ calls_of move)

    -- The cache loses entries.
    abbrev pub IsCacheLoss : Shared → Shared → Type 0
    IsCacheLoss x x' = IsLoss laws x.cache x'.cache × (x'.answered ≡ x.answered)

    -- A process starts with an empty cache, no request looked at and no call made.
    abbrev pub IsFresh : System Shared HttpPhase → Type 0
    IsFresh y =
        IsEmpty laws y.shared.cache
        × ((i : ℕ) → y.shared.answered i ≡ [])
        × ((i : ℕ) → y.phase i ≡ received)
