-- ===== src/Handler/Concurrent/Alone.antt =====
-- The steps of a request that nothing else comes between, against the handler of
-- internal/handler/handler.go as a whole: they are those that the handler makes.
use opa_openshift.Base.{
  ℕ, String, List, [], ◌∷◌, ◌≡◌, ◌⊎◌, inl, inr, refl, sym, subst, ap, ◌∙◌, Result,
}
use opa_openshift.Response.{DataResponse}
use opa_openshift.Openshift.Reviews.{Trace, Cluster, client}
use opa_openshift.Authorizer.Cached.{Authorizer, authorize}
use opa_openshift.Authorizer.Concurrent.{Phase, finished, Moves}
use opa_openshift.Authorizer.Concurrent as Steps
use opa_openshift.Authorizer.Concurrent.Alone.{authorize-Moves, Rest, Move-Rest}
use opa_openshift.Handler.{
  HttpRequest, Action, http_error, pass, stop, Setting, Prepared, prepare, authorizer, reply,
  handle,
}
use opa_openshift.Handler.Replies.{Prepared-cases, handle_of_pass, handle_of_stop}
use opa_openshift.Handler.Concurrent.{
  asking, task_of, HttpPhase, received, authorizing, replied, HttpMove, refuse, accept, proceed,
  answer, HttpMoves, here, next,
}

module _ {S : Type 0} (t : Setting S) where
  -- The steps of the authorizer, then those of the handler.
  proceed_all :
      (r : HttpRequest) (p : Prepared t) {s s' s'' : S} {ph ph' : Phase} {end : HttpPhase t}
      → Moves (asking p.connection.ssar) t.sha256_hex t.labels t.cache (task_of t p) s ph s' ph'
      → HttpMoves t r s' (authorizing p ph') s'' end
      → HttpMoves t r s (authorizing p ph) s'' end
  proceed_all r p Steps.here rest = rest
  proceed_all r p (Steps.next move moves) rest = next (proceed p move) (proceed_all r p moves rest)

  -- The handler by itself makes these steps: it takes a request from its arrival to the reply that
  -- it gives, and leaves the cache as they do.
  pub handle-HttpMoves :
      (r : HttpRequest) (s : S)
      → HttpMoves t r s received (handle t r [] s).2 (replied (handle t r [] s).0)
  handle-HttpMoves r s = elim (Prepared-cases t r) [
    | inr (text, code, stopped) ↦
        rw (handle_of_stop t r [] s text code stopped) (next (refuse text code stopped) here)
    | inl (p, passed) ↦ rw (handle_of_pass t r [] s p passed) (
        next (accept p passed) (
          proceed_all r p
            (authorize-Moves (asking p.connection.ssar) t.sha256_hex t.labels t.cache (task_of t p)
              (t.cluster p.connection) s)
            (next (answer p _) here)))
  ]

  -- The authorizer of a prepared request, with an API server.
  abbrev pub authorizer_on : Cluster → Prepared t → Authorizer Trace S
  authorizer_on c p = record (authorizer t p) { client = client c p.connection.ssar }

  -- A request was refused, or replied to with what the authorizer gives with some API server.
  abbrev pub IsHandled : HttpRequest → S → S → List Action → Type 0
  IsHandled r s s' actions =
      ((text : String) × (code : ℕ) × (prepare t r ≡ stop text code)
        × (actions ≡ http_error text code ∷ [])
        × (s ≡ s'))
      ⊎ ((p : Prepared t) × (c : Cluster) × (prepare t r ≡ pass p)
          × (actions ≡ reply t (authorize (authorizer_on c p) p.query [] s).0)
          × ((authorize (authorizer_on c p) p.query [] s).2 ≡ s'))

  module _ (default : Cluster) (r : HttpRequest) where
    -- What the rest of a run that ends in s' with these actions comes to.
    abbrev RestOf : S → HttpPhase t → S → List Action → Type 0
    RestOf s received s' actions = IsHandled r s s' actions
    RestOf s (authorizing p ph) s' actions =
        (prepare t r ≡ pass p)
        → (res : Result DataResponse) × (actions ≡ reply t res)
          × Rest (asking p.connection.ssar) t.sha256_hex t.labels t.cache (task_of t p) s ph s' res
    RestOf s (replied done) s' actions = (actions ≡ done) × (s ≡ s')

    accept-RestOf :
        (s s' : S) (actions : List Action) (p : Prepared t)
        → prepare t r ≡ pass p
        → RestOf s (authorizing p Steps.waiting) s' actions
        → IsHandled r s s' actions
    accept-RestOf s s' actions p passed h =
        let (res, e, (c, (same, kept))) = h passed in
        inr (p, c, passed, e ∙ ap (reply t) (sym same), kept)

    HttpMove-RestOf :
        {s s1 : S} {ph ph1 : HttpPhase t} (s' : S) (actions : List Action)
        → HttpMove t r s ph s1 ph1
        → RestOf s1 ph1 s' actions
        → RestOf s ph s' actions
    HttpMove-RestOf s' actions (refuse text code stopped) (e, kept) =
        inl (text, code, stopped, e, kept)
    HttpMove-RestOf s' actions (accept p passed) h = accept-RestOf _ s' actions p passed h
    HttpMove-RestOf s' actions (proceed p move) h = λ passed.
        let (res, e, rest) = h passed in
        (
          res,
          e,
          Move-Rest (asking p.connection.ssar) t.sha256_hex t.labels t.cache (task_of t p) default
              s' res move rest,
        )
    HttpMove-RestOf s' actions (answer p res) (e, kept) = λ passed. (res, e, (refl, kept))

    HttpMoves-RestOf :
        {s s' : S} {ph ph' : HttpPhase t} (actions : List Action)
        → HttpMoves t r s ph s' ph'
        → ph' ≡ replied actions
        → RestOf s ph s' actions
    HttpMoves-RestOf {s} actions here e = subst (λ ph. RestOf s ph s actions) (sym e) (refl, refl)
    HttpMoves-RestOf actions (next move moves) e =
        HttpMove-RestOf _ actions move (HttpMoves-RestOf actions moves e)

    -- A request that takes these steps with nothing of another one in between is handled as by the
    -- handler: it is refused with the text and the status of its first failed check, and leaves the
    -- cache as it is; or its reply, and the cache after it, are those of the authorizer of the
    -- prepared request, with some API server.
    pub HttpMoves-IsHandled :
        {s s' : S} (actions : List Action)
        → HttpMoves t r s received s' (replied actions)
        → IsHandled r s s' actions
    HttpMoves-IsHandled actions moves = HttpMoves-RestOf actions moves refl
