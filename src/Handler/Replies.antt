-- ===== src/Handler/Replies.antt =====
-- What internal/handler/handler.go replies to one request.
use opa_openshift.Base.{
  ℕ, String, some, List, [], ◌∷◌, ◌≡◌, ◌⊎◌, inl, inr, refl, arith, Error, error_text, Result, ok,
  err, Result-cases, Option-cases,
}
use opa_openshift.Response.{DataResponse}
use opa_openshift.Openshift.Reviews.{Trace}
use opa_openshift.Authorizer.Cached.{authorize}
use opa_openshift.Authorizer.Cached.Errors.{status_of, IsServerSide, authorize_error}
use opa_openshift.Handler.Early.{prepare_early}
use opa_openshift.Handler.{
  HttpRequest, Action, http_error, write, write_failed, Step, pass, stop, Setting, Prepared,
  prepare, authorizer, error_reply, reply, handle,
}

module _ {S : Type 0} (t : Setting S) where
  -- A reply with an error: its text and its status, which is 400, 401 or 500.
  abbrev pub IsErrorReply : List Action → Type 0
  IsErrorReply actions =
      (text : String) × (code : ℕ) × (actions ≡ http_error text code ∷ [])
      × ((code ≡ 400) ⊎ (code ≡ 401) ⊎ (code ≡ 500))

  -- The reply that carries a response: it is the JSON of what the authorizer has answered. If the
  -- response writer fails on it, an error follows.
  pub record IsAnswer (r : HttpRequest) (w : Trace) (s : S) (actions : List Action) : Type 0 where
    pub prepared : Prepared t
    pub passed : prepare t r ≡ pass prepared
    pub response : DataResponse
    pub authorized : (authorize (authorizer t prepared) prepared.query w s).0 ≡ ok response
    pub out : String
    pub marshalled : t.codec.marshal response ≡ ok out
    pub written :
        (actions ≡ write out ∷ [])
        ⊎ ((e : Error) × (t.write out ≡ some e)
            × (actions ≡ write_failed out ∷ error_reply t e ∷ []))

  reply_of_error :
      (e : Error) → (status_of e ≡ some 400) ⊎ IsServerSide e → IsErrorReply (reply t (err e))
  unfolding reply
  reply_of_error (Error.plain text) h = (text, 500, refl, inr (inr refl))
  reply_of_error (Error.status_code_error text sc) h = (text, sc, refl, ground arith)

  reply_of_response :
      (r : HttpRequest) (w : Trace) (s : S) (p : Prepared t) (res : DataResponse)
      → prepare t r ≡ pass p
      → (authorize (authorizer t p) p.query w s).0 ≡ ok res
      → IsErrorReply (reply t (ok res)) ⊎ IsAnswer r w s (reply t (ok res))
  unfolding reply
  reply_of_response r w s p res passed authorized = elim (Result-cases (t.codec.marshal res)) [
    | inr (e, failed) ↦ inl (rw (failed, reply) (error_text e, 500, refl, inr (inr refl)))
    | inl (out, marshalled) ↦ inr (record {
      prepared = p;
      passed = passed;
      response = res;
      authorized = authorized;
      out = out;
      marshalled = marshalled;
      written = elim (Option-cases (t.write out)) [
        | inl fine ↦ inl (rw (marshalled, fine, reply))
        | inr (e, failed) ↦ inr (e, failed, rw (marshalled, failed, reply))
      ];
    })
  ]

  pub handle_of_pass :
      (r : HttpRequest) (w : Trace) (s : S) (p : Prepared t)
      → prepare t r ≡ pass p
      → handle t r w s ≡ (
        reply t (authorize (authorizer t p) p.query w s).0,
        (authorize (authorizer t p) p.query w s).1,
        (authorize (authorizer t p) p.query w s).2,
      )
  unfolding handle
  handle_of_pass r w s p passed = rw (passed, handle)

  pub handle_of_stop :
      (r : HttpRequest) (w : Trace) (s : S) (text : String) (code : ℕ)
      → prepare t r ≡ stop text code
      → handle t r w s ≡ (http_error text code ∷ [], w, s)
  unfolding handle
  handle_of_stop r w s text code stopped = rw (stopped, handle)

  passed_replies :
      (r : HttpRequest) (w : Trace) (s : S) (p : Prepared t) (res : Result DataResponse)
      → prepare t r ≡ pass p
      → (authorize (authorizer t p) p.query w s).0 ≡ res
      → IsErrorReply (reply t res) ⊎ IsAnswer r w s (reply t res)
  passed_replies r w s p (ok res) passed e = reply_of_response r w s p res passed e
  passed_replies r w s p (err x) passed e =
      inl (reply_of_error x (ground (arith, authorize_error (authorizer t p) p.query w s x e)))

  pub Prepared-cases :
      (r : HttpRequest)
      → ((p : Prepared t) × (prepare t r ≡ pass p))
        ⊎ ((text : String) × (code : ℕ) × (prepare t r ≡ stop text code))
  Prepared-cases r = go (prepare t r) refl
    where
      go :
          (s : Step (Prepared t))
          → prepare t r ≡ s
          → ((p : Prepared t) × (prepare t r ≡ pass p))
            ⊎ ((text : String) × (code : ℕ) × (prepare t r ≡ stop text code))
      go (pass p) e = inl (p, e)
      go (stop text code) e = inr (text, code, e)

  -- Every request is replied to: with one error, whose status is 400, 401 or 500, or with the
  -- JSON of the response that the authorizer gave to the prepared request, which an error follows
  -- if it cannot be written.
  pub handle_replies :
      (r : HttpRequest) (w : Trace) (s : S)
      → IsErrorReply (handle t r w s).0 ⊎ IsAnswer r w s (handle t r w s).0
  handle_replies r w s = elim (Prepared-cases r) [
    | inl (p, passed) ↦ rw (handle_of_pass r w s p passed) (passed_replies r w s p _ passed refl)
    | inr (text, code, stopped) ↦
        rw (handle_of_stop r w s text code stopped)
          (inl (text, code, refl, ground (arith, prepare_early t r text code stopped)))
  ]
