-- ===== src/Handler/Sequence.antt =====
-- What internal/handler/handler.go answers after any sequence of requests.
use opa_openshift.Base.{
  ℕ, String, Option, some, List, [], ◌∷◌, ◌≡◌, ◌⊎◌, inl, inr, ◌∙◌, Error, Result, ok,
}
use opa_openshift.Response.{DataResponse}
use opa_openshift.Cache.{CacherLaws}
use opa_openshift.Openshift.Reviews.{Trace, client}
use opa_openshift.Authorizer.Cached.Provenance.{IsDecision, key_of, Reach, authorize-IsDecision}
use opa_openshift.Handler.Replies.{handle_of_pass, handle_of_stop, Prepared-cases, handle_replies}
use opa_openshift.Handler.{
  HttpRequest, Action, http_error, write, write_failed, pass, Setting, Prepared, prepare,
  error_reply, handle,
}

pub error-ne-write :
    {actions : List Action} {text out : String} {code : ℕ}
    → actions ≡ http_error text code ∷ []
    → actions ≡ write out ∷ []
    → ⊥
error-ne-write e h = cc

-- A reply that is one write is the write of the response.
pub marshalled_out :
    {marshalled : Result String} {written : Option Error} {actions : List Action}
    {out out' : String} (rest : Error → List Action)
    → marshalled ≡ ok out'
    → (actions ≡ write out' ∷ [])
      ⊎ ((e : Error) × (written ≡ some e) × (actions ≡ write_failed out' ∷ rest e))
    → actions ≡ write out ∷ []
    → marshalled ≡ ok out
marshalled_out rest m (inl e) h = m ∙ cc
marshalled_out rest m (inr (x, _, e)) h = absurd (cc)

module _ {S : Type 0} (t : Setting S) (laws : CacherLaws t.cache) where
  -- The states of the cache after any sequence of HTTP requests to a process that starts with a
  -- cache in which nothing is found.
  pub data Served : S → Type 0 where
    start : (s : S) → ((k : String) (r : DataResponse) → ¬ laws.Holds s k r) → Served s
    next : {s : S} (r : HttpRequest) (w : Trace) → Served s → Served (handle t r w s).2

  Served-Reach : {s : S} → Served s → Reach Trace t.sha256_hex t.labels laws s
  Served-Reach (start s nothing) = Reach.start s nothing
  Served-Reach (next {s} r w served) = elim (Prepared-cases t r) [
    | inl (p, passed) ↦ rw (handle_of_pass t r w s p passed) (
        Reach.next (client (t.cluster p.connection) p.connection.ssar) p.matcher p.query w
          (Served-Reach served))
    | inr (text, code, stopped) ↦
        rw (handle_of_stop t r w s text code stopped) (Served-Reach served)
  ]

  -- After any sequence of requests to a process that starts with an empty cache, a request that is
  -- answered with a response gets the JSON of a decision that `authorizeInner` made under the
  -- request's own cache key, for this request or for an earlier one.
  pub served_answer :
      {s : S}
      → Served s
      → (r : HttpRequest) (w : Trace) (out : String) → (handle t r w s).0 ≡ write out ∷ []
      → (p : Prepared t) × (res : DataResponse) × (prepare t r ≡ pass p)
        × (t.codec.marshal res ≡ ok out)
        × IsDecision Trace t.sha256_hex t.labels (key_of t.sha256_hex p.query p.matcher) res
  served_answer {s} served r w out e = elim (handle_replies t r w s) [
    | inl (text, code, error, _) ↦ absurd (error-ne-write error e)
    | inr answer ↦ (
      answer.prepared,
      answer.response,
      answer.passed,
      marshalled_out (λ x. error_reply t x ∷ []) answer.marshalled answer.written e,
      authorize-IsDecision Trace t.sha256_hex t.labels laws (Served-Reach served)
          (client (t.cluster answer.prepared.connection) answer.prepared.connection.ssar)
          answer.prepared.matcher answer.prepared.query w answer.response answer.authorized,
    )
  ]
