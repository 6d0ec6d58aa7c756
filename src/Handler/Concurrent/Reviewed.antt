-- ===== src/Handler/Concurrent/Reviewed.antt =====
-- A response that internal/handler/handler.go has decided for one of its requests, against what the
-- API server has answered to that request.
use opa_openshift.Base.{
  ℕ, String, [], ◌++◌, ◌≡◌, inl, inr, refl, subst, Result, ok, Bool-cases, In, In-append_left, ◌=?◌,
  arith,
}
use opa_openshift.Base.Interleaving.{update}
use opa_openshift.Response.{DataResponse}
use opa_openshift.Openshift.Reviews.{Trace, Cluster, client, client-laws}
use opa_openshift.Authorizer.Inner.{authorize_inner}
use opa_openshift.Authorizer.Inner.Audit.{authorize_inner-IsJustified}
use opa_openshift.Authorizer.Cached.Keyed.{key_of}
use opa_openshift.Handler.{HttpRequest, pass, Setting, Prepared, prepare}
use opa_openshift.Handler.Calls.{decided_query}
use opa_openshift.Handler.Concurrent.Granted.{
  IsWithin, IsGrantedIn, IsGrantedIn-later, IsJustified-IsGrantedIn,
}

module _ {S : Type 0} (t : Setting S) where
  -- The decision for a prepared request, by an API server that has got no call of it before.
  abbrev pub decision : Prepared t → Cluster → Result DataResponse × Trace
  decision p c =
      authorize_inner t.labels (client c p.connection.ssar) p.matcher (decided_query t p) []

  module _ (requests : ℕ → HttpRequest) where
    -- The response was decided for a request that the process has got and prepared, under that key.
    -- The calls of that decision are among those which the API server has answered to that very
    -- request, and whatever the response grants has been answered with yes in these.
    pub record IsReviewed (answered : ℕ → Trace) (key : String) (r : DataResponse) : Type 0 where
      pub request : ℕ
      pub prepared : Prepared t
      pub passed : prepare t (requests request) ≡ pass prepared
      pub same_key : key_of t.sha256_hex prepared.query prepared.matcher ≡ key
      pub cluster : Cluster
      pub decided : (decision prepared cluster).0 ≡ ok r
      pub logged : IsWithin (decision prepared cluster).1 (answered request)
      pub granted :
          IsGrantedIn t.labels prepared.connection.ssar prepared.matcher
            (decided_query t prepared)
            (answered request)
            r

    pub own-IsReviewed :
        (answered : ℕ → Trace) (i : ℕ) (p : Prepared t)
        → prepare t (requests i) ≡ pass p
        → (c : Cluster) (r : DataResponse) → (decision p c).0 ≡ ok r
        → IsWithin (decision p c).1 (answered i)
        → IsReviewed answered (key_of t.sha256_hex p.query p.matcher) r
    own-IsReviewed answered i p passed c r e within = record {
      request = i;
      prepared = p;
      passed = passed;
      same_key = refl;
      cluster = c;
      decided = e;
      logged = within;
      granted =
          IsGrantedIn-later t.labels p.connection.ssar p.matcher (decided_query t p) _ _ within r (
            IsJustified-IsGrantedIn t.labels p.connection.ssar p.matcher (decided_query t p) c (
              authorize_inner-IsJustified t.labels (client c p.connection.ssar)
                (client-laws c p.connection.ssar) p.matcher (decided_query t p) [] r e));
    }

    -- More calls leave what was reviewed reviewed.
    abbrev pub IsGrowth : (ℕ → Trace) → (ℕ → Trace) → Type 0
    IsGrowth old new = (i : ℕ) → IsWithin (old i) (new i)

    pub IsReviewed-later :
        (old new : ℕ → Trace) (key : String) (r : DataResponse)
        → IsGrowth old new
        → IsReviewed old key r
        → IsReviewed new key r
    IsReviewed-later old new key r more h = record {
      request = h.request;
      prepared = h.prepared;
      passed = h.passed;
      same_key = h.same_key;
      cluster = h.cluster;
      decided = h.decided;
      logged = λ c i. more h.request c (h.logged c i);
      granted =
          IsGrantedIn-later t.labels h.prepared.connection.ssar h.prepared.matcher
            (decided_query t h.prepared) _ _ (more h.request) r h.granted;
    }

    pub update-IsGrowth :
        (old : ℕ → Trace) (i : ℕ) (calls : Trace) → IsGrowth old (update old i (old i ++ calls))
    update-IsGrowth old i calls j c h = elim (Bool-cases (j =? i)) [
      | inl e ↦
          let same : j ≡ i = ground arith in
          rw e (In-append_left c (old i) calls (subst (λ k. In c (old k)) same h))
      | inr e ↦ rw e h
    ]
