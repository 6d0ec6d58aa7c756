-- ===== src/Handler/Fresh.antt =====
-- What internal/handler/handler.go answers to a request that is not in the cache, from the HTTP
-- request to the reply.
use opa_openshift.Base.{
  String, Bool, true, none, some, List, ◌≡◌, ap, ◌∙◌, arith, ◌||◌, ◌==◌, eq_iff, ok, Result-cases,
  inl, inr,
}
use opa_openshift.Openshift.{Access}
use opa_openshift.Openshift.Reviews.{Trace, client, review_of, access_review-trace, list_namespaces}
use opa_openshift.Authorizer.{Query, get_verb, create_verb}
use opa_openshift.Authorizer.Key.{generate_cache_key}
use opa_openshift.Authorizer.Inner.{authorize_inner}
use opa_openshift.Authorizer.Inner.Exact.{decide, authorize_inner-decide}
use opa_openshift.Authorizer.Cached.{Authorizer, authorize, authorize_known, authorize_missed}
use opa_openshift.Handler.{
  HttpRequest, Action, pass, Setting, Prepared, prepare, authorizer, reply, handle,
}
use opa_openshift.Handler.Checks.{prepare-IsChecked}
use opa_openshift.Handler.Replies.{handle_of_pass}

module _ {W S : Type 0} (a : Authorizer W S) where
  missed_answer :
      (key : String) (q : Query) (w : W) (s : S)
      → (authorize_missed a key q w s).0 ≡ (authorize_inner a.labels a.client a.matcher q w).0
  unfolding authorize_missed
  missed_answer key q w s =
      elim (Result-cases (authorize_inner a.labels a.client a.matcher q w).0) [
        | inl (r, decided) ↦ rw (decided, authorize_missed)
        | inr (e, failed) ↦ rw (failed, authorize_missed)
      ]

  -- A request with a known verb that is not found in the cache is decided.
  authorize_of_miss :
      (q : Query) (w : W) (s : S)
      → (q.verb == create_verb || q.verb == get_verb) ≡ true
      → (a.cache.get s (generate_cache_key a.sha256_hex q (some a.matcher)).0).0 ≡ ok none
      → (authorize a q w s).0
        ≡ (authorize_inner a.labels a.client a.matcher
            (generate_cache_key a.sha256_hex q (some a.matcher)).1
            w).0
  unfolding authorize authorize_known
  authorize_of_miss q w s known missed =
      let (key, q') = generate_cache_key a.sha256_hex q (some a.matcher) in
      rw (known, missed, authorize, authorize_known) (missed_answer key q' w (a.cache.get s key).1)

module _ {S : Type 0} (t : Setting S) where
  known_verb :
      (r : HttpRequest) (p : Prepared t)
      → prepare t r ≡ pass p
      → (p.query.verb == create_verb || p.query.verb == get_verb) ≡ true
  known_verb r p passed =
      let (post, body, input, read, decoded, checked) = prepare-IsChecked t r p passed in
      ground (arith, checked.verb, eq_iff p.query.verb create_verb, eq_iff p.query.verb get_verb)

  -- A request that passes the checks and is not in the cache gets the reply to the reference
  -- decision, while the API server's answers do not change: for the request's own matcher, with
  -- its groups sorted, over the reviews of its connection's mode and the projects.
  pub handle-decide :
      (r : HttpRequest) (w : Trace) (s : S) (p : Prepared t) (sar : Access → Bool)
      (projects : List String)
      → prepare t r ≡ pass p
      → (t.cache.get s (generate_cache_key t.sha256_hex p.query (some p.matcher)).0).0 ≡ ok none
      → ((x : Access) (trace : Trace)
          → (t.cluster p.connection).review trace (review_of p.connection.ssar x) ≡ ok (sar x))
      → ((trace : Trace) → (t.cluster p.connection).projects trace ≡ ok projects)
      → (handle t r w s).0
        ≡ reply t (
            decide t.labels p.matcher sar projects
              (generate_cache_key t.sha256_hex p.query (some p.matcher)).1)
  unfolding list_namespaces
  handle-decide r w s p sar projects passed missed reviews lists =
      let ssar = p.connection.ssar in
      let cluster = t.cluster p.connection in
      let q = (generate_cache_key t.sha256_hex p.query (some p.matcher)).1 in
      ap (λ (out : List Action × Trace × S). out.0) (handle_of_pass t r w s p passed)
      ∙ ap (reply t) (
          authorize_of_miss (authorizer t p) p.query w s (known_verb r p passed) missed
          ∙ authorize_inner-decide t.labels (client cluster ssar) p.matcher sar projects
              (λ x trace.
                ((access_review-trace cluster ssar x trace).1 (sar x)).1 (reviews x trace))
              (λ trace. rw lists) q w)
