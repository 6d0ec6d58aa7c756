-- ===== src/Authorizer/Cached/Repeat.antt =====
-- What `Authorize` of internal/authorizer/authorizer.go answers to a request that was answered
-- before, and that it leaves the cluster alone then.
use opa_openshift.Base.{
  String, true, none, some, List, ◌≡◌, ap, arith, ◌||◌, ok, ◌==◌, Bool-cases, Result-cases, inl,
  inr, err-ne-ok, ok_inj, ◌∙◌,
}
use mathlib.Core.List.{Perm}
use mathlib.Core.List.Perm
use opa_openshift.Response.{DataResponse}
use opa_openshift.Authorizer.{Query, get_verb, create_verb}
use opa_openshift.Authorizer.Key.{generate_cache_key}
use opa_openshift.Authorizer.Key.Order.{generate_cache_key-perm}
use opa_openshift.Authorizer.Inner.{authorize_inner}
use opa_openshift.Authorizer.Cached.{Authorizer, authorize_missed, authorize_known, authorize}

module _ {W S : Type 0} (a : Authorizer W S) where
  abbrev key_of : Query → String
  key_of q = (generate_cache_key a.sha256_hex q (some a.matcher)).0

  -- After a miss a response is written under the key of the request.
  stored_of_missed :
      (key : String) (q : Query) (w : W) (s : S) (r : DataResponse)
      → (authorize_missed a key q w s).0 ≡ ok r
      → (authorize_missed a key q w s).2 ≡ (a.cache.set s key r).1
  unfolding authorize_missed
  stored_of_missed key q w s r e =
      elim (Result-cases (authorize_inner a.labels a.client a.matcher q w).0) [
        | inl (x, decided) ↦ ground arith
        | inr (x, failed) ↦ ground arith
      ]

  verb_known :
      (q : Query) (w : W) (s : S) (r : DataResponse)
      → (authorize a q w s).0 ≡ ok r
      → (q.verb == create_verb || q.verb == get_verb) ≡ true
  unfolding authorize
  verb_known q w s r e = elim (Bool-cases (q.verb == create_verb || q.verb == get_verb)) [
    | inl known ↦ known
    | inr unknown ↦ absurd (err-ne-ok (rw (unknown, authorize) at e))
  ]

  authorize_of_known :
      (q : Query) (w : W) (s : S)
      → (q.verb == create_verb || q.verb == get_verb) ≡ true
      → authorize a q w s ≡ authorize_known a q w s
  unfolding authorize
  authorize_of_known q w s known = rw (known, authorize)

  -- A response that is found is returned, and the cluster is left alone.
  hit :
      (q : Query) (w : W) (s : S) (r : DataResponse)
      → (a.cache.get s (key_of q)).0 ≡ ok (some r)
      → authorize_known a q w s ≡ (ok r, w, (a.cache.get s (key_of q)).1)
  unfolding authorize_known
  hit q w s r found = rw (found, authorize_known)

  module _
      (retains_set : (s : S) (k : String) (r : DataResponse)
        → (a.cache.get (a.cache.set s k r).1 k).0 ≡ ok (some r))
      (retains_get : (s : S) (k : String) (r : DataResponse)
        → (a.cache.get s k).0 ≡ ok (some r)
        → (a.cache.get (a.cache.get s k).1 k).0 ≡ ok (some r)) where
    found_after :
        (q : Query) (w : W) (s : S) (r : DataResponse)
        → (authorize_known a q w s).0 ≡ ok r
        → (a.cache.get (authorize_known a q w s).2 (key_of q)).0 ≡ ok (some r)
    unfolding authorize_known
    found_after q w s r e = elim (Result-cases (a.cache.get s (key_of q)).0) [
      | inr (x, failed) ↦ absurd (err-ne-ok (rw (failed, authorize_known) at e))
      | inl (some p, found) ↦
          rw (found, authorize_known)
            (retains_get s (key_of q) r
              (found ∙ ap ok (ap some (ok_inj (rw (found, authorize_known) at e)))))
      | inl (none, missed) ↦
          let q' = (generate_cache_key a.sha256_hex q (some a.matcher)).1 in
          let s' = (a.cache.get s (key_of q)).1 in
          rw (missed, authorize_known)
            (rw (stored_of_missed (key_of q) q' w s' r (rw (missed, authorize_known) at e))
              (retains_set s' (key_of q) r))
    ]

    -- With a cache that keeps what it was given, a request that was answered is answered the same
    -- way when it is made again, with its groups in any order and whatever the cluster has come to
    -- say since; and the cluster is not asked again.
    pub authorize_again :
        (q : Query) (gs : List String) (w w' : W) (s : S) (r : DataResponse)
        → Perm q.groups gs
        → (authorize a q w s).0 ≡ ok r
        → let s' = (authorize a q w s).2 in
          authorize a (record q { groups = gs }) w' s' ≡ (ok r, w', (a.cache.get s' (key_of q)).1)
    authorize_again q gs w w' s r same e =
        let known = verb_known q w s r e in
        let first = authorize_of_known q w s known in
        let key =
          ap (λ (t : String × Query). t.0)
            (generate_cache_key-perm a.sha256_hex q q.groups gs a.matcher a.matcher same
              (Perm.refl a.matcher.keys)).0 in
        let p : Query = record q { groups = gs } in
        let found : (a.cache.get (authorize a q w s).2 (key_of p)).0 ≡ ok (some r) =
          rw (← key, first) (found_after q w s r (rw first at e)) in
        rw (authorize_of_known p w' (authorize a q w s).2 known, key)
          (hit p w' (authorize a q w s).2 r found)
