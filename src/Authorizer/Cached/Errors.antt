-- ===== src/Authorizer/Cached/Errors.antt =====
-- The error paths of `Authorize` in internal/authorizer/authorizer.go: which HTTP status an error
-- carries, and that a failure is never cached.
use opa_openshift.Base.{
  ℕ, String, Option, none, some, List, [], ◌∷◌, ◌≡◌, ◌⊎◌, inl, inr, arith, Error, plain,
  status_code_error, Result, ok, err, if◌then◌else◌, eq_iff, Result-cases, ok-ne-err, ◌≢◌, snoc,
  filter,
}
use opa_openshift.Base.Text.{join}
use opa_openshift.Base.Assoc.{has}
use opa_openshift.Openshift.{Client}
use opa_openshift.Config.Matcher.{Matcher}
use opa_openshift.Authorizer.{Query, access_in, get_verb, create_verb}
use opa_openshift.Authorizer.Key.{generate_cache_key}
use opa_openshift.Authorizer.Data.{Labels, AuthzResponseData, new_matchers, new_data_response}
use opa_openshift.Authorizer.Inner.{
  names_set, review_namespaces, respond, authorize_namespaces, authorize_listed,
  authorize_cluster_wide, authorize_reviewed, authorize_inner,
}
use opa_openshift.Authorizer.Cached.{Authorizer, authorize_missed, authorize_known, authorize}

-- `err.(StatusCoder)`: the status that an error carries, if it does
abbrev pub status_of : Error → Option ℕ
status_of (plain text) = none
status_of (status_code_error text sc) = some sc

-- The status of an error that is not the caller's.
abbrev pub IsServerSide : Error → Type 0
IsServerSide e = (status_of e ≡ some 401) ⊎ ((status_of e ≡ some 500) ⊎ (status_of e ≡ none))

module _ (labels : Labels) (matcher : Matcher) where
  new_matchers_status :
      (value : String) (keys : List String) (e : Error)
      → new_matchers labels value keys ≡ err e
      → status_of e ≡ none
  unfolding new_matchers
  new_matchers_status value [] e h = cc
  new_matchers_status value (k ∷ ks) e h = elim (Result-cases (labels.new_matcher k value)) [
    | inr (x, failed) ↦ ground arith
    | inl (m, made) ↦ ground (arith, new_matchers_status value ks e)
  ]

  new_data_response_status :
      (ns : List String) (e : Error)
      → new_data_response labels ns matcher ≡ err e
      → status_of e ≡ none
  unfolding new_data_response
  new_data_response_status ns e h =
      elim (Result-cases (new_matchers labels (join "|" ns) matcher.keys)) [
        | inr (x, failed) ↦ ground (arith, new_matchers_status (join "|" ns) matcher.keys x failed)
        | inl (ms, made) ↦
            let content : AuthzResponseData labels.LabelMatcher = record {
              matchers = ms;
              matcher_op = matcher.matcher_op;
            } in
            elim (Result-cases (labels.marshal content)) [
              | inr (x, failed) ↦ ground arith
              | inl (json, written) ↦ ground arith
            ]
      ]

  respond_status :
      (res : Result (List String)) (e : Error)
      → ((x : Error) → res ≡ err x → IsServerSide x)
      → respond labels matcher res ≡ err e
      → IsServerSide e
  unfolding respond
  respond_status (err x) e g h = g e (cc)
  respond_status (ok ns) e g h = ground arith

  module _ {W : Type 0} (client : Client W) (q : Query) where
    review_namespaces_status :
        (ns allowed : List String) (w : W) (e : Error)
        → (review_namespaces client q allowed ns w).0 ≡ err e
        → IsServerSide e
    unfolding review_namespaces
    review_namespaces_status [] allowed w e h = cc
    review_namespaces_status (n ∷ ns) allowed w e h =
        let a = access_in q n in
        let w' = (client.access_review a w).1 in
        elim (Result-cases (client.access_review a w).0) [
          | inr (x, failed) ↦ ground arith
          | inl (b, answered) ↦
              review_namespaces_status ns (if b then snoc allowed n else allowed) w' e
                (rw (answered, review_namespaces) at h)
        ]

    namespaces_status :
        (ns : List String) (w : W) (e : Error)
        → (authorize_namespaces labels client matcher q ns w).0 ≡ err e
        → IsServerSide e
    unfolding authorize_namespaces
    namespaces_status ns w e h =
        respond_status (review_namespaces client q [] ns w).0 e (review_namespaces_status ns [] w) h

    listed_status :
        (w : W) (e : Error)
        → (authorize_listed labels client matcher q w).0 ≡ err e
        → IsServerSide e
    unfolding authorize_listed
    listed_status w e h = elim (Result-cases (client.list_namespaces w).0) [
      | inr (x, failed) ↦ ground arith
      | inl (ns, found) ↦ ground (arith, namespaces_status ns (client.list_namespaces w).1 e)
    ]

    cluster_wide_status :
        (w : W) (e : Error)
        → (authorize_cluster_wide labels client matcher q.namespaces w).0 ≡ err e
        → IsServerSide e
    unfolding authorize_cluster_wide
    cluster_wide_status w e h = elim (Result-cases (client.list_namespaces w).0) [
      | inr (x, failed) ↦ ground arith
      | inl (ns, found) ↦ ground (
        arith,
        new_data_response_status ns e,
        new_data_response_status (filter (λ n. has n (names_set ns [])) q.namespaces) e,
      )
    ]

    inner_status :
        (w : W) (e : Error) → (authorize_inner labels client matcher q w).0 ≡ err e → IsServerSide e
    unfolding authorize_inner authorize_reviewed
    inner_status w e h =
        let w' = (client.access_review (access_in q "") w).1 in
        elim (Result-cases (client.access_review (access_in q "") w).0) [
          | inr (x, failed) ↦ ground arith
          | inl (b, answered) ↦ ground (
            arith,
            cluster_wide_status w' e,
            listed_status w' e,
            namespaces_status q.namespaces w' e,
          )
        ]

module _ {W S : Type 0} (a : Authorizer W S) where
  -- The state of the cache after it was asked for the key of the request.
  abbrev pub looked_up : Query → S → S
  looked_up q s = (a.cache.get s (generate_cache_key a.sha256_hex q (some a.matcher)).0).1

  missed_error :
      (key : String) (q : Query) (w : W) (s : S) (e : Error)
      → (authorize_missed a key q w s).0 ≡ err e
      → ((authorize_missed a key q w s).2 ≡ s) × IsServerSide e
  unfolding authorize_missed
  missed_error key q w s e h =
      elim (Result-cases (authorize_inner a.labels a.client a.matcher q w).0) [
        | inl (r, decided) ↦ absurd (ok-ne-err (rw (decided, authorize_missed) at h))
        | inr (x, failed) ↦
            (ground arith, inner_status a.labels a.matcher a.client q w e (ground arith))
      ]

  known_error :
      (q : Query) (w : W) (s : S) (e : Error)
      → (authorize_known a q w s).0 ≡ err e
      → ((authorize_known a q w s).2 ≡ looked_up q s) × IsServerSide e
  unfolding authorize_known
  known_error q w s e h =
      let (key, q') = generate_cache_key a.sha256_hex q (some a.matcher) in
      elim (Result-cases (a.cache.get s key).0) [
        | inr (x, failed) ↦ ground arith
        | inl (some r, found) ↦ absurd (ok-ne-err (rw (found, authorize_known) at h))
        | inl (none, missed) ↦
            rw (missed, authorize_known)
              (missed_error key q' w (a.cache.get s key).1 e (rw (missed, authorize_known) at h))
      ]

  -- A failed request has written nothing to the cache. It failed with status 400 exactly if its
  -- verb is neither "create" nor "get", and then neither the cluster nor the cache was asked;
  -- otherwise with 401, with 500, or with an error that carries no status.
  pub authorize_error :
      (q : Query) (w : W) (s : S) (e : Error)
      → (authorize a q w s).0 ≡ err e
      → ((q.verb ≢ create_verb)
          × (q.verb ≢ get_verb)
          × (status_of e ≡ some 400)
          × ((authorize a q w s).1 ≡ w)
          × ((authorize a q w s).2 ≡ s))
        ⊎ (((q.verb ≡ create_verb) ⊎ (q.verb ≡ get_verb))
            × IsServerSide e
            × ((authorize a q w s).2 ≡ looked_up q s))
  unfolding authorize
  authorize_error q w s e h =
      ground (arith, known_error q w s e, eq_iff q.verb create_verb, eq_iff q.verb get_verb)
