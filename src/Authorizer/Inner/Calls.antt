-- ===== src/Authorizer/Inner/Calls.antt =====
-- Which calls a decision of internal/authorizer/authorizer.go makes to the API server, and how
-- many.
use opa_openshift.Base.{
  ℕ, suc, ◌+◌, ◌≤◌, String, Bool, List, [], ◌∷◌, ◌++◌, append_assoc, append-nil, ◌≡◌, ◌⊎◌, inl, inr,
  refl, sym, ap, ◌∙◌, arith, ◌&&◌, Result, ok, err, context-eq-ok, Result-cases, Bool-cases,
  if◌then◌else◌, is_nil, snoc, length, length-append, All, All-append, ◌==◌,
}
use opa_openshift.Openshift.Reviews.{
  Trace, Call, reviewed, listed, Cluster, client, review_of, access_review, access_review-trace,
  list_namespaces,
}
use opa_openshift.Config.Matcher.{Matcher, is_empty}
use opa_openshift.Authorizer.{Query, access_in, create_verb}
use opa_openshift.Authorizer.Data.{Labels}
use opa_openshift.Authorizer.Inner.{
  review_namespaces, authorize_namespaces, authorize_listed, authorize_cluster_wide,
  authorize_reviewed, authorize_inner,
}

module _ (cluster : Cluster) (ssar : Bool) (q : Query) where
  -- A call that is made for the request: a review of the request's own user, groups, verb and
  -- resource in some namespace or in all of them, or a list of the projects.
  abbrev pub IsOwn : Call → Type 0
  IsOwn c =
      ((n : String) × (b : Result Bool) × (c ≡ reviewed (review_of ssar (access_in q n)) b))
      ⊎ ((projects : Result (List String)) × (c ≡ listed projects))

  -- Between two states, at most n calls were made, all of them for the request.
  pub record IsMade (n : ℕ) (t u : Trace) : Type 0 where
    pub calls : List Call
    pub after : u ≡ t ++ calls
    pub own : All IsOwn calls
    pub few : length calls ≤ n

  no_calls : (n : ℕ) (t : Trace) → IsMade n t t
  no_calls n t = record { calls = []; after = sym (append-nil t); own = tt; few = omega arith }

  calls_then : (n m : ℕ) (t u v : Trace) → IsMade n t u → IsMade m u v → IsMade (n + m) t v
  calls_then n m t u v a b = record {
    calls = a.calls ++ b.calls;
    after = b.after ∙ ap (λ (l : Trace). l ++ b.calls) a.after ∙ append_assoc t a.calls b.calls;
    own = All-append IsOwn a.calls b.calls a.own b.own;
    few = omega (arith, length-append a.calls b.calls, a.few, b.few);
  }

  at_most : (n m : ℕ) (t u : Trace) → n ≤ m → IsMade n t u → IsMade m t u
  at_most n m t u h a = record {
    calls = a.calls;
    after = a.after;
    own = a.own;
    few = omega (arith, a.few);
  }

  access_review-IsMade :
      (n : String) (t : Trace) → IsMade 1 t (access_review cluster ssar (access_in q n) t).1
  access_review-IsMade n t = record {
    calls =
        reviewed (review_of ssar (access_in q n))
          (cluster.review t (review_of ssar (access_in q n)))
        ∷ [];
    after = (access_review-trace cluster ssar (access_in q n) t).0;
    own = (inl (n, cluster.review t (review_of ssar (access_in q n)), refl), tt);
    few = omega arith;
  }

  list_namespaces-IsMade : (t : Trace) → IsMade 1 t (list_namespaces cluster t).1
  unfolding list_namespaces
  list_namespaces-IsMade t = record {
    calls = listed (cluster.projects t) ∷ [];
    after = refl;
    own = (inr (cluster.projects t, refl), tt);
    few = omega arith;
  }

  review_namespaces-IsMade :
      (allowed ns : List String) (t : Trace)
      → IsMade (length ns) t (review_namespaces (client cluster ssar) q allowed ns t).1
  unfolding review_namespaces
  review_namespaces-IsMade allowed [] t = no_calls 0 t
  review_namespaces-IsMade allowed (n ∷ ns) t =
      let u = (access_review cluster ssar (access_in q n) t).1 in
      let first = access_review-IsMade n t in
      elim (Result-cases (access_review cluster ssar (access_in q n) t).0) [
        | inr (x, failed) ↦
            rw (failed, review_namespaces) (at_most 1 (suc (length ns)) t u (omega arith) first)
        | inl (b, answered) ↦
            let v =
              (review_namespaces (client cluster ssar) q (if b then snoc allowed n else allowed) ns
                u).1 in
            rw (answered, review_namespaces)
              (at_most (1 + length ns) (suc (length ns)) t v (omega arith) (
                calls_then 1 (length ns) t u v first
                  (review_namespaces-IsMade (if b then snoc allowed n else allowed) ns u)))
      ]

  module _ (labels : Labels) (matcher : Matcher) where
    abbrev projects_or_none : Trace → List String
    projects_or_none t = elim (cluster.projects t) [ ok projects ↦ projects | err e ↦ [] ]

    abbrev names_from : Trace → List String
    names_from u =
        if q.metadata_only && is_nil q.namespaces then projects_or_none u else q.namespaces

    -- The namespaces that are reviewed one by one, if the user has no cluster-wide access: those
    -- of the request, or the projects for a metadata request that names none.
    abbrev pub reviewed_names : Trace → List String
    reviewed_names t = names_from (access_review cluster ssar (access_in q "") t).1

    namespaces-IsMade :
        (ns : List String) (t : Trace)
        → IsMade (length ns) t (authorize_namespaces labels (client cluster ssar) matcher q ns t).1
    unfolding authorize_namespaces
    namespaces-IsMade ns t = review_namespaces-IsMade [] ns t

    cluster_wide-IsMade :
        (ns : List String) (t : Trace)
        → IsMade 1 t (authorize_cluster_wide labels (client cluster ssar) matcher ns t).1
    unfolding authorize_cluster_wide
    cluster_wide-IsMade ns t = elim (Bool-cases (is_empty matcher)) [
      | inl none_needed ↦ rw (none_needed, authorize_cluster_wide) (no_calls 1 t)
      | inr needed ↦ rw (needed, authorize_cluster_wide) (list_namespaces-IsMade t)
    ]

    projects_or_none_of_listed :
        (t : Trace) (projects : List String)
        → (list_namespaces cluster t).0 ≡ ok projects
        → projects_or_none t ≡ projects
    unfolding list_namespaces
    projects_or_none_of_listed t projects e =
        let found = (context-eq-ok _ _ projects).0 e in rw (found, projects_or_none)

    listed-IsMade :
        (t : Trace)
        → IsMade
            (1 + length (projects_or_none t))
            t
            (authorize_listed labels (client cluster ssar) matcher q t).1
    unfolding authorize_listed
    listed-IsMade t =
        let u = (list_namespaces cluster t).1 in
        let bound = 1 + length (projects_or_none t) in
        let first = at_most 1 bound t u (omega arith) (list_namespaces-IsMade t) in
        elim (Result-cases (list_namespaces cluster t).0) [
          | inr (x, failed) ↦ rw (failed, authorize_listed) first
          | inl ([], found) ↦ rw (found, authorize_listed) first
          | inl (n ∷ ns, found) ↦
              let same = projects_or_none_of_listed t (n ∷ ns) found in
              let v = (authorize_namespaces labels (client cluster ssar) matcher q (n ∷ ns) u).1 in
              rw (found, authorize_listed)
                (at_most (1 + length (n ∷ ns)) bound t v (omega (arith, ap length same)) (
                  calls_then 1 (length (n ∷ ns)) t u v (list_namespaces-IsMade t)
                    (namespaces-IsMade (n ∷ ns) u)))
        ]

    reviewed-IsMade :
        (b : Bool) (u : Trace)
        → IsMade
            (1 + length (names_from u))
            u
            (authorize_reviewed labels (client cluster ssar) matcher q b u).1
    unfolding authorize_reviewed
    reviewed-IsMade b u = elim (Bool-cases (q.verb == create_verb)) [
      | inl creates ↦ rw (creates, authorize_reviewed) (no_calls (1 + length (names_from u)) u)
      | inr reads ↦ elim (Bool-cases b) [
        | inl all_allowed ↦
            rw (reads, all_allowed, authorize_reviewed)
              (at_most 1 (1 + length (names_from u)) u _ (omega arith)
                (cluster_wide-IsMade q.namespaces u))
        | inr some_allowed ↦ elim (Bool-cases (q.metadata_only && is_nil q.namespaces)) [
          | inl lists ↦ rw (reads, some_allowed, lists, authorize_reviewed) (listed-IsMade u)
          | inr names ↦
              rw (reads, some_allowed, names, authorize_reviewed)
                (at_most (length q.namespaces) (1 + length q.namespaces) u _ (omega arith)
                  (namespaces-IsMade q.namespaces u))
        ]
      ]
    ]

    -- A decision ends after at most two calls to the API server and one for each namespace that
    -- is reviewed on its own; and each of them is made for the request: a list of the projects, or
    -- a review of the request's own user, groups, verb and resource.
    pub authorize_inner-IsMade :
        (t : Trace)
        → IsMade
            (2 + length (reviewed_names t))
            t
            (authorize_inner labels (client cluster ssar) matcher q t).1
    unfolding authorize_inner
    authorize_inner-IsMade t =
        let u = (access_review cluster ssar (access_in q "") t).1 in
        elim (Result-cases (access_review cluster ssar (access_in q "") t).0) [
          | inr (x, failed) ↦
              rw (failed, authorize_inner)
                (at_most 1 (2 + length (reviewed_names t)) t u (omega arith)
                  (access_review-IsMade "" t))
          | inl (b, answered) ↦
              let v = (authorize_reviewed labels (client cluster ssar) matcher q b u).1 in
              rw (answered, authorize_inner)
                (at_most (1 + (1 + length (reviewed_names t))) (2 + length (reviewed_names t)) t v
                  (omega arith)
                  (calls_then 1 (1 + length (reviewed_names t)) t u v (access_review-IsMade "" t)
                    (reviewed-IsMade b u)))
        ]
