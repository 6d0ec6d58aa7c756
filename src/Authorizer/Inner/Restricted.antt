-- ===== src/Authorizer/Inner/Restricted.antt =====
-- With a label matcher, internal/authorizer/authorizer.go never answers a read with a bare "true".
use opa_openshift.Base.{
  String, true, false, List, [], ◌≡◌, ◌≢◌, arith, is_nil, Result, ok, err, Result-cases, eq_iff,
  filter, inl, inr,
}
use opa_openshift.Base.Assoc.{has}
use opa_openshift.Base.Text.{join}
use opa_openshift.Response.{bare}
use opa_openshift.Openshift.{Client}
use opa_openshift.Config.Matcher.{Matcher}
use opa_openshift.Authorizer.{Query, access_in, create_verb}
use opa_openshift.Authorizer.Data.{
  Labels, AuthzResponseData, new_matchers, minimal_data_response, new_data_response,
}
use opa_openshift.Authorizer.Inner.{
  names_set, respond, authorize_namespaces, authorize_listed, authorize_cluster_wide,
  authorize_reviewed, authorize_inner, review_namespaces,
}

module _ (labels : Labels) (matcher : Matcher) (keys : is_nil matcher.keys ≡ false) where
  data_restricted : (ns : List String) → new_data_response labels ns matcher ≢ ok (bare true)
  unfolding new_data_response
  data_restricted ns h = elim (Result-cases (new_matchers labels (join "|" ns) matcher.keys)) [
    | inr (x, failed) ↦ ground arith
    | inl (ms, made) ↦
        let content : AuthzResponseData labels.LabelMatcher = record {
          matchers = ms;
          matcher_op = matcher.matcher_op;
        } in
        elim (Result-cases (labels.marshal content)) [
          | inr (x, failed) ↦ ground arith
          | inl (json, written) ↦ ground arith
        ]
  ]

  respond_restricted : (res : Result (List String)) → respond labels matcher res ≢ ok (bare true)
  unfolding respond minimal_data_response
  respond_restricted (err x) h = cc
  respond_restricted (ok ns) h = ground (arith, data_restricted ns)

  module _ {W : Type 0} (client : Client W) (q : Query) where
    namespaces_restricted :
        (ns : List String) (w : W)
        → (authorize_namespaces labels client matcher q ns w).0 ≢ ok (bare true)
    unfolding authorize_namespaces
    namespaces_restricted ns w = respond_restricted (review_namespaces client q [] ns w).0

    listed_restricted : (w : W) → (authorize_listed labels client matcher q w).0 ≢ ok (bare true)
    unfolding authorize_listed minimal_data_response
    listed_restricted w h = elim (Result-cases (client.list_namespaces w).0) [
      | inr (x, failed) ↦ ground arith
      | inl (ns, found) ↦ ground (arith, namespaces_restricted ns (client.list_namespaces w).1)
    ]

    cluster_wide_restricted :
        (w : W) → (authorize_cluster_wide labels client matcher q.namespaces w).0 ≢ ok (bare true)
    unfolding authorize_cluster_wide
    cluster_wide_restricted w h = elim (Result-cases (client.list_namespaces w).0) [
      | inr (x, failed) ↦ ground arith
      | inl (ns, found) ↦ ground (
        arith,
        data_restricted ns,
        data_restricted (filter (λ n. has n (names_set ns [])) q.namespaces),
      )
    ]

    -- With a matcher that has keys, a read is never answered by a bare "true", which would let the
    -- user read everything: not even after a positive cluster-wide review.
    pub read_restricted :
        (w : W)
        → q.verb ≢ create_verb
        → (authorize_inner labels client matcher q w).0 ≢ ok (bare true)
    unfolding authorize_inner authorize_reviewed
    read_restricted w reads h =
        let w' = (client.access_review (access_in q "") w).1 in
        elim (Result-cases (client.access_review (access_in q "") w).0) [
          | inr (x, failed) ↦ ground arith
          | inl (b, answered) ↦ ground (
            arith,
            eq_iff q.verb create_verb,
            cluster_wide_restricted w',
            listed_restricted w',
            namespaces_restricted q.namespaces w',
          )
        ]
