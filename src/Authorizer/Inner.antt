-- ===== src/Authorizer/Inner.antt =====
-- `authorizeInner` and `authorizeClusterWide` of internal/authorizer/authorizer.go, over the
-- client's interface. The state `W` of the outside world is passed on explicitly. Log lines are
-- left out.
pub mod Audit
pub mod Exact
pub mod Restricted
pub mod Meaning
pub mod Calls
use opa_openshift.Base.{
  ℕ, String, Bool, true, false, List, [], ◌∷◌, ◌&&◌, Error, status_code_error, error_text, Result,
  ok, err, wrap, if◌then◌else◌, is_nil, snoc, filter, ◌==◌,
}
use opa_openshift.Base.Assoc.{Assoc, has, put}
use opa_openshift.Response.{DataResponse}
use opa_openshift.Openshift.{Access, Client}
use opa_openshift.Config.Matcher.{Matcher, StringSet, is_empty}
use opa_openshift.Authorizer.{Query, access_in, create_verb}
use opa_openshift.Authorizer.Data.{Labels, minimal_data_response, new_data_response}

abbrev pub status_unauthorized : ℕ
status_unauthorized = 401

abbrev pub status_internal_server_error : ℕ
status_internal_server_error = 500

-- `&StatusCodeError{fmt.Errorf("text: %w", err), sc}`
abbrev pub with_status : String → ℕ → Error → Error
with_status text sc e = status_code_error (error_text (wrap text e)) sc

-- `nsMap`: the set of the names of a list
unfoldable pub names_set : List String → StringSet → StringSet
names_set [] ns_map = ns_map
names_set (ns ∷ list) ns_map = names_set list (put ns tt ns_map)

module _ {W : Type 0} (client : Client W) (q : Query) where
  -- the loop over the namespaces, with the list `allowed` so far
  unfoldable pub review_namespaces : List String → List String → W → Result (List String) × W
  review_namespaces allowed [] w = (ok allowed, w)
  review_namespaces allowed (ns ∷ rest) w =
      let (answer, w') = client.access_review (access_in q ns) w in
      elim answer [
        | err e ↦ (err (with_status "namespaced SAR failed" status_unauthorized e), w')
        | ok ns_allowed ↦
            review_namespaces (if ns_allowed then snoc allowed ns else allowed) rest w'
      ]

module _ (labels : Labels) (matcher : Matcher) where
  -- what follows the loop
  unfoldable pub respond : Result (List String) → Result DataResponse
  respond (err e) = err e
  respond (ok allowed) =
      if is_nil allowed
      then ok (minimal_data_response false)
      else elim (new_data_response labels allowed matcher) [
        | err e ↦ err (with_status "failed to create auth response" status_internal_server_error e)
        | ok res ↦ ok res
      ]

module _ (labels : Labels) {W : Type 0} (client : Client W) (matcher : Matcher) where
  unfoldable pub authorize_cluster_wide : List String → W → Result DataResponse × W
  authorize_cluster_wide namespaces w =
      if is_empty matcher
      then (ok (minimal_data_response true), w)
      else let (listed, w') = client.list_namespaces w in
        (
          elim listed [
            | err e ↦ err (with_status "failed to access api server" status_unauthorized e)
            | ok ns_list ↦
                if is_nil namespaces
                then new_data_response labels ns_list matcher
                else let ns_map = names_set ns_list [] in
                  new_data_response labels (filter (λ ns. has ns ns_map) namespaces) matcher
          ],
          w',
        )

  module _ (q : Query) where
    unfoldable pub authorize_namespaces : List String → W → Result DataResponse × W
    authorize_namespaces namespaces w =
        let (allowed, w') = review_namespaces client q [] namespaces w in
        (respond labels matcher allowed, w')

    -- a metadata request that names no namespace
    unfoldable pub authorize_listed : W → Result DataResponse × W
    authorize_listed w =
        let (listed, w') = client.list_namespaces w in
        elim listed [
          | err e ↦ (err (with_status "failed to access api server" status_unauthorized e), w')
          | ok ns_list ↦
              if is_nil ns_list
              then (ok (minimal_data_response false), w')
              else authorize_namespaces ns_list w'
        ]

    -- what follows the cluster-wide review
    unfoldable pub authorize_reviewed : Bool → W → Result DataResponse × W
    authorize_reviewed cluster_allow w =
        if q.verb == create_verb
        then (ok (minimal_data_response cluster_allow), w)
        else if cluster_allow
        then authorize_cluster_wide q.namespaces w
        else if q.metadata_only && is_nil q.namespaces
        then authorize_listed w
        else authorize_namespaces q.namespaces w

    unfoldable pub authorize_inner : W → Result DataResponse × W
    authorize_inner w =
        let (answer, w') = client.access_review (access_in q "") w in
        elim answer [
          | err e ↦ (err (with_status "cluster-wide SAR failed" status_unauthorized e), w')
          | ok cluster_allow ↦ authorize_reviewed cluster_allow w'
        ]
