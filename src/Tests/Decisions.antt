-- ===== src/Tests/Decisions.antt =====
-- Decisions of the authorizer, without and with its cache.
use opa_openshift.Base.{
  String, Bool, true, false, some, [], ◌∷◌, snoc, ◌≡◌, ◌≢◌, ◌⊎◌, ◌↔◌, refl, ok, err, arith, eq_iff,
  status_code_error,
}
use mathlib.Core.List.Perm
use opa_openshift.Base.Text.{join}
use opa_openshift.Base.Sort.{sort, insert, str_leb}
use opa_openshift.Base.Assoc.{Assoc, lookup, has, put, lookup-put}
use opa_openshift.Response.{DataResponse, bare, matched}
use opa_openshift.Cache.{Cacher}
use opa_openshift.Openshift.{Access}
use opa_openshift.Openshift.Reviews.{
  Trace, reviewed, client, access_review, access_review-trace, list_namespaces,
  subject_access_review, of_self, review_of, attributes,
}
use opa_openshift.Authorizer.{Query, access_in, get_verb, create_verb}
use opa_openshift.Authorizer.Key.{concat, hash_userinfo, hash_matcher, generate_cache_key}
use opa_openshift.Authorizer.Data.{new_data_response, new_matchers}
use opa_openshift.Authorizer.Inner.{
  review_namespaces, respond, authorize_inner, authorize_reviewed, authorize_namespaces,
}
use opa_openshift.Authorizer.Inner.Exact.{decide, authorize_inner-decide}
use opa_openshift.Authorizer.Inner.Restricted.{read_restricted}
use opa_openshift.Authorizer.Cached.{Authorizer, authorize, authorize_known, authorize_missed}
use opa_openshift.Authorizer.Cached.Errors.{IsServerSide, status_of, looked_up, authorize_error}
use opa_openshift.Authorizer.Cached.Provenance.{key_of}
use opa_openshift.Authorizer.Cached.Repeat.{authorize_again}
use opa_openshift.Tests.Samples.{labels, hex, may, cluster, unreachable, ns_matcher, read_of, cache}

-- The user's groups are as the cache key leaves them, sorted.
abbrev team_query : Query
team_query = read_of "jo" ("staff" ∷ "team" ∷ []) ("team-a" ∷ "team-b" ∷ [])

abbrev team_a : DataResponse
team_a = matched "true" "kubernetes_namespace_name=~team-a;or"

-- who may what, with the users' own names sent
abbrev allowed : Access → Bool
allowed a = may (review_of false a)

steady_review :
    (a : Access) (w : Trace) → ((client cluster false).access_review a w).0 ≡ ok (allowed a)
unfolding access_review subject_access_review
steady_review a w = refl

steady_list :
    (w : Trace) → ((client cluster false).list_namespaces w).0 ≡ ok ("team-a" ∷ "team-b" ∷ [])
unfolding list_namespaces
steady_list w = refl

authorize_inner-decide_example :
    (authorize_inner labels (client cluster false) ns_matcher team_query []).0
    ≡ decide labels ns_matcher allowed ("team-a" ∷ "team-b" ∷ []) team_query
authorize_inner-decide_example =
    authorize_inner-decide labels (client cluster false) ns_matcher allowed
      ("team-a" ∷ "team-b" ∷ []) steady_review steady_list team_query []

no_create : team_query.verb ≢ create_verb
no_create e = cc

-- even root, who may read everything, gets a matcher
read_restricted_example :
    (authorize_inner labels (client cluster false) ns_matcher (read_of "root" [] []) []).0
    ≢ ok (bare true)
read_restricted_example =
    read_restricted labels ns_matcher refl (client cluster false) (read_of "root" [] []) []
      no_create

abbrev service : Authorizer Trace (Assoc String)
service = record {
  sha256_hex = hex;
  labels = labels;
  client = client cluster false;
  cache = cache;
  matcher = ns_matcher;
}

authorized_team : (authorize service team_query [] []).0 ≡ ok team_a
unfolding authorize authorize_known authorize_missed authorize_inner authorize_reviewed
    access_review subject_access_review authorize_namespaces review_namespaces respond
    new_data_response new_matchers join opa_openshift.Cache.Inmemory.get
    opa_openshift.Cache.Inmemory.set opa_openshift.Cache.from_json opa_openshift.Cache.to_json
    generate_cache_key hash_userinfo hash_matcher concat sort insert str_leb lookup put has
authorized_team = refl

abbrev offline : Authorizer Trace (Assoc String)
offline = record service { client = client unreachable false }

authorized_offline :
    (authorize offline team_query [] []).0
    ≡ err (
        status_code_error
          "cluster-wide SAR failed: failed to create subject access review: no route" 401)
unfolding authorize authorize_known authorize_missed authorize_inner access_review
    subject_access_review opa_openshift.Cache.Inmemory.get opa_openshift.Cache.from_json
    generate_cache_key hash_userinfo hash_matcher concat sort insert str_leb lookup put has
authorized_offline = refl

authorize_error_example :
    ((team_query.verb ≢ create_verb)
      × (team_query.verb ≢ get_verb)
      × (status_of (
            status_code_error
              "cluster-wide SAR failed: failed to create subject access review: no route" 401)
          ≡ some 400)
      × ((authorize offline team_query [] []).1 ≡ [])
      × ((authorize offline team_query [] []).2 ≡ []))
    ⊎ (((team_query.verb ≡ create_verb) ⊎ (team_query.verb ≡ get_verb))
        × IsServerSide (
            status_code_error
              "cluster-wide SAR failed: failed to create subject access review: no route" 401)
        × ((authorize offline team_query [] []).2 ≡ looked_up offline team_query []))
authorize_error_example = authorize_error offline team_query [] [] _ authorized_offline

-- A cache that keeps the responses as they are.
abbrev kept : Cacher (Assoc DataResponse)
kept = record { get = λ s k. (ok (lookup k s), s); set = λ s k r. (ok tt, put k r s) }

abbrev keeping : Authorizer Trace (Assoc DataResponse)
keeping = record {
  sha256_hex = hex;
  labels = labels;
  client = client cluster false;
  cache = kept;
  matcher = ns_matcher;
}

kept_set :
    (s : Assoc DataResponse) (k : String) (r : DataResponse)
    → (keeping.cache.get (keeping.cache.set s k r).1 k).0 ≡ ok (some r)
kept_set s k r = ground (arith, lookup-put k k r s, eq_iff k k)

kept_get :
    (s : Assoc DataResponse) (k : String) (r : DataResponse)
    → (keeping.cache.get s k).0 ≡ ok (some r)
    → (keeping.cache.get (keeping.cache.get s k).1 k).0 ≡ ok (some r)
kept_get s k r e = e

kept_team : (authorize keeping team_query [] []).0 ≡ ok team_a
unfolding authorize authorize_known authorize_missed authorize_inner authorize_reviewed
    access_review subject_access_review authorize_namespaces review_namespaces respond
    new_data_response new_matchers join generate_cache_key hash_userinfo hash_matcher concat sort
    insert str_leb lookup put has
kept_team = refl

-- the groups the other way round, and a world in which a call has been made since
authorize_again_example :
    authorize keeping
      (record team_query { groups = "team" ∷ "staff" ∷ [] })
      (reviewed (of_self (attributes (access_in team_query ""))) (ok true) ∷ [])
      (authorize keeping team_query [] []).2
    ≡ (
      ok team_a,
      reviewed (of_self (attributes (access_in team_query ""))) (ok true) ∷ [],
      (keeping.cache.get
          (authorize keeping team_query [] []).2
          (key_of hex team_query ns_matcher)).1,
    )
authorize_again_example =
    authorize_again keeping kept_set kept_get team_query ("team" ∷ "staff" ∷ []) []
      (reviewed (of_self (attributes (access_in team_query ""))) (ok true) ∷ []) [] team_a
      (Perm.swap "team" "staff" []) kept_team

access_review-trace_example :
    ((access_review cluster false (access_in team_query "team-a") []).1
      ≡ snoc [] (
          reviewed
            (review_of false (access_in team_query "team-a"))
            (cluster.review [] (review_of false (access_in team_query "team-a")))))
    × ((b : Bool)
        → ((access_review cluster false (access_in team_query "team-a") []).0 ≡ ok b)
          ↔ (cluster.review [] (review_of false (access_in team_query "team-a")) ≡ ok b))
access_review-trace_example = access_review-trace cluster false (access_in team_query "team-a") []
