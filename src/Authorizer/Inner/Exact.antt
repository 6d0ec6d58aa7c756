-- ===== src/Authorizer/Inner/Exact.antt =====
-- What `authorizeInner` of internal/authorizer/authorizer.go decides while the cluster's answers
-- do not change: a reference definition without state, and the proof that the code computes it.
use opa_openshift.Base.{
  String, Bool, true, false, List, [], ◌∷◌, ◌++◌, append_assoc, append-nil, ◌≡◌, ◌∙◌, refl, ap,
  arith, ◌&&◌, ◌||◌, Result, ok, if◌then◌else◌, is_nil, snoc, filter, ◌==◌, Bool-cases, inl, inr,
}
use opa_openshift.Base.Assoc.{has, put, has-put, has-nil}
use opa_openshift.Response.{DataResponse, bare}
use opa_openshift.Openshift.{Access, Client}
use opa_openshift.Config.Matcher.{Matcher, StringSet, is_empty}
use opa_openshift.Authorizer.{Query, access_in, create_verb}
use opa_openshift.Authorizer.Data.{Labels, minimal_data_response, new_data_response}
use opa_openshift.Authorizer.Inner.{
  names_set, authorize_cluster_wide, review_namespaces, respond, authorize_namespaces,
  authorize_listed, authorize_reviewed, authorize_inner,
}

unfoldable pub member : String → List String → Bool
member n [] = false
member n (x ∷ xs) = x == n || member n xs

has-names_set :
    (n : String) (ns : List String) (m : StringSet)
    → has n (names_set ns m) ≡ member n ns || has n m
unfolding names_set member
has-names_set n [] m = refl
has-names_set n (x ∷ ns) m = ground (arith, has-names_set n ns (put x tt m), has-put x n tt m)

has-names_set_nil : (n : String) (ns : List String) → has n (names_set ns []) ≡ member n ns
has-names_set_nil n ns = ground (arith, has-names_set n ns [], has-nil {0} Unit n)

filter-ext :
    (p r : String → Bool) (xs : List String)
    → ((x : String) → p x ≡ r x)
    → filter p xs ≡ filter r xs
unfolding filter
filter-ext p r [] h = refl
filter-ext p r (x ∷ xs) h = ground (arith, h x, filter-ext p r xs h)

module _ (labels : Labels) (matcher : Matcher) (sar : Access → Bool) (projects : List String)
    (q : Query) where
  -- whether the namespace, or for "" every namespace, may be accessed
  abbrev pub is_allowed : String → Bool
  is_allowed n = sar (access_in q n)

  -- The namespaces that a query is about, if the user has no cluster-wide access.
  abbrev pub asked : List String
  asked = if q.metadata_only && is_nil q.namespaces then projects else q.namespaces

  -- The namespaces that a query is about, if the user has cluster-wide access.
  abbrev pub visible : List String
  visible = if is_nil q.namespaces then projects else filter (λ n. member n projects) q.namespaces

  -- The decision, as a function of who may access what and which projects there are.
  unfoldable pub decide : Result DataResponse
  decide =
      if q.verb == create_verb
      then ok (bare (is_allowed ""))
      else if is_allowed ""
      then if is_empty matcher then ok (bare true) else new_data_response labels visible matcher
      else respond labels matcher (ok (filter is_allowed asked))

module _ (labels : Labels) {W : Type 0} (client : Client W) (matcher : Matcher)
    (sar : Access → Bool) (projects : List String)
    (steady_review : (a : Access) (w : W) → (client.access_review a w).0 ≡ ok (sar a))
    (steady_list : (w : W) → (client.list_namespaces w).0 ≡ ok projects) (q : Query) where
  review_namespaces-filter :
      (ns allowed : List String) (w : W)
      → (review_namespaces client q allowed ns w).0
        ≡ ok (allowed ++ filter (λ n. sar (access_in q n)) ns)
  unfolding filter review_namespaces
  review_namespaces-filter [] allowed w = rw append-nil
  review_namespaces-filter (n ∷ ns) allowed w =
      let a = access_in q n in
      let w' = (client.access_review a w).1 in
      rw (steady_review a w, review_namespaces)
        (elim (Bool-cases (sar a)) [
          | inl e ↦ rw e (
              review_namespaces-filter ns (snoc allowed n) w'
              ∙ ap ok (append_assoc allowed (n ∷ []) _))
          | inr e ↦ rw e (review_namespaces-filter ns allowed w')
        ])

  namespaces-decide :
      (ns : List String) (w : W)
      → (authorize_namespaces labels client matcher q ns w).0
        ≡ respond labels matcher (ok (filter (λ n. sar (access_in q n)) ns))
  unfolding authorize_namespaces
  namespaces-decide ns w = ap (respond labels matcher) (review_namespaces-filter ns [] w)

  listed_or_denied :
      (ps : List String) (w : W)
      → (if is_nil ps
          then (ok (minimal_data_response false), w)
          else authorize_namespaces labels client matcher q ps w).0
        ≡ respond labels matcher (ok (filter (λ n. sar (access_in q n)) ps))
  unfolding respond filter
  listed_or_denied [] w = refl
  listed_or_denied (p ∷ ps) w = namespaces-decide (p ∷ ps) w

  listed-decide :
      (w : W)
      → (authorize_listed labels client matcher q w).0
        ≡ respond labels matcher (ok (filter (λ n. sar (access_in q n)) projects))
  unfolding authorize_listed
  listed-decide w =
      rw (steady_list w, authorize_listed) (listed_or_denied projects (client.list_namespaces w).1)

  visible_response :
      (ns : List String)
      → (if is_nil ns
          then new_data_response labels projects matcher
          else let ns_map = names_set projects [] in
            new_data_response labels (filter (λ n. has n ns_map) ns) matcher)
        ≡ new_data_response labels
            (if is_nil ns then projects else filter (λ n. member n projects) ns)
            matcher
  visible_response [] = refl
  visible_response (n ∷ ns) =
      ap (λ xs. new_data_response labels xs matcher)
        (filter-ext _ _ (n ∷ ns) (λ x. has-names_set_nil x projects))

  cluster_wide-decide :
      (w : W)
      → (authorize_cluster_wide labels client matcher q.namespaces w).0 ≡ (
          if is_empty matcher
          then ok (bare true)
          else new_data_response labels (visible labels matcher sar projects q) matcher)
  unfolding minimal_data_response authorize_cluster_wide
  cluster_wide-decide w = elim (Bool-cases (is_empty matcher)) [
    | inl e ↦ rw (e, authorize_cluster_wide)
    | inr e ↦
        rw (e, authorize_cluster_wide)
          (rw (steady_list w, authorize_cluster_wide) (visible_response q.namespaces))
  ]

  -- While the cluster's answers do not change, the code computes the reference decision: with
  -- cluster-wide access everything, or all projects (those asked about, if any are) where a
  -- matcher is needed; without it exactly the allowed namespaces among those asked about, or
  -- among all projects for a metadata request that names none; and for a write the cluster-wide
  -- answer alone.
  pub authorize_inner-decide :
      (w : W) → (authorize_inner labels client matcher q w).0 ≡ decide labels matcher sar projects q
  unfolding authorize_inner authorize_reviewed decide minimal_data_response
  authorize_inner-decide w =
      let a = access_in q "" in
      let w' = (client.access_review a w).1 in
      rw (steady_review a w, authorize_inner)
        (ground
          (arith, cluster_wide-decide w', listed-decide w', namespaces-decide q.namespaces w'))
