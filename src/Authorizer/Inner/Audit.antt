-- ===== src/Authorizer/Inner/Audit.antt =====
-- What `authorizeInner` of internal/authorizer/authorizer.go grants has been answered with yes by
-- the cluster.
use opa_openshift.Base.{
  All-map, All-of-In, String, Bool, true, false, List, [], ◌∷◌, ◌≡◌, ◌⊎◌, inl, inr, refl, arith,
  ◌&&◌, Result, ok, err, if◌then◌else◌, is_nil, snoc, filter, ◌==◌, eq_iff, All, In, Result-cases,
  Bool-cases, All-append, subst, ok_inj, err-ne-ok, sym, ap, ◌∙◌,
}
use opa_openshift.Base.Assoc.{has, put, has-put, has-nil}
use opa_openshift.Response.{DataResponse, bare}
use opa_openshift.Openshift.{Access, Client, ClientLaws}
use opa_openshift.Config.Matcher.{Matcher, is_empty, StringSet}
use opa_openshift.Authorizer.{Query, access_in, create_verb}
use opa_openshift.Authorizer.Data.{Labels, minimal_data_response, new_data_response}
use opa_openshift.Authorizer.Inner.{
  names_set, authorize_cluster_wide, review_namespaces, respond, authorize_namespaces,
  authorize_listed, authorize_reviewed, authorize_inner,
}

names_set_sound :
    (n : String) (ns : List String) (m : StringSet)
    → has n (names_set ns m) ≡ true
    → In n ns ⊎ (has n m ≡ true)
unfolding names_set
names_set_sound n [] m h = inr h
names_set_sound n (x ∷ ns) m h =
    ground (arith, names_set_sound n ns (put x tt m) h, has-put x n tt m, eq_iff x n)

All-filter :
    (P : String → Type 0) (p : String → Bool) (xs : List String)
    → ((x : String) → p x ≡ true → P x)
    → All P (filter p xs)
unfolding filter
All-filter P p [] h = tt
All-filter P p (x ∷ xs) h = elim (Bool-cases (p x)) [
  | inl e ↦ rw (e, filter) (h x e, All-filter P p xs h)
  | inr e ↦ rw (e, filter) (All-filter P p xs h)
]

module _ (labels : Labels) {W : Type 0} (client : Client W) (laws : ClientLaws client)
    (matcher : Matcher) (q : Query) where
  open laws use {Granted, Listed}

  -- The request names the namespace, or it was listed.
  abbrev pub IsAsked : W → String → Type 0
  IsAsked w n = In n q.namespaces ⊎ Listed w n

  -- The access to the namespace was asked for and answered with yes, or the access to all of them
  -- was answered with yes, and the namespace was listed.
  abbrev pub IsPermitted : W → String → Type 0
  IsPermitted w n =
      (Granted w (access_in q n) × IsAsked w n) ⊎ (Granted w (access_in q "") × Listed w n)

  -- What a response grants, read off the way it was built: everything only after a positive
  -- cluster-wide answer or, without a matcher, a positive answer for some namespace; otherwise
  -- the namespaces of a list, each of them permitted.
  pub data IsJustified (w : W) (r : DataResponse) : Type 0 where
    denied : r ≡ bare false → IsJustified w r
    cluster_wide : r ≡ bare true → Granted w (access_in q "") → IsJustified w r
    named :
        (ns : List String)
        → new_data_response labels ns matcher ≡ ok r
        → All (IsPermitted w) ns
        → IsJustified w r

  IsAsked-review :
      (a : Access) (w : W) (n : String) → IsAsked w n → IsAsked (client.access_review a w).1 n
  IsAsked-review a w n (inl i) = inl i
  IsAsked-review a w n (inr l) = inr (laws.review_keeps_listed a n w l)

  IsPermitted-review :
      (a : Access) (w : W) (n : String)
      → IsPermitted w n
      → IsPermitted (client.access_review a w).1 n
  IsPermitted-review a w n (inl (g, asked)) =
      inl (laws.review_keeps a _ w g, IsAsked-review a w n asked)
  IsPermitted-review a w n (inr (g, l)) =
      inr (laws.review_keeps a _ w g, laws.review_keeps_listed a n w l)

  review_namespaces-IsPermitted :
      (ns allowed out : List String) (w : W)
      → All (IsAsked w) ns
      → All (IsPermitted w) allowed
      → (review_namespaces client q allowed ns w).0 ≡ ok out
      → All (IsPermitted (review_namespaces client q allowed ns w).1) out
  unfolding review_namespaces
  review_namespaces-IsPermitted [] allowed out w asked h e =
      subst (All (IsPermitted w)) (ok_inj e) h
  review_namespaces-IsPermitted (n ∷ ns) allowed out w asked h e =
      let a = access_in q n in
      let w' = (client.access_review a w).1 in
      let kept = All-map (IsPermitted-review a w) allowed h in
      let rest = All-map (IsAsked-review a w) ns asked.1 in
      elim (Result-cases (client.access_review a w).0) [
        | inr (x, failed) ↦ absurd (err-ne-ok (rw (failed, review_namespaces) at e))
        | inl (true, answered) ↦
            rw (answered, review_namespaces)
              (review_namespaces-IsPermitted ns (snoc allowed n) out w' rest
                (All-append (IsPermitted w') allowed (n ∷ []) kept
                  (inl (laws.review_grants a w answered, IsAsked-review a w n asked.0), tt))
                (rw (answered, review_namespaces) at e))
        | inl (false, answered) ↦
            rw (answered, review_namespaces)
              (review_namespaces-IsPermitted ns allowed out w' rest kept
                (rw (answered, review_namespaces) at e))
      ]

  respond-IsJustified :
      (w : W) (res : Result (List String)) (r : DataResponse)
      → ((out : List String) → res ≡ ok out → All (IsPermitted w) out)
      → respond labels matcher res ≡ ok r
      → IsJustified w r
  unfolding respond minimal_data_response
  respond-IsJustified w (err x) r h e = absurd (err-ne-ok e)
  respond-IsJustified w (ok []) r h e = denied (ground arith)
  respond-IsJustified w (ok (n ∷ ns)) r h e = named (n ∷ ns) (ground arith) (h (n ∷ ns) refl)

  namespaces-IsJustified :
      (ns : List String) (w : W) (r : DataResponse)
      → All (IsAsked w) ns
      → (authorize_namespaces labels client matcher q ns w).0 ≡ ok r
      → IsJustified (authorize_namespaces labels client matcher q ns w).1 r
  unfolding authorize_namespaces
  namespaces-IsJustified ns w r asked e =
      respond-IsJustified (review_namespaces client q [] ns w).1
        (review_namespaces client q [] ns w).0 r
        (λ out. review_namespaces-IsPermitted ns [] out w asked tt) e

  listed-IsJustified :
      (w : W) (r : DataResponse)
      → (authorize_listed labels client matcher q w).0 ≡ ok r
      → IsJustified (authorize_listed labels client matcher q w).1 r
  unfolding authorize_listed minimal_data_response
  listed-IsJustified w r e = elim (Result-cases (client.list_namespaces w).0) [
    | inr (x, failed) ↦ absurd (err-ne-ok (rw (failed, authorize_listed) at e))
    | inl ([], found) ↦
        rw (found, authorize_listed) (denied (sym (ok_inj (rw (found, authorize_listed) at e))))
    | inl (n ∷ ns, found) ↦
        rw (found, authorize_listed)
          (namespaces-IsJustified (n ∷ ns) (client.list_namespaces w).1 r
            (All-of-In (IsAsked (client.list_namespaces w).1) (n ∷ ns)
              (λ x i. inr (laws.list_lists w (n ∷ ns) x found i)))
            (rw (found, authorize_listed) at e))
  ]

  cluster_wide-IsPermitted :
      (w : W) (ns : List String)
      → Granted w (access_in q "")
      → (client.list_namespaces w).0 ≡ ok ns
      → (n : String) → In n ns
      → IsPermitted (client.list_namespaces w).1 n
  cluster_wide-IsPermitted w ns g found n i =
      inr (laws.list_keeps _ w g, laws.list_lists w ns n found i)

  has-names_set : (n : String) (ns : List String) → has n (names_set ns []) ≡ true → In n ns
  has-names_set n ns h = ground (arith, names_set_sound n ns [] h, has-nil {0} Unit n)

  listed_names :
      (w : W) (ns_list namespaces : List String) (r : DataResponse)
      → ((n : String) → In n ns_list → IsPermitted w n)
      → (if is_nil namespaces
          then new_data_response labels ns_list matcher
          else let ns_map = names_set ns_list [] in
            new_data_response labels (filter (λ ns. has ns ns_map) namespaces) matcher)
        ≡ ok r
      → IsJustified w r
  listed_names w ns_list [] r h e = named ns_list e (All-of-In (IsPermitted w) ns_list h)
  listed_names w ns_list (n ∷ ns) r h e =
      named _ e (All-filter (IsPermitted w) _ (n ∷ ns) (λ x t. h x (has-names_set x ns_list t)))

  cluster_wide-IsJustified :
      (namespaces : List String) (w : W) (r : DataResponse)
      → Granted w (access_in q "")
      → (authorize_cluster_wide labels client matcher namespaces w).0 ≡ ok r
      → IsJustified (authorize_cluster_wide labels client matcher namespaces w).1 r
  unfolding authorize_cluster_wide minimal_data_response
  cluster_wide-IsJustified namespaces w r g e = elim (Bool-cases (is_empty matcher)) [
    | inl none_needed ↦
        rw (none_needed, authorize_cluster_wide)
          (cluster_wide (sym (ok_inj (rw (none_needed, authorize_cluster_wide) at e))) g)
    | inr needed ↦ elim (Result-cases (client.list_namespaces w).0) [
      | inr (x, failed) ↦ absurd (err-ne-ok (rw (needed, failed, authorize_cluster_wide) at e))
      | inl (ns_list, found) ↦
          rw (needed, authorize_cluster_wide)
            (listed_names (client.list_namespaces w).1 ns_list namespaces r
              (cluster_wide-IsPermitted w ns_list g found)
              (rw (needed, found, authorize_cluster_wide) at e))
    ]
  ]

  bare-IsJustified :
      (b : Bool) (w : W) (r : DataResponse)
      → (b ≡ true → Granted w (access_in q ""))
      → bare b ≡ r
      → IsJustified w r
  bare-IsJustified true w r g e = cluster_wide (sym e) (g refl)
  bare-IsJustified false w r g e = denied (sym e)

  reviewed-IsJustified :
      (cluster_allow : Bool) (w : W) (r : DataResponse)
      → (cluster_allow ≡ true → Granted w (access_in q ""))
      → (authorize_reviewed labels client matcher q cluster_allow w).0 ≡ ok r
      → IsJustified (authorize_reviewed labels client matcher q cluster_allow w).1 r
  unfolding authorize_reviewed minimal_data_response
  reviewed-IsJustified b w r g e = elim (Bool-cases (q.verb == create_verb)) [
    | inl creates ↦
        rw (creates, authorize_reviewed)
          (bare-IsJustified b w r g (ok_inj (rw (creates, authorize_reviewed) at e)))
    | inr reads ↦ elim (Bool-cases b) [
      | inl all_allowed ↦
          rw (reads, all_allowed, authorize_reviewed)
            (cluster_wide-IsJustified q.namespaces w r (g all_allowed)
              (rw (reads, all_allowed, authorize_reviewed) at e))
      | inr some_allowed ↦ elim (Bool-cases (q.metadata_only && is_nil q.namespaces)) [
        | inl lists ↦
            rw (reads, some_allowed, lists, authorize_reviewed)
              (listed-IsJustified w r (rw (reads, some_allowed, lists, authorize_reviewed) at e))
        | inr names ↦
            rw (reads, some_allowed, names, authorize_reviewed)
              (namespaces-IsJustified q.namespaces w r
                (All-of-In (IsAsked w) q.namespaces (λ x i. inl i))
                (rw (reads, some_allowed, names, authorize_reviewed) at e))
      ]
    ]
  ]

  pub authorize_inner-IsJustified :
      (w : W) (r : DataResponse)
      → (authorize_inner labels client matcher q w).0 ≡ ok r
      → IsJustified (authorize_inner labels client matcher q w).1 r
  unfolding authorize_inner
  authorize_inner-IsJustified w r e =
      let a = access_in q "" in
      elim (Result-cases (client.access_review a w).0) [
        | inr (x, failed) ↦ absurd (err-ne-ok (rw (failed, authorize_inner) at e))
        | inl (b, answered) ↦
            rw (answered, authorize_inner)
              (reviewed-IsJustified b (client.access_review a w).1 r
                (λ yes_answer. laws.review_grants a w (answered ∙ ap ok yes_answer))
                (rw (answered, authorize_inner) at e))
      ]
