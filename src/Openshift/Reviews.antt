-- ===== src/Openshift/Reviews.antt =====
-- `AccessReview`, `subjectAccessReview`, `selfSubjectAccessReview` and `ListNamespaces` of
-- internal/openshift/client.go, over what the API server answers.
use opa_openshift.Base.{
  String, Bool, true, false, List, snoc, Result, ok, context, context-eq-ok, ◌≡◌, ◌↔◌, inl, refl,
  In, In-append_left, In-append_right, if◌then◌else◌,
}
use opa_openshift.Openshift.{Access, Client, ClientLaws}

-- `authorizationv1.ResourceAttributes`, the fields that are set
pub record ResourceAttributes : Type 0 where
  pub namespace : String
  pub verb : String
  pub group : String
  pub resource : String
  pub name : String

-- What is sent to the API server: a `SubjectAccessReview`, or a `SelfSubjectAccessReview`, whose
-- subject is the owner of the request's credentials.
pub data Review : Type 0 where
  of_subject : String → List String → ResourceAttributes → Review
  of_self : ResourceAttributes → Review

-- A call that the API server has answered.
pub data Call : Type 0 where
  reviewed : Review → Result Bool → Call
  listed : Result (List String) → Call

abbrev pub Trace : Type 0
Trace = List Call

-- The API server. Its answers may depend on all that it was asked before: `Status.Allowed` of a
-- review that is created, and the names of the projects that the user can see.
pub record Cluster : Type 0 where
  pub review : Trace → Review → Result Bool
  pub projects : Trace → Result (List String)

abbrev pub attributes : Access → ResourceAttributes
attributes a = record {
  namespace = a.namespace;
  verb = a.verb;
  group = a.api_group;
  resource = a.resource;
  name = a.resource_name;
}

module _ (cluster : Cluster) where
  create : Review → Trace → Result Bool × Trace
  create r t = (cluster.review t r, snoc t (reviewed r (cluster.review t r)))

  unfoldable pub subject_access_review : Access → Trace → Result Bool × Trace
  unfolding create
  subject_access_review a t =
      let (res, t') = create (of_subject a.user a.groups (attributes a)) t in
      (context "failed to create subject access review" res, t')

  unfoldable pub self_subject_access_review : Access → Trace → Result Bool × Trace
  unfolding create
  self_subject_access_review a t =
      let (res, t') = create (of_self (attributes a)) t in
      (context "failed to create self subject access review" res, t')

  unfoldable pub list_namespaces : Trace → Result (List String) × Trace
  list_namespaces t =
      (context "failed to list projects" (cluster.projects t), snoc t (listed (cluster.projects t)))

  module _ (ssar : Bool) where
    unfoldable pub access_review : Access → Trace → Result Bool × Trace
    unfolding subject_access_review self_subject_access_review
    access_review a t = if ssar then self_subject_access_review a t else subject_access_review a t

    abbrev pub client : Client Trace
    client = record { access_review = access_review; list_namespaces = list_namespaces }

-- The review that stands for an access, in either mode.
abbrev pub review_of : Bool → Access → Review
review_of ssar a =
    if ssar then of_self (attributes a) else of_subject a.user a.groups (attributes a)

-- The API server has answered a review of the access with yes.
abbrev pub Granted : Bool → Trace → Access → Type 0
Granted ssar t a = In (reviewed (review_of ssar a) (ok true)) t

-- The API server has listed the project.
abbrev pub Listed : Trace → String → Type 0
Listed t n = (ns : List String) × In (listed (ok ns)) t × In n ns

module _ (cluster : Cluster) where
  -- A call of `AccessReview` sends one review, of the kind that the mode asks for, and returns an
  -- answer exactly if the server gives it. With SSAR neither the user nor the groups are sent.
  pub access_review-trace :
      (ssar : Bool) (a : Access) (t : Trace)
      → ((access_review cluster ssar a t).1
          ≡ snoc t (reviewed (review_of ssar a) (cluster.review t (review_of ssar a))))
        × ((b : Bool)
            → ((access_review cluster ssar a t).0 ≡ ok b)
              ↔ (cluster.review t (review_of ssar a) ≡ ok b))
  unfolding access_review
  access_review-trace true a t = (refl, λ b. context-eq-ok _ _ b)
  access_review-trace false a t = (refl, λ b. context-eq-ok _ _ b)

  pub review_grants :
      (ssar : Bool) (a : Access) (t : Trace)
      → (access_review cluster ssar a t).0 ≡ ok true
      → Granted ssar (access_review cluster ssar a t).1 a
  review_grants ssar a t e =
      let (sent, answer) = access_review-trace ssar a t in
      let yes_answer = (answer true).0 e in rw (sent, yes_answer) (In-append_right _ t _ (inl refl))

  pub review_keeps :
      (ssar : Bool) (a : Access) (t : Trace) (c : Call)
      → In c t
      → In c (access_review cluster ssar a t).1
  review_keeps ssar a t c h = rw ((access_review-trace ssar a t).0) (In-append_left c t _ h)

  pub list_keeps : (t : Trace) (c : Call) → In c t → In c (list_namespaces cluster t).1
  unfolding list_namespaces
  list_keeps t c h = In-append_left c t _ h

  pub list_lists :
      (t : Trace) (ns : List String) (n : String)
      → (list_namespaces cluster t).0 ≡ ok ns
      → In n ns
      → Listed (list_namespaces cluster t).1 n
  unfolding list_namespaces
  list_lists t ns n e i =
      let found = (context-eq-ok _ _ ns).0 e in (ns, rw found (In-append_right _ t _ (inl refl)), i)

  -- The client remembers, in the calls it has made, what it was granted and what was listed: a
  -- positive answer stands for a review that the API server answered with yes, and a namespace
  -- that is returned for a project that the API server listed.
  abbrev pub client-laws : (ssar : Bool) → ClientLaws (client cluster ssar)
  client-laws ssar = record {
    Granted = Granted ssar;
    Listed = Listed;
    review_grants = review_grants ssar;
    list_lists = list_lists;
    review_keeps = λ a b w h. review_keeps ssar a w _ h;
    review_keeps_listed = λ a n w (ns, h, i). (ns, review_keeps ssar a w _ h, i);
    list_keeps = λ b w h. list_keeps w _ h;
  }
