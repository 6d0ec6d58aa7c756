-- ===== src/Fakes/Client/Through.antt =====
-- internal/openshift/client.go on the doubles of internal/external: with doubles that stand in
-- for an API server, the client does what it does with the server itself.
use opa_openshift.Base.{
  String, Bool, true, false, Option, some, Result, ok, err, context, ◌≡◌, refl, ap, ◌∙◌, snoc,
}
use opa_openshift.Openshift.{Access}
use opa_openshift.Openshift.Api.{Api}
use opa_openshift.Openshift.Interfaces.{
  Kinds, checked, subject_access_review_through, self_subject_access_review_through,
  access_review_through, list_namespaces_through,
}
use opa_openshift.Openshift.Reviews.{
  attributes, Trace, reviewed, Cluster, access_review, subject_access_review,
  self_subject_access_review, list_namespaces,
}
use opa_openshift.Fakes.Client.{
  World, connected, client_set_double, authorization_double, project_client_double,
}
use opa_openshift.Fakes.Client.Stubs.{Stubs, pair_of, subject_stub, self_stub, list_stub, IsSetUp}
use opa_openshift.Fakes.Client.Cluster.{
  Steps, authorization-Steps, subject_reviews-Steps, self_reviews-Steps, projects-Steps,
  subject_create-Steps, self_create-Steps, list-Steps,
}

checked-pair_of :
    {A R : Type 0} (text : String) (read : R → A) (f : A → R) (res : Result A)
    → ((a : A) → read (f a) ≡ a)
    → checked text read (pair_of f res) ≡ some (context text res)
checked-pair_of text read f (ok a) h = rw (h a) refl
checked-pair_of text read f (err e) h = refl

module _ {api : Api} {kinds : Kinds api} (stubs : Stubs kinds) (cluster : Cluster) where
  -- what is read from the answer to a review that the stub has answered
  subject_answer :
      (a : Access) (t : Trace)
      → let review = kinds.new_subject_review a.user a.groups (attributes a) in
        let out = subject_stub stubs cluster (kinds.todo, some review, kinds.create_options) t in
        (checked "failed to create subject access review" kinds.subject_allowed out.0
          ≡ some (subject_access_review cluster a t).0)
        × (out.1 ≡ (subject_access_review cluster a t).1)
  unfolding subject_access_review
  subject_answer a t =
      let review = kinds.new_subject_review a.user a.groups (attributes a) in
      let same = stubs.subject_of-new a.user a.groups (attributes a) in
      (
        checked-pair_of _ kinds.subject_allowed (λ b. stubs.set_subject b review) _
              (λ b. stubs.allowed-set_subject b review)
            ∙ ap (λ r. some (context "failed to create subject access review" (cluster.review t r)))
                same,
        ap (λ r. snoc t (reviewed r (cluster.review t r))) same,
      )

  subject-Steps :
      (ssar : Bool) (a : Access) (w : World Trace api)
      → IsSetUp stubs cluster w
      → Steps stubs cluster
          (subject_access_review_through kinds (connected Trace api ssar) a w)
          (some (subject_access_review cluster a w.outside).0)
          (subject_access_review cluster a w.outside).1
  unfolding subject_access_review_through
  subject-Steps ssar a w h =
      let args : Option api.Context × Option api.SubjectAccessReview × api.CreateOptions = (
        kinds.todo,
        some (kinds.new_subject_review a.user a.groups (attributes a)),
        kinds.create_options,
      ) in
      let (e1, t1, h1) = authorization-Steps stubs cluster w h in
      let w1 = ((client_set_double Trace api).authorization_v1 w).1 in
      let (e2, t2, h2) = subject_reviews-Steps stubs cluster w1 h1 in
      let w2 = ((authorization_double Trace api).subject_access_reviews w1).1 in
      let (e3, t3, h3) = subject_create-Steps stubs cluster args w2 h2 in
      let (answer, after) = subject_answer a w.outside in
      let same = t2 ∙ t1 in
      rw (subject_access_review_through, e1, e2)
        (
          ap (checked "failed to create subject access review" kinds.subject_allowed)
                (e3 ∙ ap (λ t. (subject_stub stubs cluster args t).0) same)
              ∙ answer,
          t3 ∙ ap (λ t. (subject_stub stubs cluster args t).1) same ∙ after,
          h3,
        )

  self_answer :
      (a : Access) (t : Trace)
      → let review = kinds.new_self_review (attributes a) in
        let out = self_stub stubs cluster (kinds.todo, some review, kinds.create_options) t in
        (checked "failed to create self subject access review" kinds.self_allowed out.0
          ≡ some (self_subject_access_review cluster a t).0)
        × (out.1 ≡ (self_subject_access_review cluster a t).1)
  unfolding self_subject_access_review
  self_answer a t =
      let review = kinds.new_self_review (attributes a) in
      let same = stubs.self_of-new (attributes a) in
      (
        checked-pair_of _ kinds.self_allowed (λ b. stubs.set_self b review) _
              (λ b. stubs.allowed-set_self b review)
            ∙ ap
                (λ r.
                  some (context "failed to create self subject access review" (cluster.review t r)))
                same,
        ap (λ r. snoc t (reviewed r (cluster.review t r))) same,
      )

  self-Steps :
      (ssar : Bool) (a : Access) (w : World Trace api)
      → IsSetUp stubs cluster w
      → Steps stubs cluster
          (self_subject_access_review_through kinds (connected Trace api ssar) a w)
          (some (self_subject_access_review cluster a w.outside).0)
          (self_subject_access_review cluster a w.outside).1
  unfolding self_subject_access_review_through
  self-Steps ssar a w h =
      let args : Option api.Context × Option api.SelfSubjectAccessReview × api.CreateOptions =
        (kinds.todo, some (kinds.new_self_review (attributes a)), kinds.create_options) in
      let (e1, t1, h1) = authorization-Steps stubs cluster w h in
      let w1 = ((client_set_double Trace api).authorization_v1 w).1 in
      let (e2, t2, h2) = self_reviews-Steps stubs cluster w1 h1 in
      let w2 = ((authorization_double Trace api).self_subject_access_reviews w1).1 in
      let (e3, t3, h3) = self_create-Steps stubs cluster args w2 h2 in
      let (answer, after) = self_answer a w.outside in
      let same = t2 ∙ t1 in
      rw (self_subject_access_review_through, e1, e2)
        (
          ap (checked "failed to create self subject access review" kinds.self_allowed)
                (e3 ∙ ap (λ t. (self_stub stubs cluster args t).0) same)
              ∙ answer,
          t3 ∙ ap (λ t. (self_stub stubs cluster args t).1) same ∙ after,
          h3,
        )

  -- While the doubles stand in for an API server, `AccessReview` does not fail on a nil pointer; in
  -- either mode it returns what it returns on the server, the server gets the same call, and the
  -- doubles still stand in for it afterwards.
  pub access_review_through-doubles :
      (ssar : Bool) (a : Access) (w : World Trace api)
      → IsSetUp stubs cluster w
      → let out = access_review_through kinds (connected Trace api ssar) a w in
        (out.0 ≡ some (access_review cluster ssar a w.outside).0)
        × (out.1.outside ≡ (access_review cluster ssar a w.outside).1)
        × IsSetUp stubs cluster out.1
  unfolding access_review_through access_review
  access_review_through-doubles true a w h = self-Steps true a w h
  access_review_through-doubles false a w h = subject-Steps false a w h

  -- While the doubles stand in for an API server, `ListNamespaces` does not fail on a nil pointer;
  -- it returns the names that the server lists, or its error, as it does on the server, the server
  -- gets the same call, and the doubles still stand in for it afterwards.
  pub list_namespaces_through-doubles :
      (ssar : Bool) (w : World Trace api)
      → IsSetUp stubs cluster w
      → let out = list_namespaces_through kinds (connected Trace api ssar) w in
        (out.0 ≡ some (list_namespaces cluster w.outside).0)
        × (out.1.outside ≡ (list_namespaces cluster w.outside).1)
        × IsSetUp stubs cluster out.1
  unfolding list_namespaces_through list_namespaces
  list_namespaces_through-doubles ssar w h =
      let args : Option api.Context × api.ListOptions = (kinds.todo, kinds.list_options) in
      let (e1, t1, h1) = projects-Steps stubs cluster w h in
      let w1 = ((project_client_double Trace api).projects w).1 in
      let (e2, t2, h2) = list-Steps stubs cluster args w1 h1 in
      rw (list_namespaces_through, e1)
        (
          ap (checked "failed to list projects" kinds.project_names)
                (e2 ∙ ap (λ t. (list_stub stubs cluster args t).0) t1)
              ∙ checked-pair_of _ kinds.project_names stubs.new_project_list _
                  stubs.names-new_project_list,
          t2 ∙ ap (λ t. (list_stub stubs cluster args t).1) t1,
          h2,
        )
