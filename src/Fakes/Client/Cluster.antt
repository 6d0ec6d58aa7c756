-- ===== src/Fakes/Client/Cluster.antt =====
-- The calls that the client of internal/openshift/client.go makes, on doubles of
-- internal/external that answer as an API server does.
use opa_openshift.Base.{[], Option, none, some, ◌≡◌, refl, sym, subst}
use opa_openshift.Openshift.Api.{Api}
use opa_openshift.Openshift.Interfaces.{Kinds}
use opa_openshift.Openshift.Reviews.{Trace, Cluster}
use opa_openshift.Fakes.{Method, Fields, call}
use opa_openshift.Fakes.Invocations.{IsApart, apart-call}
use opa_openshift.Fakes.Answers.{IsReturning, call-IsReturning, call-stub}
use opa_openshift.Fakes.Authorization.{
  subject_access_reviews_fields, self_subject_access_reviews_fields,
}
use opa_openshift.Fakes.ClientSet.{authorization_v1_fields}
use opa_openshift.Fakes.ProjectClient.{projects_fields}
use opa_openshift.Fakes.Project.Reads.{list_fields}
use opa_openshift.Fakes.Client.{
  one_each, World, subject_review_double, self_review_double, authorization_double,
  client_set_double, project_client_double, project_double, pointer,
}
use opa_openshift.Fakes.Client.Methods.{
  authorization_v1-FieldsLaws, subject_access_reviews-FieldsLaws,
  self_subject_access_reviews-FieldsLaws, projects-FieldsLaws, list-FieldsLaws,
  subject_create-FieldsLaws, self_create-FieldsLaws, subject_access_reviews-IsApart,
  self_subject_access_reviews-IsApart,
}
use opa_openshift.Fakes.Client.Stubs.{Stubs, subject_stub, self_stub, list_stub, IsSetUp}

module _ {api : Api} {kinds : Kinds api} (stubs : Stubs kinds) (cluster : Cluster) where
  -- One call of a double: what it returns, the state of the API server after it, and that the
  -- doubles still stand in for the server.
  abbrev pub Steps : {R : Type 0} → R × World Trace api → R → Trace → Type 0
  Steps out r t = (out.0 ≡ r) × (out.1.outside ≡ t) × IsSetUp stubs cluster out.1

  pointer-Steps :
      {I : Type 0} (i : I) (out : Option (Unit {0}) × World Trace api) (t : Trace)
      → Steps out (some tt) t
      → Steps (pointer Trace api i out) (some i) t
  pointer-Steps i (none, w) t (e, x, h) = absurd (cc)
  pointer-Steps i (some u, w) t (e, x, h) = (refl, x, h)

  pub authorization-Steps :
      (w : World Trace api)
      → IsSetUp stubs cluster w
      → Steps
          ((client_set_double Trace api).authorization_v1 w)
          (some (authorization_double Trace api))
          w.outside
  authorization-Steps w (a, b, c, d, e, f, g) =
      let (r, x, kept) =
        call-IsReturning (authorization_v1_fields Trace (one_each api))
          (authorization_v1-FieldsLaws Trace (one_each api)) (some tt) tt w.client_set w.outside
          a in
      pointer-Steps (authorization_double Trace api) _ w.outside (r, x, (kept, b, c, d, e, f, g))

  -- what is set up for a method stays when another one is called
  IsReturning-apart :
      {F A B R T V : Type 0} (s : Fields Trace V F A R) (t : Fields Trace V F B T)
      → IsApart s t
      → (r : R) (args : B) (f : F) (x : Trace) → IsReturning s r f
      → IsReturning s r (call t args f x).1
  IsReturning-apart s t apart r args f x h =
      let same = sym (apart-call s t apart args f x) in
      record {
        no_stub = subst (λ (m : Method Trace _ _). m.stub ≡ none) same h.no_stub;
        always = subst (λ (m : Method Trace _ _). m.returns ≡ r) same h.always;
        no_other = subst (λ (m : Method Trace _ _). m.returns_on_call ≡ []) same h.no_other;
      }

  pub subject_reviews-Steps :
      (w : World Trace api)
      → IsSetUp stubs cluster w
      → Steps
          ((authorization_double Trace api).subject_access_reviews w)
          (some (subject_review_double Trace api))
          w.outside
  subject_reviews-Steps w (a, b, c, d, e, f, g) =
      let (r, x, kept) =
        call-IsReturning (subject_access_reviews_fields Trace (one_each api))
          (subject_access_reviews-FieldsLaws Trace (one_each api)) (some tt) tt w.authorization
          w.outside b in
      pointer-Steps (subject_review_double Trace api) _ w.outside (
        r,
        x,
        (
          a,
          kept,
          IsReturning-apart _ _ (self_subject_access_reviews-IsApart Trace (one_each api)) (some tt)
              tt w.authorization w.outside c,
          d,
          e,
          f,
          g,
        ),
      )

  pub self_reviews-Steps :
      (w : World Trace api)
      → IsSetUp stubs cluster w
      → Steps
          ((authorization_double Trace api).self_subject_access_reviews w)
          (some (self_review_double Trace api))
          w.outside
  self_reviews-Steps w (a, b, c, d, e, f, g) =
      let (r, x, kept) =
        call-IsReturning (self_subject_access_reviews_fields Trace (one_each api))
          (self_subject_access_reviews-FieldsLaws Trace (one_each api)) (some tt) tt w.authorization
          w.outside c in
      pointer-Steps (self_review_double Trace api) _ w.outside (
        r,
        x,
        (
          a,
          IsReturning-apart _ _ (subject_access_reviews-IsApart Trace (one_each api)) (some tt) tt
              w.authorization w.outside b,
          kept,
          d,
          e,
          f,
          g,
        ),
      )

  pub projects-Steps :
      (w : World Trace api)
      → IsSetUp stubs cluster w
      → Steps
          ((project_client_double Trace api).projects w)
          (some (project_double Trace api))
          w.outside
  projects-Steps w (a, b, c, d, e, f, g) =
      let (r, x, kept) =
        call-IsReturning (projects_fields Trace (one_each api))
          (projects-FieldsLaws Trace (one_each api)) (some tt) tt w.project_client w.outside f in
      pointer-Steps (project_double Trace api) _ w.outside (r, x, (a, b, c, d, e, kept, g))

  pub subject_create-Steps :
      (args : Option api.Context × Option api.SubjectAccessReview × api.CreateOptions)
      (w : World Trace api)
      → IsSetUp stubs cluster w
      → Steps
          ((subject_review_double Trace api).create args w)
          (subject_stub stubs cluster args w.outside).0
          (subject_stub stubs cluster args w.outside).1
  subject_create-Steps args w (a, b, c, d, e, f, g) =
      let (r, x, kept) =
        call-stub (opa_openshift.Fakes.SubjectReview.create_fields Trace (one_each api))
          (subject_create-FieldsLaws Trace (one_each api)) (subject_stub stubs cluster) args
          w.subject_review w.outside d in
      (r, x, (a, b, c, kept, e, f, g))

  pub self_create-Steps :
      (args : Option api.Context × Option api.SelfSubjectAccessReview × api.CreateOptions)
      (w : World Trace api)
      → IsSetUp stubs cluster w
      → Steps
          ((self_review_double Trace api).create args w)
          (self_stub stubs cluster args w.outside).0
          (self_stub stubs cluster args w.outside).1
  self_create-Steps args w (a, b, c, d, e, f, g) =
      let (r, x, kept) =
        call-stub (opa_openshift.Fakes.SelfReview.create_fields Trace (one_each api))
          (self_create-FieldsLaws Trace (one_each api)) (self_stub stubs cluster) args w.self_review
          w.outside e in
      (r, x, (a, b, c, d, kept, f, g))

  pub list-Steps :
      (args : Option api.Context × api.ListOptions) (w : World Trace api)
      → IsSetUp stubs cluster w
      → Steps
          ((project_double Trace api).list args w)
          (list_stub stubs cluster args w.outside).0
          (list_stub stubs cluster args w.outside).1
  list-Steps args w (a, b, c, d, e, f, g) =
      let (r, x, kept) =
        call-stub (list_fields Trace (one_each api)) (list-FieldsLaws Trace (one_each api))
          (list_stub stubs cluster) args w.project w.outside g in
      (r, x, (a, b, c, d, e, f, kept))
