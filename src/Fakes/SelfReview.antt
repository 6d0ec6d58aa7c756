-- ===== src/Fakes/SelfReview.antt =====
-- `FakeSelfSubjectAccessReviewInterface` of internal/external/k8s/k8sfakes/fake_self_subject_access_review_interface.go:
-- a double of the interface, method by method.
use opa_openshift.Base.{ℕ, [], ◌∷◌, Option, none, Error}
use opa_openshift.Fakes.{
  Method, Recorded, Fields, Double, double, args_for_call, copied_invocations, fresh,
}
use opa_openshift.Openshift.Api.{Api}
use opa_openshift.Fakes.Boxed.{Any, of_context, of_create_options, of_self_subject_access_review}

module _ (X : Type 0) (api : Api) where
  pub record FakeSelfSubjectAccessReviewInterface : Type 0 where
    pub create_method :
        Method X
          (Option api.Context × Option api.SelfSubjectAccessReview × api.CreateOptions)
          (Option api.SelfSubjectAccessReview × Option Error)
    pub invocations : Recorded (Any api)

  abbrev pub new : FakeSelfSubjectAccessReviewInterface
  new = record { create_method = fresh (none, none); invocations = [] }

  abbrev pub create_fields :
      Fields X
        (Any api)
        FakeSelfSubjectAccessReviewInterface
        (Option api.Context × Option api.SelfSubjectAccessReview × api.CreateOptions)
        (Option api.SelfSubjectAccessReview × Option Error)
  create_fields = record {
    name = "Create";
    box = λ (arg1, arg2, arg3).
        of_context arg1 ∷ of_self_subject_access_review arg2 ∷ of_create_options arg3 ∷ [];
    method = λ fake. fake.create_method;
    set_method = λ m fake. record fake { create_method = m };
    invocations = λ fake. fake.invocations;
    set_invocations = λ calls fake. record fake { invocations = calls };
  }

  abbrev pub create :
      Double X FakeSelfSubjectAccessReviewInterface
        (Option api.Context × Option api.SelfSubjectAccessReview × api.CreateOptions)
        (Option api.SelfSubjectAccessReview × Option Error)
  create = double create_fields

  abbrev pub create_args_for_call :
      ℕ
      → FakeSelfSubjectAccessReviewInterface
      → Option (Option api.Context × Option api.SelfSubjectAccessReview × api.CreateOptions)
  create_args_for_call = args_for_call create_fields

  abbrev pub all_invocations : FakeSelfSubjectAccessReviewInterface → Recorded (Any api)
  all_invocations fake = copied_invocations fake.invocations
