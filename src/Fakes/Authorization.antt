-- ===== src/Fakes/Authorization.antt =====
-- `FakeAuthorizationV1Interface` of internal/external/k8s/k8sfakes/fake_authorization_v1interface.go:
-- a double of the interface, method by method.
use opa_openshift.Base.{ℕ, String, [], ◌∷◌, Option, none}
use opa_openshift.Fakes.{
  Method, Recorded, Fields, Double, double, args_for_call, copied_invocations, fresh,
}
use opa_openshift.Openshift.Api.{Api}
use opa_openshift.Fakes.Boxed.{Any, of_string}

module _ (X : Type 0) (api : Api) where
  pub record FakeAuthorizationV1Interface : Type 0 where
    pub local_subject_access_reviews_method :
        Method X (String) (Option api.LocalSubjectAccessReviewInterface)
    pub rest_client_method : Method X (Unit {0}) (Option api.RestInterface)
    pub self_subject_access_reviews_method :
        Method X (Unit {0}) (Option api.SelfSubjectAccessReviewInterface)
    pub self_subject_rules_reviews_method :
        Method X (Unit {0}) (Option api.SelfSubjectRulesReviewInterface)
    pub subject_access_reviews_method :
        Method X (Unit {0}) (Option api.SubjectAccessReviewInterface)
    pub invocations : Recorded (Any api)

  abbrev pub new : FakeAuthorizationV1Interface
  new = record {
    local_subject_access_reviews_method = fresh none;
    rest_client_method = fresh none;
    self_subject_access_reviews_method = fresh none;
    self_subject_rules_reviews_method = fresh none;
    subject_access_reviews_method = fresh none;
    invocations = [];
  }

  abbrev pub local_subject_access_reviews_fields :
      Fields X
        (Any api)
        FakeAuthorizationV1Interface
        (String)
        (Option api.LocalSubjectAccessReviewInterface)
  local_subject_access_reviews_fields = record {
    name = "LocalSubjectAccessReviews";
    box = λ arg1. of_string arg1 ∷ [];
    method = λ fake. fake.local_subject_access_reviews_method;
    set_method = λ m fake. record fake { local_subject_access_reviews_method = m };
    invocations = λ fake. fake.invocations;
    set_invocations = λ calls fake. record fake { invocations = calls };
  }

  abbrev pub local_subject_access_reviews :
      Double X FakeAuthorizationV1Interface (String) (Option api.LocalSubjectAccessReviewInterface)
  local_subject_access_reviews = double local_subject_access_reviews_fields

  abbrev pub local_subject_access_reviews_args_for_call :
      ℕ → FakeAuthorizationV1Interface → Option (String)
  local_subject_access_reviews_args_for_call = args_for_call local_subject_access_reviews_fields

  abbrev pub rest_client_fields :
      Fields X (Any api) FakeAuthorizationV1Interface (Unit {0}) (Option api.RestInterface)
  rest_client_fields = record {
    name = "RESTClient";
    box = λ args. [];
    method = λ fake. fake.rest_client_method;
    set_method = λ m fake. record fake { rest_client_method = m };
    invocations = λ fake. fake.invocations;
    set_invocations = λ calls fake. record fake { invocations = calls };
  }

  abbrev pub rest_client :
      Double X FakeAuthorizationV1Interface (Unit {0}) (Option api.RestInterface)
  rest_client = double rest_client_fields

  abbrev pub self_subject_access_reviews_fields :
      Fields X
        (Any api)
        FakeAuthorizationV1Interface
        (Unit {0})
        (Option api.SelfSubjectAccessReviewInterface)
  self_subject_access_reviews_fields = record {
    name = "SelfSubjectAccessReviews";
    box = λ args. [];
    method = λ fake. fake.self_subject_access_reviews_method;
    set_method = λ m fake. record fake { self_subject_access_reviews_method = m };
    invocations = λ fake. fake.invocations;
    set_invocations = λ calls fake. record fake { invocations = calls };
  }

  abbrev pub self_subject_access_reviews :
      Double X FakeAuthorizationV1Interface (Unit {0}) (Option api.SelfSubjectAccessReviewInterface)
  self_subject_access_reviews = double self_subject_access_reviews_fields

  abbrev pub self_subject_rules_reviews_fields :
      Fields X
        (Any api)
        FakeAuthorizationV1Interface
        (Unit {0})
        (Option api.SelfSubjectRulesReviewInterface)
  self_subject_rules_reviews_fields = record {
    name = "SelfSubjectRulesReviews";
    box = λ args. [];
    method = λ fake. fake.self_subject_rules_reviews_method;
    set_method = λ m fake. record fake { self_subject_rules_reviews_method = m };
    invocations = λ fake. fake.invocations;
    set_invocations = λ calls fake. record fake { invocations = calls };
  }

  abbrev pub self_subject_rules_reviews :
      Double X FakeAuthorizationV1Interface (Unit {0}) (Option api.SelfSubjectRulesReviewInterface)
  self_subject_rules_reviews = double self_subject_rules_reviews_fields

  abbrev pub subject_access_reviews_fields :
      Fields X
        (Any api)
        FakeAuthorizationV1Interface
        (Unit {0})
        (Option api.SubjectAccessReviewInterface)
  subject_access_reviews_fields = record {
    name = "SubjectAccessReviews";
    box = λ args. [];
    method = λ fake. fake.subject_access_reviews_method;
    set_method = λ m fake. record fake { subject_access_reviews_method = m };
    invocations = λ fake. fake.invocations;
    set_invocations = λ calls fake. record fake { invocations = calls };
  }

  abbrev pub subject_access_reviews :
      Double X FakeAuthorizationV1Interface (Unit {0}) (Option api.SubjectAccessReviewInterface)
  subject_access_reviews = double subject_access_reviews_fields

  abbrev pub all_invocations : FakeAuthorizationV1Interface → Recorded (Any api)
  all_invocations fake = copied_invocations fake.invocations
