-- ===== src/Fakes/ClientSet.antt =====
-- `FakeClientSet` of internal/external/k8s/k8sfakes/fake_client_set.go:
-- a double of the interface, method by method.
use opa_openshift.Base.{[], Option, none}
use opa_openshift.Fakes.{Method, Recorded, Fields, Double, double, copied_invocations, fresh}
use opa_openshift.Openshift.Api.{Api}
use opa_openshift.Fakes.Boxed.{Any}

module _ (X : Type 0) (api : Api) where
  pub record FakeClientSet : Type 0 where
    pub authentication_v1_method : Method X (Unit {0}) (Option api.AuthenticationV1Interface)
    pub authorization_v1_method : Method X (Unit {0}) (Option api.AuthorizationV1Interface)
    pub invocations : Recorded (Any api)

  abbrev pub new : FakeClientSet
  new = record {
    authentication_v1_method = fresh none;
    authorization_v1_method = fresh none;
    invocations = [];
  }

  abbrev pub authentication_v1_fields :
      Fields X (Any api) FakeClientSet (Unit {0}) (Option api.AuthenticationV1Interface)
  authentication_v1_fields = record {
    name = "AuthenticationV1";
    box = λ args. [];
    method = λ fake. fake.authentication_v1_method;
    set_method = λ m fake. record fake { authentication_v1_method = m };
    invocations = λ fake. fake.invocations;
    set_invocations = λ calls fake. record fake { invocations = calls };
  }

  abbrev pub authentication_v1 :
      Double X FakeClientSet (Unit {0}) (Option api.AuthenticationV1Interface)
  authentication_v1 = double authentication_v1_fields

  abbrev pub authorization_v1_fields :
      Fields X (Any api) FakeClientSet (Unit {0}) (Option api.AuthorizationV1Interface)
  authorization_v1_fields = record {
    name = "AuthorizationV1";
    box = λ args. [];
    method = λ fake. fake.authorization_v1_method;
    set_method = λ m fake. record fake { authorization_v1_method = m };
    invocations = λ fake. fake.invocations;
    set_invocations = λ calls fake. record fake { invocations = calls };
  }

  abbrev pub authorization_v1 :
      Double X FakeClientSet (Unit {0}) (Option api.AuthorizationV1Interface)
  authorization_v1 = double authorization_v1_fields

  abbrev pub all_invocations : FakeClientSet → Recorded (Any api)
  all_invocations fake = copied_invocations fake.invocations
