-- ===== src/Fakes/ProjectClient.antt =====
-- `FakeProjectV1Client` of internal/external/ocp/ocpfakes/fake_project_v1client.go:
-- a double of the interface, method by method.
use opa_openshift.Base.{[], Option, none}
use opa_openshift.Fakes.{Method, Recorded, Fields, Double, double, copied_invocations, fresh}
use opa_openshift.Openshift.Api.{Api}
use opa_openshift.Fakes.Boxed.{Any}

module _ (X : Type 0) (api : Api) where
  pub record FakeProjectV1Client : Type 0 where
    pub projects_method : Method X (Unit {0}) (Option api.ProjectInterface)
    pub invocations : Recorded (Any api)

  abbrev pub new : FakeProjectV1Client
  new = record { projects_method = fresh none; invocations = [] }

  abbrev pub projects_fields :
      Fields X (Any api) FakeProjectV1Client (Unit {0}) (Option api.ProjectInterface)
  projects_fields = record {
    name = "Projects";
    box = λ args. [];
    method = λ fake. fake.projects_method;
    set_method = λ m fake. record fake { projects_method = m };
    invocations = λ fake. fake.invocations;
    set_invocations = λ calls fake. record fake { invocations = calls };
  }

  abbrev pub projects : Double X FakeProjectV1Client (Unit {0}) (Option api.ProjectInterface)
  projects = double projects_fields

  abbrev pub all_invocations : FakeProjectV1Client → Recorded (Any api)
  all_invocations fake = copied_invocations fake.invocations
