-- ===== src/Fakes/Client.antt =====
-- The client of internal/openshift/client.go on the doubles of internal/external, put together as
-- internal/openshift/client_test.go does: one double of each interface, and a double that returns
-- an interface returns the one double of it, or nil.
pub mod Methods
pub mod Stubs
pub mod Cluster
pub mod Through
use opa_openshift.Base.{ℕ, String, Bool, List, Option, none, some, Error}
use opa_openshift.Openshift.Api.{Api}
use opa_openshift.Openshift.Interfaces.{
  SubjectAccessReviewInterface, SelfSubjectAccessReviewInterface, AuthorizationV1Interface,
  ClientSet, ProjectInterface, ProjectV1Client, Connected,
}
use opa_openshift.Fakes.{Double}
use opa_openshift.Fakes.SubjectReview.{FakeSubjectAccessReviewInterface}
use opa_openshift.Fakes.SelfReview.{FakeSelfSubjectAccessReviewInterface}
use opa_openshift.Fakes.Authorization.{
  FakeAuthorizationV1Interface, subject_access_reviews, local_subject_access_reviews,
  self_subject_access_reviews, self_subject_rules_reviews, rest_client,
}
use opa_openshift.Fakes.ClientSet.{FakeClientSet, authentication_v1, authorization_v1}
use opa_openshift.Fakes.ProjectClient.{FakeProjectV1Client, projects}
use opa_openshift.Fakes.Project.{FakeProjectInterface}
use opa_openshift.Fakes.Project.Applies.{apply, apply_status}
use opa_openshift.Fakes.Project.Writes.{delete, delete_collection, patch, update, update_status}
use opa_openshift.Fakes.Project.Reads.{get, list, watch}

-- A pointer to the one double of an interface says nothing but that it is not nil.
abbrev pub one_each : Api → Api
one_each api = record api {
  AuthorizationV1Interface = Unit {0};
  SubjectAccessReviewInterface = Unit {0};
  SelfSubjectAccessReviewInterface = Unit {0};
  ProjectInterface = Unit {0};
}

module _ (X : Type 0) (api : Api) where
  pub record World : Type 0 where
    pub client_set : FakeClientSet X (one_each api)
    pub authorization : FakeAuthorizationV1Interface X (one_each api)
    pub subject_review : FakeSubjectAccessReviewInterface X (one_each api)
    pub self_review : FakeSelfSubjectAccessReviewInterface X (one_each api)
    pub project_client : FakeProjectV1Client X (one_each api)
    pub project : FakeProjectInterface X (one_each api)
    pub outside : X

  -- A call of the double that stands in a field of the world.
  abbrev pub on :
      {F A R : Type 0} → Double X F A R → (World → F) → (F → World → World) → A → World → R × World
  on double_of get set args w =
      let (r, f, x) = double_of.call args (get w) w.outside in (r, set f (record w { outside = x }))

  abbrev pub pointer : {I : Type 0} → I → Option (Unit {0}) × World → Option I × World
  pointer interface (none, w) = (none, w)
  pointer interface (some u, w) = (some interface, w)

  abbrev pub subject_review_double : SubjectAccessReviewInterface api World
  subject_review_double = record {
    create =
        on (opa_openshift.Fakes.SubjectReview.create X (one_each api)) (λ w. w.subject_review)
          (λ f w. record w { subject_review = f });
  }

  abbrev pub self_review_double : SelfSubjectAccessReviewInterface api World
  self_review_double = record {
    create =
        on (opa_openshift.Fakes.SelfReview.create X (one_each api)) (λ w. w.self_review)
          (λ f w. record w { self_review = f });
  }

  abbrev on_authorization :
      {A R : Type 0}
      → Double X (FakeAuthorizationV1Interface X (one_each api)) A R
      → A
      → World
      → R × World
  on_authorization d = on d (λ w. w.authorization) (λ f w. record w { authorization = f })

  abbrev pub authorization_double : AuthorizationV1Interface api World
  authorization_double = record {
    subject_access_reviews = λ w.
        pointer subject_review_double
          (on_authorization (subject_access_reviews X (one_each api)) tt w);
    local_subject_access_reviews = on_authorization (local_subject_access_reviews X (one_each api));
    self_subject_access_reviews = λ w.
        pointer self_review_double
          (on_authorization (self_subject_access_reviews X (one_each api)) tt w);
    self_subject_rules_reviews = on_authorization (self_subject_rules_reviews X (one_each api)) tt;
    rest_client = on_authorization (rest_client X (one_each api)) tt;
  }

  abbrev on_client_set :
      {A R : Type 0} → Double X (FakeClientSet X (one_each api)) A R → A → World → R × World
  on_client_set d = on d (λ w. w.client_set) (λ f w. record w { client_set = f })

  abbrev pub client_set_double : ClientSet api World
  client_set_double = record {
    authentication_v1 = on_client_set (authentication_v1 X (one_each api)) tt;
    authorization_v1 =
        λ w. pointer authorization_double (on_client_set (authorization_v1 X (one_each api)) tt w);
  }

  abbrev on_project :
      {A R : Type 0} → Double X (FakeProjectInterface X (one_each api)) A R → A → World → R × World
  on_project d = on d (λ w. w.project) (λ f w. record w { project = f })

  abbrev pub project_double : ProjectInterface api World
  project_double = record {
    create = on_project (opa_openshift.Fakes.Project.Writes.create X (one_each api));
    update = on_project (update X (one_each api));
    update_status = on_project (update_status X (one_each api));
    delete = on_project (delete X (one_each api));
    delete_collection = on_project (delete_collection X (one_each api));
    get = on_project (get X (one_each api));
    list = on_project (list X (one_each api));
    watch = on_project (watch X (one_each api));
    patch = on_project (patch X (one_each api));
    apply = on_project (apply X (one_each api));
    apply_status = on_project (apply_status X (one_each api));
  }

  abbrev pub project_client_double : ProjectV1Client api World
  project_client_double = record {
    projects = λ w. pointer project_double (
        on (projects X (one_each api)) (λ v. v.project_client)
          (λ f v. record v { project_client = f }) tt w);
  }

  -- `client` on the doubles
  abbrev pub connected : Bool → Connected api World
  connected ssar = record {
    k8s_client = client_set_double;
    project_client = project_client_double;
    ssar = ssar;
  }
