-- ===== src/Tests/Doubles.antt =====
-- The doubles on small types, set up as internal/openshift/client_test.go does.
use opa_openshift.Base.{
  ℕ, String, Bool, false, List, [], ◌∷◌, map, get_elem?, Option, none, some, ◌≡◌, refl,
}
use opa_openshift.Openshift.{Access}
use opa_openshift.Openshift.Api.{Api}
use opa_openshift.Openshift.Interfaces.{Kinds, access_review_through}
use opa_openshift.Openshift.Reviews.{
  ResourceAttributes, Review, of_subject, of_self, Trace, access_review,
}
use opa_openshift.Authorizer.{access_in}
use opa_openshift.Fakes.{
  call, call_count, args_for_call, calls, set_returns, set_returns_on_call, recorded_at,
  copied_invocations, specific_return, recorded, record_invocation,
}
use opa_openshift.Fakes.Invocations.{
  FieldsLaws, IsApart, Used, unused, called, returning_on_call, other, call_other, HasCalls,
  Used-invocations,
}
use opa_openshift.Fakes.Answers.{call_all, set_returns_on_call-call}
use opa_openshift.Fakes.Authorization.{
  FakeAuthorizationV1Interface, subject_access_reviews_fields, self_subject_access_reviews_fields,
}
use opa_openshift.Fakes.ClientSet.{authorization_v1_fields}
use opa_openshift.Fakes.ProjectClient.{projects_fields}
use opa_openshift.Fakes.Project.{FakeProjectInterface}
use opa_openshift.Fakes.Project.Reads.{list_fields, get_fields}
use opa_openshift.Fakes.Project.Writes.{delete_fields}
use opa_openshift.Base.Assoc.{lookup}
use opa_openshift.Fakes.Client.{one_each, World, connected}
use opa_openshift.Fakes.Client.Stubs.{Stubs, subject_stub, self_stub, list_stub, IsSetUp}
use opa_openshift.Fakes.Client.Through.{access_review_through-doubles}
use opa_openshift.Tests.Samples.{cluster, read_of}

-- A review is its specification and its answer; a list of projects is its names.
abbrev api : Api
api = record {
  ApplyOptions = Unit {0};
  AuthenticationV1Interface = Unit {0};
  AuthorizationV1Interface = Unit {0};
  Context = Unit {0};
  CreateOptions = Unit {0};
  DeleteOptions = Unit {0};
  GetOptions = Unit {0};
  ListOptions = Unit {0};
  LocalSubjectAccessReviewInterface = Unit {0};
  PatchOptions = Unit {0};
  PatchType = Unit {0};
  Project = Unit {0};
  ProjectApplyConfiguration = Unit {0};
  ProjectInterface = Unit {0};
  ProjectList = List String;
  RestInterface = Unit {0};
  SelfSubjectAccessReview = ResourceAttributes × Bool;
  SelfSubjectAccessReviewInterface = Unit {0};
  SelfSubjectRulesReviewInterface = Unit {0};
  SubjectAccessReview = Review × Bool;
  SubjectAccessReviewInterface = Unit {0};
  UpdateOptions = Unit {0};
  WatchInterface = Unit {0};
}

abbrev kinds : Kinds api
kinds = record {
  todo = some tt;
  create_options = tt;
  list_options = tt;
  new_subject_review = λ user groups a. (of_subject user groups a, false);
  subject_allowed = λ s. s.1;
  new_self_review = λ a. (a, false);
  self_allowed = λ s. s.1;
  project_names = λ ns. ns;
}

abbrev stubs : Stubs kinds
stubs = record {
  subject_of = λ s. s.0;
  subject_of-new = λ user groups a. refl;
  set_subject = λ b s. (s.0, b);
  allowed-set_subject = λ b s. refl;
  self_of = λ s. of_self s.0;
  self_of-new = λ a. refl;
  set_self = λ b s. (s.0, b);
  allowed-set_self = λ b s. refl;
  new_project_list = λ ns. ns;
  names-new_project_list = λ ns. refl;
}

abbrev doubles : World Trace api
doubles = record {
  client_set =
      set_returns (authorization_v1_fields Trace (one_each api)) (some tt)
        (opa_openshift.Fakes.ClientSet.new Trace (one_each api));
  authorization = set_returns (self_subject_access_reviews_fields Trace (one_each api)) (some tt) (
      set_returns (subject_access_reviews_fields Trace (one_each api)) (some tt)
        (opa_openshift.Fakes.Authorization.new Trace (one_each api)));
  subject_review =
      calls (opa_openshift.Fakes.SubjectReview.create_fields Trace (one_each api))
        (some (subject_stub stubs cluster))
        (opa_openshift.Fakes.SubjectReview.new Trace (one_each api));
  self_review =
      calls (opa_openshift.Fakes.SelfReview.create_fields Trace (one_each api))
        (some (self_stub stubs cluster)) (opa_openshift.Fakes.SelfReview.new Trace (one_each api));
  project_client =
      set_returns (projects_fields Trace (one_each api)) (some tt)
        (opa_openshift.Fakes.ProjectClient.new Trace (one_each api));
  project =
      calls (list_fields Trace (one_each api)) (some (list_stub stubs cluster))
        (opa_openshift.Fakes.Project.new Trace (one_each api));
  outside = [];
}

doubles-IsSetUp : IsSetUp stubs cluster doubles
unfolding set_returns calls
doubles-IsSetUp = (
  record { no_stub = refl; always = refl; no_other = refl },
  record { no_stub = refl; always = refl; no_other = refl },
  record { no_stub = refl; always = refl; no_other = refl },
  refl,
  refl,
  record { no_stub = refl; always = refl; no_other = refl },
  refl,
)

abbrev team_access : Access
team_access = access_in (read_of "jo" ("staff" ∷ "team" ∷ []) []) "team-a"

access_review_through-doubles_example :
    let out = access_review_through kinds (connected Trace api false) team_access doubles in
    (out.0 ≡ some (access_review cluster false team_access []).0)
    × (out.1.outside ≡ (access_review cluster false team_access []).1)
    × IsSetUp stubs cluster out.1
access_review_through-doubles_example =
    access_review_through-doubles stubs cluster false team_access doubles doubles-IsSetUp

abbrev new_project : FakeProjectInterface Trace api
new_project = opa_openshift.Fakes.Project.new Trace api

abbrev Got : Type 0
Got = Option api.Context × String × api.GetOptions

abbrev team_a : Got
team_a = (some tt, "team-a", tt)

abbrev team_b : Got
team_b = (some tt, "team-b", tt)

get-FieldsLaws : FieldsLaws (get_fields Trace api)
get-FieldsLaws = record {
  method-set_method = λ m f. refl;
  method-set_invocations = λ c f. refl;
  invocations-set_method = λ m f. refl;
  invocations-set_invocations = λ c f. refl;
}

delete-IsApart : IsApart (get_fields Trace api) (delete_fields Trace api)
delete-IsApart = record {
  names = λ e. cc;
  method-set_method = λ m f. refl;
  method-set_invocations = λ c f. refl;
  same_invocations = λ f. refl;
  invocations-set_method = λ m f. refl;
  invocations-set_invocations = λ c f. refl;
}

-- two gets, with a result set and a project deleted in between
abbrev used_project : FakeProjectInterface Trace api
used_project =
    (call (get_fields Trace api) team_b
      (call (delete_fields Trace api) (some tt, "team-a", tt)
        (set_returns_on_call (get_fields Trace api) 1 (some tt, none)
          (call (get_fields Trace api) team_a new_project []).1)
        []).1
      []).1

used_project-Used : Used (get_fields Trace api) new_project (team_a ∷ team_b ∷ []) used_project
used_project-Used =
    called
      (other (returning_on_call (called unused team_a []) 1 (some tt, none))
        (call_other (delete_fields Trace api) delete-IsApart (some tt, "team-a", tt) []))
      team_b []

new_project-HasCalls : HasCalls (get_fields Trace api) [] new_project
unfolding recorded_at lookup
new_project-HasCalls = record { arguments = refl; boxed = refl }

Used-invocations_example :
    (call_count (get_fields Trace api) used_project ≡ 2)
    × ((i : ℕ)
        → args_for_call (get_fields Trace api) i used_project ≡ get_elem? (team_a ∷ team_b ∷ []) i)
    × (recorded_at "Get" (copied_invocations used_project.invocations)
        ≡ map (get_fields Trace api).box (team_a ∷ team_b ∷ []))
Used-invocations_example =
    Used-invocations (get_fields Trace api) get-FieldsLaws new_project-HasCalls used_project-Used

-- the result that was set for the second get
set_returns_on_call-call_example :
    (call
      (get_fields Trace api)
      team_b
      (call_all
        (get_fields Trace api)
        (team_a ∷ [])
        (set_returns_on_call (get_fields Trace api) 1 (some tt, none) new_project)
        []).1
      []).0
    ≡ (some tt, none)
unfolding call_count
set_returns_on_call-call_example =
    set_returns_on_call-call (get_fields Trace api) get-FieldsLaws 1 (some tt, none) (team_a ∷ [])
      team_b new_project []
