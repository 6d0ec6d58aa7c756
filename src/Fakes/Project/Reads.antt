-- ===== src/Fakes/Project/Reads.antt =====
-- The methods that read, of `FakeProjectInterface` of
-- internal/external/ocp/ocpfakes/fake_project_interface.go.
use opa_openshift.Base.{ℕ, String, [], ◌∷◌, Option, Error}
use opa_openshift.Fakes.{Fields, Double, double, args_for_call}
use opa_openshift.Openshift.Api.{Api}
use opa_openshift.Fakes.Boxed.{Any, of_context, of_get_options, of_list_options, of_string}
use opa_openshift.Fakes.Project.{FakeProjectInterface}

module _ (X : Type 0) (api : Api) where
  abbrev pub get_fields :
      Fields X
        (Any api)
        (FakeProjectInterface X api)
        (Option api.Context × String × api.GetOptions)
        (Option api.Project × Option Error)
  get_fields = record {
    name = "Get";
    box = λ (arg1, arg2, arg3). of_context arg1 ∷ of_string arg2 ∷ of_get_options arg3 ∷ [];
    method = λ fake. fake.get_method;
    set_method = λ m fake. record fake { get_method = m };
    invocations = λ fake. fake.invocations;
    set_invocations = λ calls fake. record fake { invocations = calls };
  }

  abbrev pub get :
      Double X
        (FakeProjectInterface X api)
        (Option api.Context × String × api.GetOptions)
        (Option api.Project × Option Error)
  get = double get_fields

  abbrev pub get_args_for_call :
      ℕ → (FakeProjectInterface X api) → Option (Option api.Context × String × api.GetOptions)
  get_args_for_call = args_for_call get_fields

  abbrev pub list_fields :
      Fields X
        (Any api)
        (FakeProjectInterface X api)
        (Option api.Context × api.ListOptions)
        (Option api.ProjectList × Option Error)
  list_fields = record {
    name = "List";
    box = λ (arg1, arg2). of_context arg1 ∷ of_list_options arg2 ∷ [];
    method = λ fake. fake.list_method;
    set_method = λ m fake. record fake { list_method = m };
    invocations = λ fake. fake.invocations;
    set_invocations = λ calls fake. record fake { invocations = calls };
  }

  abbrev pub list :
      Double X
        (FakeProjectInterface X api)
        (Option api.Context × api.ListOptions)
        (Option api.ProjectList × Option Error)
  list = double list_fields

  abbrev pub list_args_for_call :
      ℕ → (FakeProjectInterface X api) → Option (Option api.Context × api.ListOptions)
  list_args_for_call = args_for_call list_fields

  abbrev pub watch_fields :
      Fields X
        (Any api)
        (FakeProjectInterface X api)
        (Option api.Context × api.ListOptions)
        (Option api.WatchInterface × Option Error)
  watch_fields = record {
    name = "Watch";
    box = λ (arg1, arg2). of_context arg1 ∷ of_list_options arg2 ∷ [];
    method = λ fake. fake.watch_method;
    set_method = λ m fake. record fake { watch_method = m };
    invocations = λ fake. fake.invocations;
    set_invocations = λ calls fake. record fake { invocations = calls };
  }

  abbrev pub watch :
      Double X
        (FakeProjectInterface X api)
        (Option api.Context × api.ListOptions)
        (Option api.WatchInterface × Option Error)
  watch = double watch_fields

  abbrev pub watch_args_for_call :
      ℕ → (FakeProjectInterface X api) → Option (Option api.Context × api.ListOptions)
  watch_args_for_call = args_for_call watch_fields
