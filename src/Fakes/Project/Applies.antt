-- ===== src/Fakes/Project/Applies.antt =====
-- The methods that apply a configuration, of `FakeProjectInterface` of
-- internal/external/ocp/ocpfakes/fake_project_interface.go.
use opa_openshift.Base.{ℕ, [], ◌∷◌, Option, Error}
use opa_openshift.Fakes.{Fields, Double, double, args_for_call}
use opa_openshift.Openshift.Api.{Api}
use opa_openshift.Fakes.Boxed.{Any, of_apply_options, of_context, of_project_apply_configuration}
use opa_openshift.Fakes.Project.{FakeProjectInterface}

module _ (X : Type 0) (api : Api) where
  abbrev pub apply_fields :
      Fields X
        (Any api)
        (FakeProjectInterface X api)
        (Option api.Context × Option api.ProjectApplyConfiguration × api.ApplyOptions)
        (Option api.Project × Option Error)
  apply_fields = record {
    name = "Apply";
    box = λ (arg1, arg2, arg3).
        of_context arg1 ∷ of_project_apply_configuration arg2 ∷ of_apply_options arg3 ∷ [];
    method = λ fake. fake.apply_method;
    set_method = λ m fake. record fake { apply_method = m };
    invocations = λ fake. fake.invocations;
    set_invocations = λ calls fake. record fake { invocations = calls };
  }

  abbrev pub apply :
      Double X
        (FakeProjectInterface X api)
        (Option api.Context × Option api.ProjectApplyConfiguration × api.ApplyOptions)
        (Option api.Project × Option Error)
  apply = double apply_fields

  abbrev pub apply_args_for_call :
      ℕ
      → (FakeProjectInterface X api)
      → Option (Option api.Context × Option api.ProjectApplyConfiguration × api.ApplyOptions)
  apply_args_for_call = args_for_call apply_fields

  abbrev pub apply_status_fields :
      Fields X
        (Any api)
        (FakeProjectInterface X api)
        (Option api.Context × Option api.ProjectApplyConfiguration × api.ApplyOptions)
        (Option api.Project × Option Error)
  apply_status_fields = record {
    name = "ApplyStatus";
    box = λ (arg1, arg2, arg3).
        of_context arg1 ∷ of_project_apply_configuration arg2 ∷ of_apply_options arg3 ∷ [];
    method = λ fake. fake.apply_status_method;
    set_method = λ m fake. record fake { apply_status_method = m };
    invocations = λ fake. fake.invocations;
    set_invocations = λ calls fake. record fake { invocations = calls };
  }

  abbrev pub apply_status :
      Double X
        (FakeProjectInterface X api)
        (Option api.Context × Option api.ProjectApplyConfiguration × api.ApplyOptions)
        (Option api.Project × Option Error)
  apply_status = double apply_status_fields

  abbrev pub apply_status_args_for_call :
      ℕ
      → (FakeProjectInterface X api)
      → Option (Option api.Context × Option api.ProjectApplyConfiguration × api.ApplyOptions)
  apply_status_args_for_call = args_for_call apply_status_fields
