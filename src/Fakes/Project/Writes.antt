-- ===== src/Fakes/Project/Writes.antt =====
-- The methods that write, of `FakeProjectInterface` of
-- internal/external/ocp/ocpfakes/fake_project_interface.go.
use opa_openshift.Base.{ℕ, String, List, [], ◌∷◌, Option, Error}
use opa_openshift.Fakes.{Fields, Double, double, args_for_call}
use opa_openshift.Openshift.Api.{Api}
use opa_openshift.Fakes.Boxed.{
  Any, of_bytes, of_context, of_create_options, of_delete_options, of_list_options,
  of_patch_options, of_patch_type, of_project, of_string, of_strings, of_update_options,
}
use opa_openshift.Fakes.Project.{FakeProjectInterface}

module _ (X : Type 0) (api : Api) where
  abbrev pub create_fields :
      Fields X
        (Any api)
        (FakeProjectInterface X api)
        (Option api.Context × Option api.Project × api.CreateOptions)
        (Option api.Project × Option Error)
  create_fields = record {
    name = "Create";
    box = λ (arg1, arg2, arg3). of_context arg1 ∷ of_project arg2 ∷ of_create_options arg3 ∷ [];
    method = λ fake. fake.create_method;
    set_method = λ m fake. record fake { create_method = m };
    invocations = λ fake. fake.invocations;
    set_invocations = λ calls fake. record fake { invocations = calls };
  }

  abbrev pub create :
      Double X
        (FakeProjectInterface X api)
        (Option api.Context × Option api.Project × api.CreateOptions)
        (Option api.Project × Option Error)
  create = double create_fields

  abbrev pub create_args_for_call :
      ℕ
      → (FakeProjectInterface X api)
      → Option (Option api.Context × Option api.Project × api.CreateOptions)
  create_args_for_call = args_for_call create_fields

  abbrev pub delete_fields :
      Fields X
        (Any api)
        (FakeProjectInterface X api)
        (Option api.Context × String × api.DeleteOptions)
        (Option Error)
  delete_fields = record {
    name = "Delete";
    box = λ (arg1, arg2, arg3). of_context arg1 ∷ of_string arg2 ∷ of_delete_options arg3 ∷ [];
    method = λ fake. fake.delete_method;
    set_method = λ m fake. record fake { delete_method = m };
    invocations = λ fake. fake.invocations;
    set_invocations = λ calls fake. record fake { invocations = calls };
  }

  abbrev pub delete :
      Double X
        (FakeProjectInterface X api)
        (Option api.Context × String × api.DeleteOptions)
        (Option Error)
  delete = double delete_fields

  abbrev pub delete_args_for_call :
      ℕ → (FakeProjectInterface X api) → Option (Option api.Context × String × api.DeleteOptions)
  delete_args_for_call = args_for_call delete_fields

  abbrev pub delete_collection_fields :
      Fields X
        (Any api)
        (FakeProjectInterface X api)
        (Option api.Context × api.DeleteOptions × api.ListOptions)
        (Option Error)
  delete_collection_fields = record {
    name = "DeleteCollection";
    box =
        λ (arg1, arg2, arg3). of_context arg1 ∷ of_delete_options arg2 ∷ of_list_options arg3 ∷ [];
    method = λ fake. fake.delete_collection_method;
    set_method = λ m fake. record fake { delete_collection_method = m };
    invocations = λ fake. fake.invocations;
    set_invocations = λ calls fake. record fake { invocations = calls };
  }

  abbrev pub delete_collection :
      Double X
        (FakeProjectInterface X api)
        (Option api.Context × api.DeleteOptions × api.ListOptions)
        (Option Error)
  delete_collection = double delete_collection_fields

  abbrev pub delete_collection_args_for_call :
      ℕ
      → (FakeProjectInterface X api)
      → Option (Option api.Context × api.DeleteOptions × api.ListOptions)
  delete_collection_args_for_call = args_for_call delete_collection_fields

  abbrev pub patch_fields :
      Fields X
        (Any api)
        (FakeProjectInterface X api)
        (Option api.Context × String × api.PatchType × List ℕ × api.PatchOptions × List String)
        (Option api.Project × Option Error)
  patch_fields = record {
    name = "Patch";
    box = λ (arg1, arg2, arg3, arg4, arg5, arg6).
        of_context arg1
        ∷ of_string arg2
        ∷ of_patch_type arg3
        ∷ of_bytes arg4
        ∷ of_patch_options arg5
        ∷ of_strings arg6
        ∷ [];
    method = λ fake. fake.patch_method;
    set_method = λ m fake. record fake { patch_method = m };
    invocations = λ fake. fake.invocations;
    set_invocations = λ calls fake. record fake { invocations = calls };
  }

  abbrev pub patch :
      Double X
        (FakeProjectInterface X api)
        (Option api.Context × String × api.PatchType × List ℕ × api.PatchOptions × List String)
        (Option api.Project × Option Error)
  patch = double patch_fields

  abbrev pub patch_args_for_call :
      ℕ
      → (FakeProjectInterface X api)
      → Option
          (Option api.Context × String × api.PatchType × List ℕ × api.PatchOptions × List String)
  patch_args_for_call = args_for_call patch_fields

  abbrev pub update_fields :
      Fields X
        (Any api)
        (FakeProjectInterface X api)
        (Option api.Context × Option api.Project × api.UpdateOptions)
        (Option api.Project × Option Error)
  update_fields = record {
    name = "Update";
    box = λ (arg1, arg2, arg3). of_context arg1 ∷ of_project arg2 ∷ of_update_options arg3 ∷ [];
    method = λ fake. fake.update_method;
    set_method = λ m fake. record fake { update_method = m };
    invocations = λ fake. fake.invocations;
    set_invocations = λ calls fake. record fake { invocations = calls };
  }

  abbrev pub update :
      Double X
        (FakeProjectInterface X api)
        (Option api.Context × Option api.Project × api.UpdateOptions)
        (Option api.Project × Option Error)
  update = double update_fields

  abbrev pub update_args_for_call :
      ℕ
      → (FakeProjectInterface X api)
      → Option (Option api.Context × Option api.Project × api.UpdateOptions)
  update_args_for_call = args_for_call update_fields

  abbrev pub update_status_fields :
      Fields X
        (Any api)
        (FakeProjectInterface X api)
        (Option api.Context × Option api.Project × api.UpdateOptions)
        (Option api.Project × Option Error)
  update_status_fields = record {
    name = "UpdateStatus";
    box = λ (arg1, arg2, arg3). of_context arg1 ∷ of_project arg2 ∷ of_update_options arg3 ∷ [];
    method = λ fake. fake.update_status_method;
    set_method = λ m fake. record fake { update_status_method = m };
    invocations = λ fake. fake.invocations;
    set_invocations = λ calls fake. record fake { invocations = calls };
  }

  abbrev pub update_status :
      Double X
        (FakeProjectInterface X api)
        (Option api.Context × Option api.Project × api.UpdateOptions)
        (Option api.Project × Option Error)
  update_status = double update_status_fields

  abbrev pub update_status_args_for_call :
      ℕ
      → (FakeProjectInterface X api)
      → Option (Option api.Context × Option api.Project × api.UpdateOptions)
  update_status_args_for_call = args_for_call update_status_fields
