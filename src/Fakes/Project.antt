-- ===== src/Fakes/Project.antt =====
-- `FakeProjectInterface` of internal/external/ocp/ocpfakes/fake_project_interface.go:
-- a double of the interface, method by method.
pub mod Applies
pub mod Writes
pub mod Reads
use opa_openshift.Base.{ℕ, String, List, [], ◌∷◌, Option, none, Error}
use opa_openshift.Fakes.{
  Method, Recorded, Fields, Double, double, args_for_call, copied_invocations, fresh,
}
use opa_openshift.Openshift.Api.{Api}
use opa_openshift.Fakes.Boxed.{
  Any, of_apply_options, of_bytes, of_context, of_create_options, of_delete_options, of_get_options,
  of_list_options, of_patch_options, of_patch_type, of_project, of_project_apply_configuration,
  of_string, of_strings, of_update_options,
}

module _ (X : Type 0) (api : Api) where
  pub record FakeProjectInterface : Type 0 where
    pub apply_method :
        Method X
          (Option api.Context × Option api.ProjectApplyConfiguration × api.ApplyOptions)
          (Option api.Project × Option Error)
    pub apply_status_method :
        Method X
          (Option api.Context × Option api.ProjectApplyConfiguration × api.ApplyOptions)
          (Option api.Project × Option Error)
    pub create_method :
        Method X
          (Option api.Context × Option api.Project × api.CreateOptions)
          (Option api.Project × Option Error)
    pub delete_method : Method X (Option api.Context × String × api.DeleteOptions) (Option Error)
    pub delete_collection_method :
        Method X (Option api.Context × api.DeleteOptions × api.ListOptions) (Option Error)
    pub get_method :
        Method X (Option api.Context × String × api.GetOptions) (Option api.Project × Option Error)
    pub list_method :
        Method X (Option api.Context × api.ListOptions) (Option api.ProjectList × Option Error)
    pub patch_method :
        Method X
          (Option api.Context × String × api.PatchType × List ℕ × api.PatchOptions × List String)
          (Option api.Project × Option Error)
    pub update_method :
        Method X
          (Option api.Context × Option api.Project × api.UpdateOptions)
          (Option api.Project × Option Error)
    pub update_status_method :
        Method X
          (Option api.Context × Option api.Project × api.UpdateOptions)
          (Option api.Project × Option Error)
    pub watch_method :
        Method X (Option api.Context × api.ListOptions) (Option api.WatchInterface × Option Error)
    pub invocations : Recorded (Any api)

  abbrev pub new : FakeProjectInterface
  new = record {
    apply_method = fresh (none, none);
    apply_status_method = fresh (none, none);
    create_method = fresh (none, none);
    delete_method = fresh none;
    delete_collection_method = fresh none;
    get_method = fresh (none, none);
    list_method = fresh (none, none);
    patch_method = fresh (none, none);
    update_method = fresh (none, none);
    update_status_method = fresh (none, none);
    watch_method = fresh (none, none);
    invocations = [];
  }

  abbrev pub all_invocations : FakeProjectInterface → Recorded (Any api)
  all_invocations fake = copied_invocations fake.invocations
