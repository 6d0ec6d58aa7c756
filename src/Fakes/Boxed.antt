-- ===== src/Fakes/Boxed.antt =====
-- `interface{}`, as the doubles of internal/external record the arguments of their calls.
use opa_openshift.Base.{ℕ, String, List, Option}
use opa_openshift.Openshift.Api.{Api}

-- The boxed arguments of the calls.
pub data Any (api : Api) : Type 0 where
  of_apply_options : api.ApplyOptions → Any api
  of_bytes : List ℕ → Any api
  of_context : Option api.Context → Any api
  of_create_options : api.CreateOptions → Any api
  of_delete_options : api.DeleteOptions → Any api
  of_get_options : api.GetOptions → Any api
  of_list_options : api.ListOptions → Any api
  of_patch_options : api.PatchOptions → Any api
  of_patch_type : api.PatchType → Any api
  of_project : Option api.Project → Any api
  of_project_apply_configuration : Option api.ProjectApplyConfiguration → Any api
  of_self_subject_access_review : Option api.SelfSubjectAccessReview → Any api
  of_string : String → Any api
  of_strings : List String → Any api
  of_subject_access_review : Option api.SubjectAccessReview → Any api
  of_update_options : api.UpdateOptions → Any api
