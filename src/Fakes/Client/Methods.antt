-- ===== src/Fakes/Client/Methods.antt =====
-- The fields of the doubles of internal/external that the client of internal/openshift/client.go
-- reaches do not overlap.
use opa_openshift.Base.{refl}
use opa_openshift.Openshift.Api.{Api}
use opa_openshift.Fakes.Invocations.{FieldsLaws, IsApart}
use opa_openshift.Fakes.Authorization.{
  subject_access_reviews_fields, self_subject_access_reviews_fields,
}
use opa_openshift.Fakes.ClientSet.{authorization_v1_fields}
use opa_openshift.Fakes.ProjectClient.{projects_fields}
use opa_openshift.Fakes.Project.Reads.{list_fields}

module _ (X : Type 0) (api : Api) where
  pub authorization_v1-FieldsLaws : FieldsLaws (authorization_v1_fields X api)
  authorization_v1-FieldsLaws = record {
    method-set_method = λ m f. refl;
    method-set_invocations = λ c f. refl;
    invocations-set_method = λ m f. refl;
    invocations-set_invocations = λ c f. refl;
  }

  pub subject_access_reviews-FieldsLaws : FieldsLaws (subject_access_reviews_fields X api)
  subject_access_reviews-FieldsLaws = record {
    method-set_method = λ m f. refl;
    method-set_invocations = λ c f. refl;
    invocations-set_method = λ m f. refl;
    invocations-set_invocations = λ c f. refl;
  }

  pub self_subject_access_reviews-FieldsLaws : FieldsLaws (self_subject_access_reviews_fields X api)
  self_subject_access_reviews-FieldsLaws = record {
    method-set_method = λ m f. refl;
    method-set_invocations = λ c f. refl;
    invocations-set_method = λ m f. refl;
    invocations-set_invocations = λ c f. refl;
  }

  pub projects-FieldsLaws : FieldsLaws (projects_fields X api)
  projects-FieldsLaws = record {
    method-set_method = λ m f. refl;
    method-set_invocations = λ c f. refl;
    invocations-set_method = λ m f. refl;
    invocations-set_invocations = λ c f. refl;
  }

  pub list-FieldsLaws : FieldsLaws (list_fields X api)
  list-FieldsLaws = record {
    method-set_method = λ m f. refl;
    method-set_invocations = λ c f. refl;
    invocations-set_method = λ m f. refl;
    invocations-set_invocations = λ c f. refl;
  }

  pub subject_create-FieldsLaws : FieldsLaws (opa_openshift.Fakes.SubjectReview.create_fields X api)
  subject_create-FieldsLaws = record {
    method-set_method = λ m f. refl;
    method-set_invocations = λ c f. refl;
    invocations-set_method = λ m f. refl;
    invocations-set_invocations = λ c f. refl;
  }

  pub self_create-FieldsLaws : FieldsLaws (opa_openshift.Fakes.SelfReview.create_fields X api)
  self_create-FieldsLaws = record {
    method-set_method = λ m f. refl;
    method-set_invocations = λ c f. refl;
    invocations-set_method = λ m f. refl;
    invocations-set_invocations = λ c f. refl;
  }

  pub subject_access_reviews-IsApart :
      IsApart (subject_access_reviews_fields X api) (self_subject_access_reviews_fields X api)
  subject_access_reviews-IsApart = record {
    names = λ e. cc;
    method-set_method = λ m f. refl;
    method-set_invocations = λ c f. refl;
    same_invocations = λ f. refl;
    invocations-set_method = λ m f. refl;
    invocations-set_invocations = λ c f. refl;
  }

  pub self_subject_access_reviews-IsApart :
      IsApart (self_subject_access_reviews_fields X api) (subject_access_reviews_fields X api)
  self_subject_access_reviews-IsApart = record {
    names = λ e. cc;
    method-set_method = λ m f. refl;
    method-set_invocations = λ c f. refl;
    same_invocations = λ f. refl;
    invocations-set_method = λ m f. refl;
    invocations-set_invocations = λ c f. refl;
  }
