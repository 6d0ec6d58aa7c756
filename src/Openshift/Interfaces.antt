-- ===== src/Openshift/Interfaces.antt =====
-- The interfaces of internal/external/k8s/client.go and internal/external/ocp/client.go, and the
-- calls that internal/openshift/client.go makes through them. The types of client-go that they
-- name are those of the parameter `Api`; W is the state that the calls change.
use opa_openshift.Base.{
  ℕ, String, Bool, List, Option, none, some, Error, Result, ok, err, context, if◌then◌else◌,
}
use opa_openshift.Openshift.Api.{Api}
use opa_openshift.Openshift.{Access}
use opa_openshift.Openshift.Reviews.{ResourceAttributes, attributes}

module _ (api : Api) (W : Type 0) where
  pub record SubjectAccessReviewInterface : Type 0 where
    pub create :
        Option api.Context × Option api.SubjectAccessReview × api.CreateOptions
        → W
        → (Option api.SubjectAccessReview × Option Error) × W

  pub record SelfSubjectAccessReviewInterface : Type 0 where
    pub create :
        Option api.Context × Option api.SelfSubjectAccessReview × api.CreateOptions
        → W
        → (Option api.SelfSubjectAccessReview × Option Error) × W

  -- The results are interfaces, which may be nil.
  pub record AuthorizationV1Interface : Type 0 where
    pub subject_access_reviews : W → Option SubjectAccessReviewInterface × W
    pub local_subject_access_reviews : String → W → Option api.LocalSubjectAccessReviewInterface × W
    pub self_subject_access_reviews : W → Option SelfSubjectAccessReviewInterface × W
    pub self_subject_rules_reviews : W → Option api.SelfSubjectRulesReviewInterface × W
    pub rest_client : W → Option api.RestInterface × W

  pub record ClientSet : Type 0 where
    pub authentication_v1 : W → Option api.AuthenticationV1Interface × W
    pub authorization_v1 : W → Option AuthorizationV1Interface × W

  pub record ProjectInterface : Type 0 where
    pub create :
        Option api.Context × Option api.Project × api.CreateOptions
        → W
        → (Option api.Project × Option Error) × W
    pub update :
        Option api.Context × Option api.Project × api.UpdateOptions
        → W
        → (Option api.Project × Option Error) × W
    pub update_status :
        Option api.Context × Option api.Project × api.UpdateOptions
        → W
        → (Option api.Project × Option Error) × W
    pub delete : Option api.Context × String × api.DeleteOptions → W → Option Error × W
    pub delete_collection :
        Option api.Context × api.DeleteOptions × api.ListOptions → W → Option Error × W
    pub get :
        Option api.Context × String × api.GetOptions → W → (Option api.Project × Option Error) × W
    pub list :
        Option api.Context × api.ListOptions → W → (Option api.ProjectList × Option Error) × W
    pub watch :
        Option api.Context × api.ListOptions → W → (Option api.WatchInterface × Option Error) × W
    pub patch :
        Option api.Context × String × api.PatchType × List ℕ × api.PatchOptions × List String
        → W
        → (Option api.Project × Option Error) × W
    pub apply :
        Option api.Context × Option api.ProjectApplyConfiguration × api.ApplyOptions
        → W
        → (Option api.Project × Option Error) × W
    pub apply_status :
        Option api.Context × Option api.ProjectApplyConfiguration × api.ApplyOptions
        → W
        → (Option api.Project × Option Error) × W

  pub record ProjectV1Client : Type 0 where
    pub projects : W → Option ProjectInterface × W

  -- `client`
  pub record Connected : Type 0 where
    pub k8s_client : ClientSet
    pub project_client : ProjectV1Client
    pub ssar : Bool

-- How the program builds and reads the values of client-go: the constants that it passes, a
-- review from its specification, the answer in a review's status, the names in a list.
pub record Kinds (api : Api) : Type 0 where
  pub todo : Option api.Context
  pub create_options : api.CreateOptions
  pub list_options : api.ListOptions
  pub new_subject_review : String → List String → ResourceAttributes → api.SubjectAccessReview
  pub subject_allowed : api.SubjectAccessReview → Bool
  pub new_self_review : ResourceAttributes → api.SelfSubjectAccessReview
  pub self_allowed : api.SelfSubjectAccessReview → Bool
  pub project_names : api.ProjectList → List String

-- The pair that a call of client-go returns; none is a panic, on a nil pointer.
abbrev pub checked : {R A : Type 0} → String → (R → A) → Option R × Option Error → Option (Result A)
checked text read (res, some e) = some (context text (err e))
checked text read (some r, none) = some (ok (read r))
checked text read (none, none) = none

module _ {api : Api} {W : Type 0} (kinds : Kinds api) (c : Connected api W) where
  unfoldable pub subject_access_review_through : Access → W → Option (Result Bool) × W
  subject_access_review_through a w =
      let (authorization, w1) = c.k8s_client.authorization_v1 w in
      elim authorization [
        | none ↦ (none, w1)
        | some z ↦
            let (reviews, w2) = z.subject_access_reviews w1 in
            elim reviews [
              | none ↦ (none, w2)
              | some s ↦
                  let review = kinds.new_subject_review a.user a.groups (attributes a) in
                  let (out, w3) = s.create (kinds.todo, some review, kinds.create_options) w2 in
                  (checked "failed to create subject access review" kinds.subject_allowed out, w3)
            ]
      ]

  unfoldable pub self_subject_access_review_through : Access → W → Option (Result Bool) × W
  self_subject_access_review_through a w =
      let (authorization, w1) = c.k8s_client.authorization_v1 w in
      elim authorization [
        | none ↦ (none, w1)
        | some z ↦
            let (reviews, w2) = z.self_subject_access_reviews w1 in
            elim reviews [
              | none ↦ (none, w2)
              | some s ↦
                  let review = kinds.new_self_review (attributes a) in
                  let (out, w3) = s.create (kinds.todo, some review, kinds.create_options) w2 in
                  (checked "failed to create self subject access review" kinds.self_allowed out, w3)
            ]
      ]

  unfoldable pub access_review_through : Access → W → Option (Result Bool) × W
  access_review_through a w =
      if c.ssar then self_subject_access_review_through a w else subject_access_review_through a w

  unfoldable pub list_namespaces_through : W → Option (Result (List String)) × W
  list_namespaces_through w =
      let (projects, w1) = c.project_client.projects w in
      elim projects [
        | none ↦ (none, w1)
        | some p ↦
            let (out, w2) = p.list (kinds.todo, kinds.list_options) w1 in
            (checked "failed to list projects" kinds.project_names out, w2)
      ]
