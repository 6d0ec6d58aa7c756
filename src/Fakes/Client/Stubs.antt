-- ===== src/Fakes/Client/Stubs.antt =====
-- Stubs with which the doubles of internal/external answer as an API server does.
use opa_openshift.Base.{String, Bool, List, snoc, Option, none, some, Error, Result, ok, err, ◌≡◌}
use opa_openshift.Openshift.Api.{Api}
use opa_openshift.Openshift.Interfaces.{Kinds}
use opa_openshift.Openshift.Reviews.{
  ResourceAttributes, Review, of_subject, of_self, Trace, reviewed, listed, Cluster,
}
use opa_openshift.Fakes.Answers.{IsReturning}
use opa_openshift.Fakes.Authorization.{
  subject_access_reviews_fields, self_subject_access_reviews_fields,
}
use opa_openshift.Fakes.ClientSet.{authorization_v1_fields}
use opa_openshift.Fakes.ProjectClient.{projects_fields}
use opa_openshift.Fakes.Client.{one_each, World}

-- How a stub reads a review and fills in its status, and what it lists.
pub record Stubs {api : Api} (kinds : Kinds api) : Type 0 where
  pub subject_of : api.SubjectAccessReview → Review
  pub subject_of-new :
      (user : String) (groups : List String) (a : ResourceAttributes)
      → subject_of (kinds.new_subject_review user groups a) ≡ of_subject user groups a
  pub set_subject : Bool → api.SubjectAccessReview → api.SubjectAccessReview
  pub allowed-set_subject :
      (b : Bool) (s : api.SubjectAccessReview) → kinds.subject_allowed (set_subject b s) ≡ b
  pub self_of : api.SelfSubjectAccessReview → Review
  pub self_of-new : (a : ResourceAttributes) → self_of (kinds.new_self_review a) ≡ of_self a
  pub set_self : Bool → api.SelfSubjectAccessReview → api.SelfSubjectAccessReview
  pub allowed-set_self :
      (b : Bool) (s : api.SelfSubjectAccessReview) → kinds.self_allowed (set_self b s) ≡ b
  pub new_project_list : List String → api.ProjectList
  pub names-new_project_list : (ns : List String) → kinds.project_names (new_project_list ns) ≡ ns

-- A stub's two results, for an answer of the API server.
abbrev pub pair_of : {A R : Type 0} → (A → R) → Result A → Option R × Option Error
pair_of f (ok a) = (some (f a), none)
pair_of f (err e) = (none, some e)

module _ {api : Api} {kinds : Kinds api} (stubs : Stubs kinds) (cluster : Cluster) where
  abbrev pub subject_stub :
      Option api.Context × Option api.SubjectAccessReview × api.CreateOptions
      → Trace
      → (Option api.SubjectAccessReview × Option Error) × Trace
  subject_stub (ctx, none, opts) t = ((none, none), t)
  subject_stub (ctx, some s, opts) t =
      let r = stubs.subject_of s in
      (
        pair_of (λ b. stubs.set_subject b s) (cluster.review t r),
        snoc t (reviewed r (cluster.review t r)),
      )

  abbrev pub self_stub :
      Option api.Context × Option api.SelfSubjectAccessReview × api.CreateOptions
      → Trace
      → (Option api.SelfSubjectAccessReview × Option Error) × Trace
  self_stub (ctx, none, opts) t = ((none, none), t)
  self_stub (ctx, some s, opts) t =
      let r = stubs.self_of s in
      (
        pair_of (λ b. stubs.set_self b s) (cluster.review t r),
        snoc t (reviewed r (cluster.review t r)),
      )

  abbrev pub list_stub :
      Option api.Context × api.ListOptions → Trace → (Option api.ProjectList × Option Error) × Trace
  list_stub args t =
      (pair_of stubs.new_project_list (cluster.projects t), snoc t (listed (cluster.projects t)))

  -- The doubles return each other, and those for reviews and lists ask the API server.
  abbrev pub IsSetUp : World Trace api → Type 0
  IsSetUp w =
      IsReturning (authorization_v1_fields Trace (one_each api)) (some tt) w.client_set
      × IsReturning (subject_access_reviews_fields Trace (one_each api)) (some tt) w.authorization
      × IsReturning (self_subject_access_reviews_fields Trace (one_each api)) (some tt)
          w.authorization
      × (w.subject_review.create_method.stub ≡ some subject_stub)
      × (w.self_review.create_method.stub ≡ some self_stub)
      × IsReturning (projects_fields Trace (one_each api)) (some tt) w.project_client
      × (w.project.list_method.stub ≡ some list_stub)
