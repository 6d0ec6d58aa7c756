-- ===== src/Openshift/Api.antt =====
-- The types of client-go and of OpenShift's client that internal/external names: a parameter. A
-- pointer to one of them, or an interface, may be nil and is an `Option`.
pub record Api : Type 1 where
  pub ApplyOptions : Type 0
  pub AuthenticationV1Interface : Type 0
  pub AuthorizationV1Interface : Type 0
  pub Context : Type 0
  pub CreateOptions : Type 0
  pub DeleteOptions : Type 0
  pub GetOptions : Type 0
  pub ListOptions : Type 0
  pub LocalSubjectAccessReviewInterface : Type 0
  pub PatchOptions : Type 0
  pub PatchType : Type 0
  pub Project : Type 0
  pub ProjectApplyConfiguration : Type 0
  pub ProjectInterface : Type 0
  pub ProjectList : Type 0
  pub RestInterface : Type 0
  pub SelfSubjectAccessReview : Type 0
  pub SelfSubjectAccessReviewInterface : Type 0
  pub SelfSubjectRulesReviewInterface : Type 0
  pub SubjectAccessReview : Type 0
  pub SubjectAccessReviewInterface : Type 0
  pub UpdateOptions : Type 0
  pub WatchInterface : Type 0
