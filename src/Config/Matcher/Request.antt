-- ===== src/Config/Matcher/Request.antt =====
-- When `ForRequest` of internal/config/matcher.go drops the matcher of a request.
use opa_openshift.Base.{
  String, true, List, [], ◌∷◌, ◌≡◌, ◌⊎◌, inl, inr, refl, arith, In, Bool-cases,
}
use opa_openshift.Base.Assoc.{has}
use opa_openshift.Config.Matcher.{Matcher, StringSet, any_admin, for_request}

any_admin_sound :
    (s : StringSet) (gs : List String)
    → any_admin s gs ≡ true
    → (g : String) × In g gs × (has g s ≡ true)
unfolding any_admin
any_admin_sound s [] h = cc
any_admin_sound s (g ∷ gs) h = elim (Bool-cases (has g s)) [
  | inl e ↦ (g, inl refl, e)
  | inr e ↦ let (x, i, t) = any_admin_sound s gs (ground arith) in (x, inr i, t)
]

any_admin_complete :
    (s : StringSet) (gs : List String) (g : String)
    → In g gs
    → has g s ≡ true
    → any_admin s gs ≡ true
unfolding any_admin
any_admin_complete s [] g i h = absurd i
any_admin_complete s (x ∷ gs) g i h = ground (arith, any_admin_complete s gs g)

-- The request is exempt: its tenant is to be skipped, or one of its groups is an admin group.
abbrev pub IsExempt : Matcher → String → List String → Type 0
IsExempt m tenant groups =
    (has tenant m.skip_tenants ≡ true)
    ⊎ ((g : String) × In g groups × (has g m.admin_groups ≡ true))

keys_of_exempt :
    (m : Matcher) (tenant : String) (groups : List String)
    → IsExempt m tenant groups
    → (for_request m tenant groups).keys ≡ []
unfolding for_request
keys_of_exempt m tenant groups (inl e) = ground arith
keys_of_exempt m tenant groups (inr (g, i, e)) =
    ground (arith, any_admin_complete m.admin_groups groups g i e)

matcher_of_not_exempt :
    (m : Matcher) (tenant : String) (groups : List String)
    → ¬ IsExempt m tenant groups
    → for_request m tenant groups ≡ m
unfolding for_request
matcher_of_not_exempt m tenant groups h =
    let skip : ¬ (has tenant m.skip_tenants ≡ true) = λ e. h (inl e) in
    let admin : ¬ (any_admin m.admin_groups groups ≡ true) =
      λ e. h (inr (any_admin_sound m.admin_groups groups e)) in
    ground arith

-- A request of a tenant to be skipped, or of a member of an admin group, gets no keys; any other
-- request gets the configured matcher whole.
pub for_request-IsExempt :
    (m : Matcher) (tenant : String) (groups : List String)
    → (IsExempt m tenant groups → (for_request m tenant groups).keys ≡ [])
      × (¬ IsExempt m tenant groups → for_request m tenant groups ≡ m)
for_request-IsExempt m tenant groups =
    (keys_of_exempt m tenant groups, matcher_of_not_exempt m tenant groups)

-- The converse for `IsEmpty`: no keys come from no configured keys, or from an exemption.
pub IsExempt-of_empty :
    (m : Matcher) (tenant : String) (groups : List String)
    → (for_request m tenant groups).keys ≡ []
    → (m.keys ≡ []) ⊎ IsExempt m tenant groups
unfolding for_request
IsExempt-of_empty m tenant groups h = elim (Bool-cases (any_admin m.admin_groups groups)) [
  | inl e ↦ inr (inr (any_admin_sound m.admin_groups groups e))
  | inr e ↦ ground arith
]
