-- ===== src/Tests/Configuration.antt =====
-- The configuration's checks and the label matcher on concrete values.
use opa_openshift.Base.{String, true, false, [], ◌∷◌, ◌≡◌, ◌≢◌, ◌⊎◌, ◌↔◌, refl, ok, In, All, filter}
use opa_openshift.Base.Text.{split, join, has_prefix}
use opa_openshift.Base.Path.{join_path, clean, steps, step, up}
use opa_openshift.Config.Flags.{valid_package, valid_rule, package_from, is_name_start, is_word}
use opa_openshift.Config.Flags.Checks.{IsChecked, parse_flags-IsChecked}
use opa_openshift.Config.Flags.Names.{valid_package_iff}
use opa_openshift.Config.Matcher.{
  Selectors, to_matcher, matcher_keys, for_request, viaq_to_otel_migration,
}
use opa_openshift.Config.Matcher.Parse.{IsCut, IsHeadless, to_matcher_keys}
use opa_openshift.Config.Matcher.Request.{IsExempt, for_request-IsExempt}
use opa_openshift.Config.Matcher.Migration.{IsDistinct, dropped_label, migration_keys_iff}
use opa_openshift.Tests.Service.{flags, config, quote, parsed}

parse_flags-IsChecked_example : IsChecked flags config
parse_flags-IsChecked_example = parse_flags-IsChecked quote (ok tt) flags config parsed

abbrev by_otel : Selectors
by_otel = ("k8s_namespace_name", "team-a" ∷ []) ∷ []

keys-IsDistinct : IsDistinct (to_matcher config.opa).keys
unfolding to_matcher matcher_keys split
keys-IsDistinct = (((λ e. cc), tt), (tt, tt))

migration_keys_iff_example :
    In "k8s_namespace_name" (viaq_to_otel_migration (to_matcher config.opa) by_otel).keys ↔ (
      In "k8s_namespace_name" (to_matcher config.opa).keys
      × ("k8s_namespace_name" ≢ dropped_label by_otel))
migration_keys_iff_example =
    migration_keys_iff (to_matcher config.opa) by_otel "k8s_namespace_name" keys-IsDistinct

for_request-IsExempt_example :
    (IsExempt (to_matcher config.opa) "application" ("staff" ∷ "admins" ∷ [])
      → (for_request (to_matcher config.opa) "application" ("staff" ∷ "admins" ∷ [])).keys ≡ [])
    × (¬ IsExempt (to_matcher config.opa) "application" ("staff" ∷ "admins" ∷ [])
        → for_request (to_matcher config.opa) "application" ("staff" ∷ "admins" ∷ [])
          ≡ to_matcher config.opa)
for_request-IsExempt_example =
    for_request-IsExempt (to_matcher config.opa) "application" ("staff" ∷ "admins" ∷ [])

valid_package_iff_example :
    (package_from true "lokistack.v1" ≡ true)
    ↔ All (λ p. valid_rule p ≡ true) (split 46 "lokistack.v1")
valid_package_iff_example = valid_package_iff "lokistack.v1"

abbrev second : String
second = "b"

to_matcher_keys_example :
    IsCut config.opa.matcher (to_matcher config.opa).keys
    ⊎ (((to_matcher config.opa).keys ≡ []) × IsHeadless config.opa.matcher)
to_matcher_keys_example = to_matcher_keys config.opa

-- a leading comma takes the keys behind it away
leading_comma : matcher_keys (split 44 ",kubernetes_namespace_name") ≡ []
unfolding matcher_keys split
leading_comma = refl

package_ok : valid_package "lokistack.v1" ≡ true
unfolding package_from is_name_start is_word
package_ok = refl

package_bad : valid_package "lokistack..v1" ≡ false
unfolding package_from is_name_start is_word
package_bad = refl

home_config : join_path ("/home/jo" ∷ ".kube" ∷ "config" ∷ []) ≡ "/home/jo/.kube/config"
unfolding join_path clean steps step up join split filter has_prefix
home_config = refl

path_up : join_path ("/v1/data" ∷ "../lokistack" ∷ "allow" ∷ []) ≡ "/v1/lokistack/allow"
unfolding join_path clean steps step up join split filter has_prefix
path_up = refl
