-- ===== src/Tests/Keys.antt =====
-- Cache keys of concrete requests.
use opa_openshift.Base.{
  String, true, some, List, [], ◌∷◌, ◌≡◌, refl, ◌=?◌, ◌||◌, code, ◌<>◌, arith, Bool-cases, inl, inr,
}
use mathlib.Core.List.{Perm}
use mathlib.Core.List.Perm
use opa_openshift.Base.Text.{Lacks}
use opa_openshift.Base.Sort.{sort, insert, str_leb}
use opa_openshift.Authorizer.{Query}
use opa_openshift.Authorizer.Key.{concat, hash_matcher, generate_cache_key}
use opa_openshift.Authorizer.Key.Order.{generate_cache_key-perm}
use opa_openshift.Authorizer.Key.Injective.{IsPlain, Agree, digest_input, generate_cache_key_inj}
use opa_openshift.Authorizer.Key.Collision.{groups_ambiguous}
use opa_openshift.Tests.Samples.{hex, ns_matcher, read_of}

abbrev both_groups : Query
both_groups = read_of "jo" ("dev" ∷ "ops" ∷ []) ("team-a" ∷ [])

abbrev one_group : Query
one_group = read_of "jo" ("devops" ∷ []) ("team-a" ∷ [])

generate_cache_key-perm_example :
    (generate_cache_key hex (record both_groups { groups = "dev" ∷ "ops" ∷ [] }) (some ns_matcher)
      ≡ generate_cache_key hex
          (record both_groups { groups = "ops" ∷ "dev" ∷ [] })
          (some ns_matcher))
    × Perm
        (generate_cache_key hex
          (record both_groups { groups = "dev" ∷ "ops" ∷ [] })
          (some ns_matcher)).1.groups
        ("dev" ∷ "ops" ∷ [])
generate_cache_key-perm_example =
    generate_cache_key-perm hex both_groups ("dev" ∷ "ops" ∷ []) ("ops" ∷ "dev" ∷ []) ns_matcher
      ns_matcher (Perm.swap "ops" "dev" []) (Perm.refl ("kubernetes_namespace_name" ∷ []))

dev_first : str_leb "dev" "ops" ≡ true
unfolding str_leb
dev_first = refl

groups_ambiguous_example :
    (generate_cache_key hex
      (record both_groups { groups = "dev" ∷ "ops" ∷ [] })
      (some ns_matcher)).0
    ≡ (generate_cache_key hex
        (record both_groups { groups = ("dev" <> "ops") ∷ [] })
        (some ns_matcher)).0
groups_ambiguous_example = groups_ambiguous hex both_groups ns_matcher "dev" "ops" dev_first

hex_plain : (s : String) → Lacks b',' (hex s) × Lacks b':' (hex s)
hex_plain String.[] = (tt, tt)
hex_plain (String.◌∷◌ c s) = elim (Bool-cases ((code c =? b',') || (code c =? b':'))) [
  | inl e ↦ rw (e, hex) (ground (arith, hex_plain s))
  | inr e ↦ rw (e, hex) (ground (arith, hex_plain s))
]

read_of-IsPlain : (groups : List String) → IsPlain (read_of "jo" groups ("team-a" ∷ []))
read_of-IsPlain groups = record {
  verb = omega arith;
  api_group = omega arith;
  resource_name = omega arith;
  resource = omega arith;
  user = omega arith;
  namespaces = omega arith;
  namespaces_colon = omega arith;
  namespaces_nil = ((λ e. cc), tt);
}

same_hash :
    hex (digest_input both_groups) ≡ hex (digest_input one_group)
    → digest_input both_groups ≡ digest_input one_group
unfolding concat sort insert str_leb
same_hash e = refl

same_key :
    (generate_cache_key hex both_groups (some ns_matcher)).0
    ≡ (generate_cache_key hex one_group (some ns_matcher)).0
same_key = groups_ambiguous hex both_groups ns_matcher "dev" "ops" dev_first

generate_cache_key_inj_example :
    Agree both_groups one_group
    × (hash_matcher hex (some ns_matcher) ≡ hash_matcher hex (some ns_matcher))
generate_cache_key_inj_example =
    generate_cache_key_inj hex hex_plain both_groups one_group ns_matcher ns_matcher
      (read_of-IsPlain ("dev" ∷ "ops" ∷ [])) (read_of-IsPlain ("devops" ∷ [])) same_hash same_key
