-- ===== src/Config/Matcher.antt =====
-- internal/config/matcher.go: the label matcher of a response, its configuration, and what a
-- request turns it into. Here a matcher is a value; pointers and slices, which may share memory,
-- are in Matcher/Aliasing.
pub mod Parse
pub mod Request
pub mod Migration
pub mod Aliasing
use opa_openshift.Base.{
  ℕ, zero, suc, String, Bool, true, false, Option, none, some, List, [], ◌∷◌, ◌==◌, if◌then◌else◌,
  is_nil, length, ◌=?◌,
}
use opa_openshift.Base.Text.{split}
use opa_openshift.Base.Assoc.{Assoc, lookup, put, has}
use opa_openshift.Config.{OpaConfig}

abbrev pub matcher_or : String
matcher_or = "or"

abbrev pub matcher_and : String
matcher_and = "and"

-- `map[string]struct{}`
abbrev pub StringSet : Type 0
StringSet = Assoc (Unit {0})

pub record Matcher : Type 0 where
  pub keys : List String
  pub matcher_op : String
  pub skip_tenants : StringSet
  pub admin_groups : StringSet

-- the loop of `prepareMap`
unfoldable pub add_tokens : StringSet → List String → StringSet
add_tokens skip_map [] = skip_map
add_tokens skip_map (token ∷ tokens) =
    add_tokens (if token == "" then skip_map else put token tt skip_map) tokens

unfoldable pub prepare_map : String → StringSet
prepare_map csv_input = if csv_input == "" then [] else add_tokens [] (split b',' csv_input)

-- `len(keys) > 0 && keys[0] != ""` decides whether the split keys are taken
unfoldable pub matcher_keys : List String → List String
matcher_keys [] = []
matcher_keys (k ∷ ks) = if k == "" then [] else k ∷ ks

unfoldable pub to_matcher : OpaConfig → Matcher
to_matcher c = record {
  keys = matcher_keys (split b',' c.matcher);
  matcher_op = c.matcher_op;
  skip_tenants = prepare_map c.matcher_skip_tenants;
  admin_groups = prepare_map c.matcher_admin_groups;
}

abbrev pub is_empty : Matcher → Bool
is_empty m = is_nil m.keys

abbrev pub is_single : Matcher → Bool
is_single m = length m.keys =? 1

abbrev pub empty_matcher : Matcher
empty_matcher = record { keys = []; matcher_op = ""; skip_tenants = []; admin_groups = [] }

-- the loop of `ForRequest` over the groups: whether one of them is an admin group
unfoldable pub any_admin : StringSet → List String → Bool
any_admin admin_groups [] = false
any_admin admin_groups (group ∷ groups) =
    let rest = any_admin admin_groups groups in if has group admin_groups then true else rest

-- `Clone` copies keys and sets, so as a value it is the matcher itself
abbrev pub clone : Matcher → Matcher
clone m = record {
  keys = m.keys;
  matcher_op = m.matcher_op;
  skip_tenants = m.skip_tenants;
  admin_groups = m.admin_groups;
}

unfoldable pub for_request : Matcher → String → List String → Matcher
for_request m tenant groups =
    if is_empty m
    then m
    else if has tenant m.skip_tenants
    then empty_matcher
    else if any_admin m.admin_groups groups
    then empty_matcher
    else clone m

-- `slices.Index`, with `none` for -1
unfoldable pub index : List String → String → Option ℕ
index [] v = none
index (x ∷ xs) v =
    let rest = index xs v in
    if x == v then some 0 else elim rest [ none ↦ none | some i ↦ some (suc i) ]

-- `slices.Delete(s, i, i+1)`
unfoldable pub delete : List String → ℕ → List String
delete [] i = []
delete (x ∷ xs) zero = xs
delete (x ∷ xs) (suc i) = x ∷ delete xs i

-- `if i := slices.Index(keys, label); i != -1 { keys = slices.Delete(keys, i, i+1) }`
unfoldable pub delete_key : String → List String → List String
delete_key label keys = elim (index keys label) [ none ↦ keys | some i ↦ delete keys i ]

abbrev pub viaq_label : String
viaq_label = "kubernetes_namespace_name"

abbrev pub otel_label : String
otel_label = "k8s_namespace_name"

abbrev pub Selectors : Type 0
Selectors = Assoc (List String)

-- `vals, ok := selectors[label]; ok && len(vals) > 0`
unfoldable pub selects : Selectors → String → Bool
unfolding lookup
selects selectors label = elim (lookup label selectors) [
  | none ↦ false
  | some vals ↦ elim (is_nil vals) [ true ↦ false | false ↦ true ]
]

unfoldable pub viaq_to_otel_migration : Matcher → Selectors → Matcher
viaq_to_otel_migration m selectors =
    if selects selectors otel_label
    then record m { keys = delete_key viaq_label m.keys }
    else record m { keys = delete_key otel_label m.keys }
