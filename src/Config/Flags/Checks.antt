-- ===== src/Config/Flags/Checks.antt =====
-- What a configuration that `ParseFlags` of internal/config/config.go returns is known to satisfy.
use opa_openshift.Base.{
  String, true, Option, none, some, List, [], ◌∷◌, ◌≡◌, ◌⊎◌, inl, inr, refl, arith, sym, subst, ◌∙◌,
  eq_iff, In, Option-cases, Error, Result, ok, err, err-ne-ok, context, ◌<>◌, Result-cases,
}
use opa_openshift.Base.Text.{split, join, join-split, contains}
use opa_openshift.Base.Assoc.{Assoc, lookup, put, lookup-put}
use opa_openshift.Config.{Config, LogLevel}
use opa_openshift.Config.Matcher.{viaq_label, otel_label}
use opa_openshift.Config.Flags.{
  RawFlags, valid_rule, valid_package, parse_log_level, two_parts, add_mappings, check_viaq,
  returned, parse_mappings, check_names, set_parsed, parse_flags,
}

two_parts_sound :
    (parts : List String) (k v : String)
    → two_parts parts ≡ some (k, v)
    → join "=" parts ≡ k <> "=" <> v
unfolding two_parts join
two_parts_sound [] k v h = cc
two_parts_sound (p ∷ []) k v h = cc
two_parts_sound (p ∷ q ∷ []) k v h = ground arith
two_parts_sound (p ∷ q ∷ r ∷ ps) k v h = cc

returned_err-ne-ok : {e : Error} {c : Config} → returned (err e) ≡ returned (ok c) → ⊥
returned_err-ne-ok h = cc

mapping_text : (m k v : String) → two_parts (split b'=' m) ≡ some (k, v) → m ≡ k <> "=" <> v
mapping_text m k v e = sym (join-split "=" m) ∙ two_parts_sound (split b'=' m) k v e

module _ (quote : String → String) where
  -- Every mapping that is found was there before or stands in a flag.
  add_mappings_sound :
      (old new : Assoc String) (ms : List String) (k v : String)
      → add_mappings quote old ms ≡ ok new
      → lookup k new ≡ some v
      → (lookup k old ≡ some v) ⊎ In (k <> "=" <> v) ms
  unfolding add_mappings
  add_mappings_sound old new [] k v e h = ground arith
  add_mappings_sound old new (m ∷ ms) k v e h = elim (Option-cases (two_parts (split b'=' m))) [
    | inl no_parts ↦ absurd (err-ne-ok (rw (no_parts, add_mappings) at e))
    | inr ((j, w), parts) ↦
        let rest = add_mappings_sound (put j w old) new ms k v (rw (parts, add_mappings) at e) h in
        ground (arith, rest, lookup-put j k w old, eq_iff j k, mapping_text m j w parts)
  ]

  -- The rest of `ParseFlags` after the names are checked.
  parse_mappings_ok :
      (cfg0 cfg : Config) (raw : Option (List String))
      → parse_mappings quote cfg0 raw ≡ returned (ok cfg)
      → (ms : List String) × (m : Assoc String) × (raw ≡ some ms)
        × (add_mappings quote [] ms ≡ ok m)
        × (check_viaq (record cfg0 { mappings = m }) ≡ ok cfg)
  unfolding parse_mappings
  parse_mappings_ok cfg0 cfg none e = cc
  parse_mappings_ok cfg0 cfg (some ms) e = elim (Result-cases (add_mappings quote [] ms)) [
    | inl (m, added) ↦ (ms, m, refl, added, ground arith)
    | inr (x, failed) ↦ ground arith
  ]

check_viaq_ok :
    (cfg0 cfg : Config)
    → check_viaq cfg0 ≡ ok cfg
    → (cfg0 ≡ cfg)
      × (cfg0.opa.viaq_to_otel_migration ≡ true
          → (contains cfg0.opa.matcher viaq_label ≡ true)
            × (contains cfg0.opa.matcher otel_label ≡ true))
unfolding check_viaq
check_viaq_ok cfg0 cfg e = ground arith

check_names_ok :
    (cfg : Config)
    → check_names cfg ≡ ok tt
    → ((cfg.opa.pkg ≡ "") ⊎ (valid_package cfg.opa.pkg ≡ true))
      × ((cfg.opa.rule ≡ "") ⊎ (valid_rule cfg.opa.rule ≡ true))
unfolding check_names
check_names_ok cfg e = ground (arith, eq_iff cfg.opa.pkg "", eq_iff cfg.opa.rule "")

from_flags :
    (quote : String → String) (m : Assoc String) (ms : List String) (k v : String)
    → add_mappings quote [] ms ≡ ok m
    → lookup k m ≡ some v
    → In (k <> "=" <> v) ms
unfolding lookup
from_flags quote m ms k v e h = ground (arith, add_mappings_sound quote [] m ms k v e h)

-- What holds of a configuration that comes from the flags.
pub record IsChecked (raw : RawFlags) (cfg : Config) : Type 0 where
  -- the package is left out, or names joined by dots
  pub pkg : (cfg.opa.pkg ≡ "") ⊎ (valid_package cfg.opa.pkg ≡ true)
  -- the rule is left out, or a name
  pub rule : (cfg.opa.rule ≡ "") ⊎ (valid_rule cfg.opa.rule ≡ true)
  -- with the migration on, both labels stand somewhere in the text of the matcher flag
  pub viaq :
      cfg.opa.viaq_to_otel_migration ≡ true
      → (contains cfg.opa.matcher viaq_label ≡ true) × (contains cfg.opa.matcher otel_label ≡ true)
  -- the mappings flag was given, and every mapping stands in it
  pub given : List String
  pub mappings_raw : raw.mappings_raw ≡ some given
  pub mappings :
      (tenant group : String)
      → lookup tenant cfg.mappings ≡ some group
      → In (tenant <> "=" <> group) given
  -- the OPA options and the token are those of the flags
  pub opa : cfg.opa ≡ raw.config.opa
  pub debug_token : cfg.debug_token ≡ raw.config.debug_token

module _ (quote : String → String) where
  parse_flags_ok :
      (hidden : Result (Unit {0})) (raw : RawFlags) (cfg : Config)
      → parse_flags quote hidden raw ≡ returned (ok cfg)
      → (ll : LogLevel) × (check_names (set_parsed raw ll) ≡ ok tt)
        × (parse_mappings quote (set_parsed raw ll) raw.mappings_raw ≡ returned (ok cfg))
  unfolding parse_flags
  parse_flags_ok (err x) raw cfg e = cc
  parse_flags_ok (ok _) raw cfg e = elim (Result-cases (parse_log_level raw.log_level_raw)) [
    | inr (x, failed) ↦ absurd (returned_err-ne-ok (rw (failed, parse_flags, context) at e))
    | inl (ll, level) ↦ elim (Result-cases (check_names (set_parsed raw ll))) [
      | inr (x, failed) ↦ ground arith
      | inl (_, names) ↦ (ll, names, ground arith)
    ]
  ]

  -- In a configuration that `ParseFlags` returns, the package is empty or a valid package name, and
  -- the rule is empty or a valid rule name; it holds no mapping but those of the flags, and the OPA
  -- options and the debug token are those of the flags; and if the migration is on, the text of the
  -- matcher flag contains the names of both namespace labels, as parts of any of its keys.
  pub parse_flags-IsChecked :
      (hidden : Result (Unit {0})) (raw : RawFlags) (cfg : Config)
      → parse_flags quote hidden raw ≡ returned (ok cfg)
      → IsChecked raw cfg
  unfolding set_parsed
  parse_flags-IsChecked hidden raw cfg e =
      let (ll, names, mapped) = parse_flags_ok hidden raw cfg e in
      let (ms, m, given, added, viaq) =
        parse_mappings_ok quote (set_parsed raw ll) cfg raw.mappings_raw mapped in
      let (same, both) = check_viaq_ok (record (set_parsed raw ll) { mappings = m }) cfg viaq in
      let (pkg, rule) = check_names_ok (set_parsed raw ll) names in
      subst (IsChecked raw) same (record {
        pkg = pkg;
        rule = rule;
        viaq = both;
        given = ms;
        mappings_raw = given;
        mappings = λ t g h. from_flags quote m ms t g added h;
        opa = refl;
        debug_token = refl;
      })
