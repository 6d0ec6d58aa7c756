-- ===== src/Config/Matcher/Migration.antt =====
-- `ViaQToOTELMigration` of internal/config/matcher.go: which of the two namespace labels it takes
-- out of the keys, and that it never takes the last one under a checked configuration.
use opa_openshift.Base.{
  String, true, List, [], ◌∷◌, ◌≡◌, ◌≢◌, ◌↔◌, ◌⊎◌, inl, inr, refl, ap, sym, subst, ◌∙◌, arith,
  eq_iff, In, All, if◌then◌else◌, String-cases,
}
use opa_openshift.Base.Text.{split, join, join-split, contains}
use opa_openshift.Config.{OpaConfig}
use opa_openshift.Config.Matcher.{
  Matcher, index, delete, delete_key, viaq_label, otel_label, Selectors, selects,
  viaq_to_otel_migration, matcher_keys, to_matcher,
}

-- The label that a request's selectors make superfluous.
abbrev pub dropped_label : Selectors → String
dropped_label selectors = if selects selectors otel_label then viaq_label else otel_label

delete_key-cons_self : (k : String) (ks : List String) → delete_key k (k ∷ ks) ≡ ks
unfolding delete_key index delete
delete_key-cons_self k ks = ground (arith, (eq_iff k k).1 refl)

delete_key-cons_ne :
    (label k : String) (ks : List String)
    → k ≢ label
    → delete_key label (k ∷ ks) ≡ k ∷ delete_key label ks
unfolding delete_key index delete
delete_key-cons_ne label k ks h = ground (arith, eq_iff k label)

abbrev NotIn : String → List String → Type 0
NotIn x xs = All (λ k. k ≢ x) xs

NotIn-absurd : (x : String) (xs : List String) → NotIn x xs → ¬ In x xs
NotIn-absurd x [] n i = i
NotIn-absurd x (y ∷ ys) n i = ground (arith, NotIn-absurd x ys n.1)

abbrev pub IsDistinct : List String → Type 0
IsDistinct [] = Unit
IsDistinct (k ∷ ks) = NotIn k ks × IsDistinct ks

pub keys_of_migration :
    (m : Matcher) (selectors : Selectors)
    → (viaq_to_otel_migration m selectors).keys ≡ delete_key (dropped_label selectors) m.keys
unfolding viaq_to_otel_migration
keys_of_migration m selectors = ground arith

delete_key_nil : (label : String) → delete_key label [] ≡ []
unfolding delete_key index
delete_key_nil label = refl

-- A case for each way that the first key may compare with the label.
delete_key-cons_cases :
    (label k : String) (ks : List String)
    → ((k ≡ label) × (delete_key label (k ∷ ks) ≡ ks))
      ⊎ ((k ≢ label) × (delete_key label (k ∷ ks) ≡ k ∷ delete_key label ks))
delete_key-cons_cases label k ks = elim (String-cases k label) [
  | inl (e, _) ↦ inl (e, rw e (delete_key-cons_self label ks))
  | inr (e, _) ↦ inr (e, delete_key-cons_ne label k ks e)
]

delete_key_sound :
    (label x : String) (ks : List String)
    → IsDistinct ks
    → In x (delete_key label ks)
    → In x ks × (x ≢ label)
delete_key_sound label x [] d h = absurd (subst (In x) (delete_key_nil label) h)
delete_key_sound label x (k ∷ ks) d h = elim (delete_key-cons_cases label k ks) [
  | inl (e, same) ↦
      let h' : In x ks = subst (In x) same h in
      (inr h', λ p. NotIn-absurd x ks (rw p (rw (← e) d.0)) h')
  | inr (ne, same) ↦
      let i : (k ≡ x) ⊎ In x (delete_key label ks) = subst (In x) same h in
      elim i [
        | inl e ↦ (inl e, λ p. ne (e ∙ p))
        | inr i ↦ let (j, n) = delete_key_sound label x ks d.1 i in (inr j, n)
      ]
]

delete_key_complete :
    (label x : String) (ks : List String) → In x ks × (x ≢ label) → In x (delete_key label ks)
delete_key_complete label x [] h = absurd h.0
delete_key_complete label x (k ∷ ks) h = elim (delete_key-cons_cases label k ks) [
  | inl (e, same) ↦ subst (In x) (sym same) (ground arith)
  | inr (ne, same) ↦ subst (In x) (sym same) (ground (arith, delete_key_complete label x ks))
]

-- With distinct keys, the migration takes out one label and nothing else: OpenTelemetry's if the
-- request selects no namespace by it, ViaQ's if the request does.
pub migration_keys_iff :
    (m : Matcher) (selectors : Selectors) (x : String)
    → IsDistinct m.keys
    → In x (viaq_to_otel_migration m selectors).keys ↔ (In x m.keys × (x ≢ dropped_label selectors))
migration_keys_iff m selectors x d = rw keys_of_migration (
  delete_key_sound (dropped_label selectors) x m.keys d,
  delete_key_complete (dropped_label selectors) x m.keys,
)

delete_key-ne-nil : (label k l : String) (ks : List String) → delete_key label (k ∷ l ∷ ks) ≢ []
delete_key-ne-nil label k l ks h = ground (arith, delete_key-cons_cases label k (l ∷ ks))

-- The flag's text is not a label that the migration drops, if it names both labels.
names_both :
    (s : String)
    → contains s viaq_label ≡ true
    → contains s otel_label ≡ true
    → (s ≢ viaq_label) × (s ≢ otel_label)
unfolding contains
names_both s v o = (λ e. (cc (rw e at o)), λ e. cc (rw e at v))

one_key : (s k : String) → split b',' s ≡ k ∷ [] → s ≡ k
unfolding join
one_key s k e = sym (join-split "," s) ∙ ap (join ",") e

delete_key_of_names_both :
    (label : String) (parts : List String) (s : String)
    → split b',' s ≡ parts
    → (s ≢ label)
    → matcher_keys parts ≢ []
    → delete_key label (matcher_keys parts) ≢ []
unfolding matcher_keys
delete_key_of_names_both label [] s e n h = absurd (h refl)
delete_key_of_names_both label (k ∷ l ∷ ks) s e n h = ground (arith, delete_key-ne-nil label k l ks)
delete_key_of_names_both label (k ∷ []) s e n h =
    ground (arith, one_key s k e, delete_key-cons_ne label k [])

-- If the matcher flag names both labels, as the program checks at its start, and yields any keys,
-- then a key is left after the migration, whatever the request selects.
pub migration-ne-nil :
    (c : OpaConfig) (selectors : Selectors)
    → contains c.matcher viaq_label ≡ true
    → contains c.matcher otel_label ≡ true
    → (to_matcher c).keys ≢ []
    → (viaq_to_otel_migration (to_matcher c) selectors).keys ≢ []
unfolding to_matcher
migration-ne-nil c selectors v o h = rw keys_of_migration (
    delete_key_of_names_both (dropped_label selectors) (split b',' c.matcher) c.matcher refl
      (ground (arith, names_both c.matcher v o)) h)
