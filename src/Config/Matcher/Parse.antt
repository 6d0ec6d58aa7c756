-- ===== src/Config/Matcher/Parse.antt =====
-- What `prepareMap` and `ToMatcher` of internal/config/matcher.go keep of the comma-separated
-- flags.
use opa_openshift.Base.{
  String, true, false, List, [], ◌∷◌, ◌≡◌, ◌≢◌, ◌↔◌, ◌⊎◌, inl, inr, refl, subst, arith, ◌==◌,
  eq_iff, In, String-cases, if◌then◌else◌, All, ◌<>◌,
}
use opa_openshift.Base.Text.{
  split, join, join-split, split-ne-nil, split-Lacks, join-cons_nil, Lacks,
}
use opa_openshift.Base.Assoc.{put, has, has-put}
use opa_openshift.Config.{OpaConfig}
use opa_openshift.Config.Matcher.{StringSet, add_tokens, prepare_map, matcher_keys, to_matcher}

add_tokens_sound :
    (x : String) (m : StringSet) (ts : List String)
    → has x (add_tokens m ts) ≡ true
    → (has x m ≡ true) ⊎ ((x ≢ "") × In x ts)
unfolding add_tokens
add_tokens_sound x m [] h = inl h
add_tokens_sound x m (t ∷ ts) h = ground (
  arith,
  add_tokens_sound x (if t == "" then m else put t tt m) ts h,
  has-put t x tt m,
  eq_iff t "",
  eq_iff t x,
)

add_tokens_complete :
    (x : String) (m : StringSet) (ts : List String)
    → (has x m ≡ true) ⊎ ((x ≢ "") × In x ts)
    → has x (add_tokens m ts) ≡ true
unfolding add_tokens
add_tokens_complete x m [] (inl h) = h
add_tokens_complete x m [] (inr h) = absurd h.1
add_tokens_complete x m (t ∷ ts) h = ground (
  arith,
  add_tokens_complete x (if t == "" then m else put t tt m) ts,
  has-put t x tt m,
  eq_iff t "",
  eq_iff t x,
)

has-empty : (x : String) → has {V = Unit {0}} x [] ≡ false
unfolding has
has-empty x = refl

prepare_map_sound :
    (x csv : String) → has x (prepare_map csv) ≡ true → (x ≢ "") × In x (split b',' csv)
unfolding prepare_map
prepare_map_sound x csv h =
    ground (arith, add_tokens_sound x [] (split b',' csv), has-empty x, eq_iff csv "")

no_parts_of_nil : (x : String) → x ≢ "" → ¬ In x (split b',' "")
unfolding split
no_parts_of_nil x h i = ground arith

no_parts : (x csv : String) → csv ≡ "" → x ≢ "" → ¬ In x (split b',' csv)
no_parts x csv e h i = no_parts_of_nil x h (subst (λ s. In x (split b',' s)) e i)

prepare_map_complete :
    (x csv : String) → (x ≢ "") × In x (split b',' csv) → has x (prepare_map csv) ≡ true
unfolding prepare_map
prepare_map_complete x csv h =
    ground (arith, add_tokens_complete x [] (split b',' csv) (inr h), no_parts x csv, eq_iff csv "")

-- The keys are what stands between the commas of a text that does not begin with one.
abbrev pub IsCut : String → List String → Type 0
IsCut s keys =
    (k : String) × (ks : List String) × (keys ≡ k ∷ ks)
    × (k ≢ "")
    × (join "," keys ≡ s)
    × All (Lacks b',') keys

-- The text is empty or begins with a comma.
abbrev pub IsHeadless : String → Type 0
IsHeadless s = (s ≡ "") ⊎ ((rest : String) × (s ≡ "," <> rest))

join-IsHeadless : (ks : List String) → IsHeadless (join "," ("" ∷ ks))
unfolding join
join-IsHeadless [] = inl refl
join-IsHeadless (k ∷ ks) = inr (join "," (k ∷ ks), join-cons_nil "," (k ∷ ks) (λ e. cc))

matcher_keys_cases :
    (parts : List String) (s : String)
    → parts ≢ []
    → join "," parts ≡ s
    → All (Lacks b',') parts
    → IsCut s (matcher_keys parts) ⊎ ((matcher_keys parts ≡ []) × IsHeadless s)
unfolding matcher_keys
matcher_keys_cases [] s some_part e cut = absurd (some_part refl)
matcher_keys_cases (k ∷ ks) s some_part e cut = elim (String-cases k "") [
  | inl (same, t) ↦ inr (rw t, subst IsHeadless e (rw same (join-IsHeadless ks)))
  | inr (other, t) ↦ inl (rw t (k, ks, refl, other, e, cut))
]

-- A text is in the set of a comma-separated flag exactly when it is not empty and is one of the
-- parts between the commas.
pub has-prepare_map :
    (x csv : String) → (has x (prepare_map csv) ≡ true) ↔ ((x ≢ "") × In x (split b',' csv))
has-prepare_map x csv = (prepare_map_sound x csv, prepare_map_complete x csv)

-- If the flag is not empty and does not begin with a comma, the keys are what stands between its
-- commas: joined by commas they are the flag, none of them holds a comma, and the first is not
-- empty. Otherwise there are no keys.
pub to_matcher_keys :
    (c : OpaConfig)
    → IsCut c.matcher (to_matcher c).keys ⊎ (((to_matcher c).keys ≡ []) × IsHeadless c.matcher)
unfolding to_matcher
to_matcher_keys c =
    matcher_keys_cases (split b',' c.matcher) c.matcher (split-ne-nil b',' c.matcher)
      (join-split "," c.matcher) (split-Lacks b',' c.matcher)
