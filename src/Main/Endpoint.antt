-- ===== src/Main/Endpoint.antt =====
-- The path of main.go's data endpoint, for a package and a rule that the flags allow.
use opa_openshift.Base.{
  ℕ, String, Char, true, List, [], ◌∷◌, ◌++◌, append_assoc, append-nil, ◌≡◌, ◌≢◌, inl, inr, refl,
  ap, sym, ◌∙◌, arith, ◌=?◌, code, eq_iff, Bool-cases, filter, All, ◌<>◌,
}
use mathlib.Core.List.{reverse, reverse-cons}
use text.Mathlib.TextLemmas.{cons-append, nil-append}
use opa_openshift.Base.Text.{
  split, join, has_prefix, Lacks, split-ne-nil, split-append, split-join, split_of_Lacks,
  join-extend, join-cons_nil,
}
use opa_openshift.Base.Path.{step, steps, clean, join_path}
use opa_openshift.Config.{OpaConfig}
use opa_openshift.Config.Flags.{
  is_name_start, is_word, all_word, valid_rule, valid_package, package_from,
}
use opa_openshift.Config.Flags.Names.{valid_package_iff}
use opa_openshift.Main.{replace_dots, data_path}

slash_append : (s : String) → "/" <> s ≡ String.◌∷◌ "/" s
slash_append s = rw (cons-append, nil-append)

replace_dots-split : (s : String) → replace_dots s ≡ join "/" (split b'.' s)
unfolding replace_dots split
replace_dots-split String.[] = unfold join in refl
replace_dots-split (String.◌∷◌ c s) = ground (
  arith,
  replace_dots-split s,
  join-cons_nil "/" (split b'.' s) (split-ne-nil b'.' s),
  join-extend "/" c (split b'.' s) (split-ne-nil b'.' s),
  slash_append (join "/" (split b'.' s)),
)

all_word-Lacks : (s : String) → all_word s ≡ true → Lacks b'/' s
unfolding all_word is_word is_name_start
all_word-Lacks String.[] h = tt
all_word-Lacks (String.◌∷◌ c s) h = ground (arith, all_word-Lacks s)

valid_rule-Lacks : (s : String) → valid_rule s ≡ true → Lacks b'/' s
unfolding valid_rule is_name_start
valid_rule-Lacks String.[] h = tt
valid_rule-Lacks (String.◌∷◌ c s) h = ground (arith, all_word-Lacks s)

abbrev first_code : String → ℕ
first_code String.[] = 0
first_code (String.◌∷◌ c s) = code c

dot_starts :
    (c : Char) (s : String)
    → is_name_start (code c) ≡ true
    → (String.◌∷◌ c s ≢ "") × (String.◌∷◌ c s ≢ ".") × (String.◌∷◌ c s ≢ "..")
unfolding is_name_start
dot_starts c s h =
    let at_dot : code c ≡ b'.' → ⊥ = λ e. ground arith in
    ((λ e. cc), (λ e. at_dot (ap first_code e)), λ e. at_dot (ap first_code e))

-- A name is no part that a path is cleaned of.
step_of_name :
    (stack : List String) (s : String) → valid_rule s ≡ true → step true stack s ≡ s ∷ stack
unfolding step valid_rule is_name_start
step_of_name stack String.[] h = cc
step_of_name stack (String.◌∷◌ c s) h = ground (
  arith,
  eq_iff (String.◌∷◌ c s) "",
  eq_iff (String.◌∷◌ c s) ".",
  eq_iff (String.◌∷◌ c s) "..",
  dot_starts c s,
)

steps_of_names :
    (stack ps : List String)
    → All (λ p. valid_rule p ≡ true) ps
    → steps true stack ps ≡ reverse stack ++ ps
unfolding steps
steps_of_names stack [] h = sym (append-nil (reverse stack))
steps_of_names stack (p ∷ ps) h = rw (step_of_name stack p h.0) (
    steps_of_names (p ∷ stack) ps h.1
    ∙ ap (λ (xs : List String). xs ++ ps) (reverse-cons p stack)
    ∙ append_assoc (reverse stack) (p ∷ []) ps)

valid_rule-ne-nil : (s : String) → valid_rule s ≡ true → s ≢ ""
unfolding valid_rule
valid_rule-ne-nil String.[] h e = cc
valid_rule-ne-nil (String.◌∷◌ c s) h e = cc

All-Lacks : (ps : List String) → All (λ p. valid_rule p ≡ true) ps → All (Lacks b'/') ps
All-Lacks [] h = tt
All-Lacks (p ∷ ps) h = (valid_rule-Lacks p h.0, All-Lacks ps h.1)

All-snoc :
    (ps : List String) (r : String)
    → All (λ p. valid_rule p ≡ true) ps
    → valid_rule r ≡ true
    → All (λ p. valid_rule p ≡ true) (ps ++ r ∷ [])
All-snoc [] r h k = (k, tt)
All-snoc (p ∷ ps) r h k = (h.0, All-snoc ps r h.1 k)

-- The parts between the slashes are those between the dots.
split-replace_dots :
    (parts : List String)
    → parts ≢ []
    → All (λ p. valid_rule p ≡ true) parts
    → split b'/' (join "/" parts) ≡ parts
split-replace_dots [] ne h = absurd (ne refl)
split-replace_dots (p ∷ ps) ne h = split-join "/" p ps (All-Lacks (p ∷ ps) h)

abbrev parts_of : OpaConfig → List String
parts_of c = split b'.' c.pkg ++ c.rule ∷ []

split_path :
    (c : OpaConfig)
    → All (λ p. valid_rule p ≡ true) (split b'.' c.pkg)
    → valid_rule c.rule ≡ true
    → split b'/' ("/v1/data" <> "/" <> replace_dots c.pkg <> "/" <> c.rule)
      ≡ "" ∷ "v1" ∷ "data" ∷ parts_of c
unfolding split
split_path c h k =
    let pkg : split b'/' (replace_dots c.pkg) ≡ split b'.' c.pkg =
      ap (split b'/') (replace_dots-split c.pkg)
      ∙ split-replace_dots (split b'.' c.pkg) (split-ne-nil b'.' c.pkg) h in
    split-append "/" "/v1/data" (replace_dots c.pkg <> "/" <> c.rule)
    ∙ ap (◌++◌ (split b'/' "/v1/data")) (
        split-append "/" (replace_dots c.pkg) c.rule
        ∙ rw (pkg, split_of_Lacks b'/' c.rule (valid_rule-Lacks c.rule k)))

join_path_given :
    (pkg rule : String)
    → pkg ≢ ""
    → rule ≢ ""
    → join_path ("/v1/data" ∷ pkg ∷ rule ∷ []) ≡ clean ("/v1/data" <> "/" <> pkg <> "/" <> rule)
unfolding join_path filter join
join_path_given pkg rule h k = ground (arith, eq_iff pkg "", eq_iff rule "")

clean_rooted :
    (s : String)
    → clean ("/v1/data" <> s) ≡ "/" <> join "/" (steps true [] (split b'/' ("/v1/data" <> s)))
unfolding clean has_prefix
clean_rooted s =
    let rooted : has_prefix ("/v1/data" <> s) "/" ≡ true = rw cons-append in rw (rooted, clean)

package_from-ne-nil : (s : String) → valid_package s ≡ true → s ≢ ""
unfolding package_from
package_from-ne-nil String.[] h e = cc
package_from-ne-nil (String.◌∷◌ c s) h e = cc

replace_dots-ne-nil : (s : String) → s ≢ "" → replace_dots s ≢ ""
unfolding replace_dots
replace_dots-ne-nil String.[] h e = h refl
replace_dots-ne-nil (String.◌∷◌ c s) h e = elim (Bool-cases (code c =? b'.')) [
  | inl d ↦ cc (rw (d, replace_dots) at e)
  | inr d ↦ cc (rw (d, replace_dots) at e)
]

-- A rule of a package, both with names that the flags allow, is served at "/v1/data", then the
-- package's names in their order, and then the rule's name, with slashes between them.
pub data_path_names :
    (c : OpaConfig)
    → valid_package c.pkg ≡ true
    → valid_rule c.rule ≡ true
    → data_path c ≡ "/" <> join "/" ("v1" ∷ "data" ∷ split b'.' c.pkg ++ c.rule ∷ [])
unfolding data_path steps step
data_path_names c h k =
    let names = (valid_package_iff c.pkg).0 h in
    let cleaned =
      steps_of_names ("data" ∷ "v1" ∷ []) (parts_of c)
        (All-snoc (split b'.' c.pkg) c.rule names k) in
    join_path_given (replace_dots c.pkg) c.rule
      (replace_dots-ne-nil c.pkg (package_from-ne-nil c.pkg h)) (valid_rule-ne-nil c.rule k)
    ∙ clean_rooted ("/" <> replace_dots c.pkg <> "/" <> c.rule)
    ∙ ap (λ ps. "/" <> join "/" (steps true [] ps)) (split_path c names k)
    ∙ ap (λ ps. "/" <> join "/" ps) cleaned
