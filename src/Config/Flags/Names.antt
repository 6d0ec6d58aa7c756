-- ===== src/Config/Flags/Names.antt =====
-- The regular expressions of internal/config/config.go for the OPA package and rule.
use opa_openshift.Base.{
  String, Char, code, Bool, true, false, List, [], ◌∷◌, ◌≡◌, ◌≢◌, ◌↔◌, inl, inr, refl, arith, ◌=?◌,
  ◌&&◌, All, Bool-cases,
}
use opa_openshift.Base.Text.{split, extend, split-ne-nil}
use opa_openshift.Config.Flags.{is_name_start, is_word, all_word, valid_rule, package_from}

abbrev all_rules : List String → Bool
all_rules [] = true
all_rules (p ∷ ps) = valid_rule p && all_rules ps

-- A list of names, the first of which has begun before if `start` is false.
abbrev names_from : Bool → List String → Bool
names_from start [] = false
names_from true (p ∷ ps) = valid_rule p && all_rules ps
names_from false (p ∷ ps) = all_word p && all_rules ps

word_is_no_dot : (c : Char) → is_word (code c) ≡ true → (code c =? b'.') ≡ false
unfolding is_word
word_is_no_dot c h = ground arith

start_is_word : (c : Char) → is_name_start (code c) ≡ true → is_word (code c) ≡ true
unfolding is_word
start_is_word c h = ground arith

true-extend :
    (c : Char) (ps : List String)
    → ps ≢ []
    → names_from true (extend c ps) ≡ is_name_start (code c) && names_from false ps
unfolding valid_rule all_word
true-extend c [] h = absurd (h refl)
true-extend c (p ∷ ps) h = elim (Bool-cases (is_name_start (code c))) [
  | inl e ↦ rw e
  | inr e ↦ rw e
]

false-extend :
    (c : Char) (ps : List String)
    → ps ≢ []
    → names_from false (extend c ps) ≡ is_word (code c) && names_from false ps
unfolding all_word
false-extend c [] h = absurd (h refl)
false-extend c (p ∷ ps) h = elim (Bool-cases (is_word (code c))) [ inl e ↦ rw e | inr e ↦ rw e ]

after_dot : (ps : List String) → ps ≢ [] → names_from false ("" ∷ ps) ≡ names_from true ps
unfolding all_word
after_dot [] h = absurd (h refl)
after_dot (p ∷ ps) h = refl

at_dot : (ps : List String) → names_from true ("" ∷ ps) ≡ false
unfolding valid_rule
at_dot ps = refl

package_from-split :
    (start : Bool) (s : String) → package_from start s ≡ names_from start (split b'.' s)
unfolding package_from split
package_from-split true String.[] = unfold valid_rule in refl
package_from-split false String.[] = unfold all_word in refl
package_from-split true (String.◌∷◌ c s) = ground (
  arith,
  package_from-split false s,
  true-extend c (split b'.' s) (split-ne-nil b'.' s),
  at_dot (split b'.' s),
  start_is_word c,
  word_is_no_dot c,
)
package_from-split false (String.◌∷◌ c s) = ground (
  arith,
  package_from-split true s,
  package_from-split false s,
  false-extend c (split b'.' s) (split-ne-nil b'.' s),
  after_dot (split b'.' s) (split-ne-nil b'.' s),
  word_is_no_dot c,
)

all_rules_iff : (ps : List String) → (all_rules ps ≡ true) ↔ All (λ p. valid_rule p ≡ true) ps
all_rules_iff [] = ground arith
all_rules_iff (p ∷ ps) = ground (arith, all_rules_iff ps)

names_from-true : (ps : List String) → ps ≢ [] → names_from true ps ≡ all_rules ps
names_from-true [] h = absurd (h refl)
names_from-true (p ∷ ps) h = refl

-- The package expression accepts a text exactly when the rule expression accepts each part
-- between its dots.
pub valid_package_iff :
    (s : String) → (package_from true s ≡ true) ↔ All (λ p. valid_rule p ≡ true) (split b'.' s)
valid_package_iff s =
    rw (package_from-split true s)
      (rw (names_from-true (split b'.' s) (split-ne-nil b'.' s)) (all_rules_iff (split b'.' s)))
