-- ===== src/Base/Text.antt =====
-- The functions of Go's `strings` that the repository calls, on texts that are valid UTF-8:
-- `Split` and `Join` with a separator of one ASCII character, `Contains`, and `TrimPrefix`-like
-- prefix tests. A text is read character by character.
use Prim.Native.Nat.{ℕ}
use Prim.Native.String.{String, [], ◌∷◌}
use Prim.Native.Char.{Char, code}
use mathlib.Core.Path.{◌≡◌, refl, ◌∙◌}
use mathlib.Core.Logic.{◌≢◌, inl, inr}
use mathlib.Core.Bool.{Bool, true, false, ◌||◌, ◌&&◌}
use mathlib.Core.List.{List, [], ◌∷◌, ◌++◌}
use native.Mathlib.Omega.{arith}
use text.Mathlib.TextEquality.{Char-path}
use text.Mathlib.TextLemmas.{nil-append, cons-append}
use opa_openshift.Base.Tests.{◌=?◌, Bool-cases}
use opa_openshift.Base.Lists.{All}
use opa_openshift.Base.Fallible.{◌<>◌}

-- puts a character before the first part
abbrev pub extend : Char → List String → List String
extend c [] = (c ∷ []) ∷ []
extend c (p ∷ ps) = (c ∷ p) ∷ ps

-- `strings.Split(s, sep)` for a separator of one character, given by its code
unfoldable pub split : ℕ → String → List String
split sep [] = "" ∷ []
split sep (c ∷ s) =
    let rest = split sep s in elim (code c =? sep) [ true ↦ "" ∷ rest | false ↦ extend c rest ]

-- `strings.Join(parts, sep)`
unfoldable pub join : String → List String → String
join sep [] = ""
join sep (p ∷ []) = p
join sep (p ∷ q ∷ ps) = p <> sep <> join sep (q ∷ ps)

unfoldable pub has_prefix : String → String → Bool
has_prefix s [] = true
has_prefix [] (d ∷ t) = false
has_prefix (c ∷ s) (d ∷ t) = (code c =? code d) && has_prefix s t

-- `strings.Contains(s, sub)`
unfoldable pub contains : String → String → Bool
unfolding has_prefix
contains [] sub = has_prefix [] sub
contains (c ∷ s) sub = has_prefix (c ∷ s) sub || contains s sub

-- No character of the text has the code.
abbrev pub Lacks : ℕ → String → Type 0
Lacks sep [] = Unit
Lacks sep (c ∷ s) = (code c ≢ sep) × Lacks sep s

pub split-ne-nil : (sep : ℕ) (s : String) → split sep s ≢ []
unfolding split
split-ne-nil sep [] = cc
split-ne-nil sep (c ∷ s) = ground (arith, split-ne-nil sep s)

extend-Lacks :
    (sep : ℕ) (c : Char) (ps : List String)
    → code c ≢ sep
    → All (Lacks sep) ps
    → All (Lacks sep) (extend c ps)
extend-Lacks sep c [] h k = ((h, tt), tt)
extend-Lacks sep c (p ∷ ps) h k = ((h, k.0), k.1)

pub split-Lacks : (sep : ℕ) (s : String) → All (Lacks sep) (split sep s)
unfolding split
split-Lacks sep [] = (tt, tt)
split-Lacks sep (c ∷ s) = elim (Bool-cases (code c =? sep)) [
  | inl e ↦ rw (e, split) (tt, split-Lacks sep s)
  | inr e ↦ rw (e, split) (extend-Lacks sep c (split sep s) (ground arith) (split-Lacks sep s))
]

-- A text without the separator is its own only part.
pub split_of_Lacks : (sep : ℕ) (s : String) → Lacks sep s → split sep s ≡ s ∷ []
unfolding split
split_of_Lacks sep [] h = refl
split_of_Lacks sep (c ∷ s) h = ground (arith, split_of_Lacks sep s h.1)

pub join-extend :
    (sep : String) (c : Char) (ps : List String)
    → ps ≢ []
    → join sep (extend c ps) ≡ c ∷ join sep ps
unfolding join
join-extend sep c [] h = absurd (h refl)
join-extend sep c (p ∷ []) h = refl
join-extend sep c (p ∷ q ∷ ps) h = rw cons-append

pub join-cons_nil :
    (sep : String) (ps : List String) → ps ≢ [] → join sep ("" ∷ ps) ≡ sep <> join sep ps
unfolding join
join-cons_nil sep [] h = absurd (h refl)
join-cons_nil sep (p ∷ ps) h = rw nil-append

-- Joining the parts of a split gives the text back.
pub join-split : (sep : Char) (s : String) → join (sep ∷ []) (split (code sep) s) ≡ s
unfolding split
join-split sep [] = unfold join in refl
join-split sep (c ∷ s) = elim (Bool-cases (code c =? code sep)) [
  | inl e ↦
      rw (e, split)
        (join-cons_nil (sep ∷ []) (split (code sep) s) (split-ne-nil (code sep) s)
          ∙ rw (join-split sep s, Char-path c sep (ground arith), cons-append, nil-append))
  | inr e ↦
      rw (e, split)
        (join-extend (sep ∷ []) c (split (code sep) s) (split-ne-nil (code sep) s)
          ∙ rw (join-split sep s))
]

extend-append : (c : Char) (xs ys : List String) → xs ≢ [] → extend c (xs ++ ys) ≡ extend c xs ++ ys
extend-append c [] ys h = absurd (h refl)
extend-append c (x ∷ xs) ys h = refl

-- A separator in the text separates the parts before it from those behind it.
pub split-append :
    (sep : Char) (s t : String)
    → split (code sep) (s <> (sep ∷ []) <> t) ≡ split (code sep) s ++ split (code sep) t
unfolding split
split-append sep [] t = rw (nil-append, cons-append, nil-append) (ground arith)
split-append sep (c ∷ s) t = rw cons-append (
    ground (
      arith,
      split-append sep s t,
      extend-append c (split (code sep) s) (split (code sep) t) (split-ne-nil (code sep) s),
    ))

-- Splitting a join gives the parts back, if there is a part and none holds the separator.
pub split-join :
    (sep : Char) (p : String) (ps : List String)
    → All (Lacks (code sep)) (p ∷ ps)
    → split (code sep) (join (sep ∷ []) (p ∷ ps)) ≡ p ∷ ps
unfolding join
split-join sep p [] h = split_of_Lacks (code sep) p h.0
split-join sep p (r ∷ ps) h =
    rw (split-append, split_of_Lacks (code sep) p h.0, split-join sep r ps h.1)

pub Lacks-append : (n : ℕ) (s t : String) → Lacks n s → Lacks n t → Lacks n (s <> t)
Lacks-append n [] t h k = rw nil-append k
Lacks-append n (c ∷ s) t h k = rw cons-append (h.0, Lacks-append n s t h.1 k)

pub Lacks-join :
    (n : ℕ) (sep : String) (ps : List String)
    → Lacks n sep
    → All (Lacks n) ps
    → Lacks n (join sep ps)
unfolding join
Lacks-join n sep [] h k = tt
Lacks-join n sep (p ∷ []) h k = k.0
Lacks-join n sep (p ∷ r ∷ ps) h k =
    Lacks-append n p _ k.0 (Lacks-append n sep _ h (Lacks-join n sep (r ∷ ps) h k.1))
