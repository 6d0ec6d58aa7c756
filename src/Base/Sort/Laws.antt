-- ===== src/Base/Sort/Laws.antt =====
-- The order of texts is a linear order, and the sorted list depends only on what is in the list.
use Prim.Native.String.{String}
use mathlib.Core.Path.{◌≡◌, refl, ap₂, ◌∙◌}
use mathlib.Core.Logic.{inl, inr, ∥∥₁_elim}
use mathlib.Core.Bool.{true, false}
use mathlib.Core.List.{List, [], ◌∷◌, Perm, Permᴰ}
use mathlib.Core.List.Perm
use native.Mathlib.Omega.{arith}
use text.Mathlib.TextEquality.{Char-path, IsScalar-prop}
use opa_openshift.Base.Tests.{Bool-cases}
use opa_openshift.Base.Sort.{str_leb, insert, sort}

str_leb_refl : (s : String) → str_leb s s ≡ true
unfolding str_leb
str_leb_refl String.[] = refl
str_leb_refl (String.◌∷◌ c s) = ground (arith, str_leb_refl s)

pub str_leb_total : (s t : String) → str_leb s t ≡ false → str_leb t s ≡ true
unfolding str_leb
str_leb_total String.[] t h = cc
str_leb_total (String.◌∷◌ c s) String.[] h = refl
str_leb_total (String.◌∷◌ c s) (String.◌∷◌ d t) h = ground (arith, str_leb_total s t)

pub str_leb_trans : (s t u : String) → str_leb s t ≡ true → str_leb t u ≡ true → str_leb s u ≡ true
unfolding str_leb
str_leb_trans String.[] t u h k = refl
str_leb_trans (String.◌∷◌ c s) String.[] u h k = cc
str_leb_trans (String.◌∷◌ c s) (String.◌∷◌ d t) String.[] h k = cc
str_leb_trans (String.◌∷◌ c s) (String.◌∷◌ d t) (String.◌∷◌ e u) h k =
    ground (arith, str_leb_trans s t u)

pub str_leb_antisymm : (s t : String) → str_leb s t ≡ true → str_leb t s ≡ true → s ≡ t
unfolding str_leb
str_leb_antisymm String.[] String.[] h k = refl
str_leb_antisymm String.[] (String.◌∷◌ d t) h k = cc
str_leb_antisymm (String.◌∷◌ c s) String.[] h k = cc
str_leb_antisymm (String.◌∷◌ c s) (String.◌∷◌ d t) h k =
    ap₂ String.◌∷◌ (Char-path c d (ground arith))
      (str_leb_antisymm s t (ground arith) (ground arith))

insert_swap : (a b : String) (l : List String) → insert a (insert b l) ≡ insert b (insert a l)
unfolding insert
insert_swap a b [] = ground (arith, str_leb_total a b, str_leb_total b a, str_leb_antisymm a b)
insert_swap a b (t ∷ l) = ground (
  arith,
  insert_swap a b l,
  str_leb_total a b,
  str_leb_total b a,
  str_leb_antisymm a b,
  str_leb_trans a b t,
  str_leb_trans b a t,
)

sort_of_permᴰ : {xs ys : List String} → Permᴰ xs ys → sort xs ≡ sort ys
unfolding sort
sort_of_permᴰ Permᴰ.nil = refl
sort_of_permᴰ (Permᴰ.cons e p) = ap₂ insert e (sort_of_permᴰ p)
sort_of_permᴰ (Permᴰ.swap {a} {b} {a'} {b'} {l} e f) = insert_swap a b (sort l) ∙ rw (e, f)
sort_of_permᴰ (Permᴰ.trans p r) = sort_of_permᴰ p ∙ sort_of_permᴰ r

sorted_set : IsSet (List String)
sorted_set = hlevel IsScalar-prop

-- Two lists of the same texts, in any order, are sorted to the same list.
pub sort_of_perm : {xs ys : List String} → Perm xs ys → sort xs ≡ sort ys
sort_of_perm p = ∥∥₁_elim p (sorted_set _ _) sort_of_permᴰ

insert-perm : (s : String) (ts : List String) → Perm (insert s ts) (s ∷ ts)
unfolding insert
insert-perm s [] = Perm.refl (s ∷ [])
insert-perm s (t ∷ ts) = elim (Bool-cases (str_leb s t)) [
  | inl e ↦ rw (e, insert) (Perm.refl (s ∷ t ∷ ts))
  | inr e ↦ rw (e, insert) (Perm.trans (Perm.cons t (insert-perm s ts)) (Perm.swap s t ts))
]

-- Sorting keeps every text as often as it occurs.
pub sort-perm : (xs : List String) → Perm (sort xs) xs
unfolding sort
sort-perm [] = Perm.refl []
sort-perm (x ∷ xs) = Perm.trans (insert-perm x (sort xs)) (Perm.cons x (sort-perm xs))
