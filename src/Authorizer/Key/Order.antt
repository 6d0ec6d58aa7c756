-- ===== src/Authorizer/Key/Order.antt =====
-- The cache key of internal/authorizer/cache.go does not depend on the order of groups and keys.
use opa_openshift.Base.{
  String, some, List, [], ◌∷◌, ◌≡◌, ◌<>◌, refl, sym, arith, if◌then◌else◌, is_nil, false,
}
use mathlib.Core.List.{Perm}
use opa_openshift.Base.Sort.{insert, sort}
use opa_openshift.Base.Sort.Laws.{sort_of_perm, sort-perm}
use opa_openshift.Config.Matcher.{Matcher}
use opa_openshift.Authorizer.{Query}
use opa_openshift.Authorizer.Key.{concat, hash_userinfo, hash_matcher, generate_cache_key}

is_nil-insert : (x : String) (xs : List String) → is_nil (insert x xs) ≡ false
unfolding insert
is_nil-insert x [] = refl
is_nil-insert x (y ∷ ys) = ground arith

is_nil-sort : (xs : List String) → is_nil (sort xs) ≡ is_nil xs
unfolding sort
is_nil-sort [] = refl
is_nil-sort (x ∷ xs) = is_nil-insert x (sort xs)

module _ (sha256_hex : String → String) where
  hash_matcher-sort :
      (m : Matcher)
      → hash_matcher sha256_hex (some m)
        ≡ (if is_nil (sort m.keys) then "m:empty" else "m:" <> sha256_hex (concat (sort m.keys)))
  unfolding hash_matcher
  hash_matcher-sort m = rw (is_nil-sort m.keys)

  hash_matcher-perm :
      (m n : Matcher)
      → Perm m.keys n.keys
      → hash_matcher sha256_hex (some m) ≡ hash_matcher sha256_hex (some n)
  hash_matcher-perm m n p = rw (hash_matcher-sort m, sort_of_perm p) (sym (hash_matcher-sort n))

  -- Two queries that differ only in the order of their groups, for matchers that agree in their
  -- keys up to order, get the same key; and the reviews are then made with the same groups, a
  -- reordering of those that were given.
  pub generate_cache_key-perm :
      (q : Query) (gs hs : List String) (m n : Matcher)
      → Perm gs hs
      → Perm m.keys n.keys
      → (generate_cache_key sha256_hex (record q { groups = gs }) (some m)
          ≡ generate_cache_key sha256_hex (record q { groups = hs }) (some n))
        × Perm (generate_cache_key sha256_hex (record q { groups = gs }) (some m)).1.groups gs
  unfolding generate_cache_key hash_userinfo
  generate_cache_key-perm q gs hs m n groups keys =
      (rw (sort_of_perm groups, hash_matcher-perm m n keys), sort-perm gs)
