-- ===== src/Config/Matcher/Aliasing.antt =====
-- `ForRequest` and `ViaQToOTELMigration` of internal/config/matcher.go on pointers: all requests
-- share the matcher that `handler.New` makes, and the migration changes a matcher in place. Of
-- `slices` the model takes what its documentation says.
pub mod Shared
use opa_openshift.Base.{
  ℕ, zero, suc, ◌+◌, ◌<◌, String, Bool, true, false, Option, none, some, List, [], ◌∷◌, ◌++◌, ◌≡◌,
  ◌≢◌, refl, ap, sym, ◌∙◌, subst, arith, ◌=?◌, if◌then◌else◌, is_nil, length, ◌⊎◌, Bool-cases,
  Option-cases, inl, inr,
}
use opa_openshift.Base.Assoc.{has}
use opa_openshift.Config.Matcher.{
  Matcher, StringSet, is_empty, any_admin, empty_matcher, for_request, index, delete, delete_key,
  Selectors, selects, viaq_label, otel_label, viaq_to_otel_migration,
}
use opa_openshift.Config.Matcher.Migration.{dropped_label, keys_of_migration}

-- the first elements of an array
abbrev pub take : ℕ → List String → List String
take zero xs = []
take (suc n) [] = []
take (suc n) (x ∷ xs) = x ∷ take n xs

abbrev pub drop : ℕ → List String → List String
drop zero xs = xs
drop (suc n) [] = []
drop (suc n) (x ∷ xs) = drop n xs

-- A slice: an array, and how many of its elements are in the slice.
pub record Slice : Type 0 where
  pub array : ℕ
  pub len : ℕ

-- A `Matcher` in memory. Nothing writes to its two sets.
pub record Object : Type 0 where
  pub keys : Slice
  pub matcher_op : String
  pub skip_tenants : StringSet
  pub admin_groups : StringSet

pub record Heap : Type 0 where
  pub arrays : ℕ → List String
  pub next_array : ℕ
  pub objects : ℕ → Object
  pub next_object : ℕ

abbrev pub write {ℓ} : {A : Type ℓ} → (ℕ → A) → ℕ → A → ℕ → A
write f n a k = if k =? n then a else f k

abbrev pub elements : Heap → Slice → List String
elements h s = take s.len (h.arrays s.array)

-- The matcher that a pointer points to.
abbrev pub value : Heap → ℕ → Matcher
value h p = record {
  keys = elements h (h.objects p).keys;
  matcher_op = (h.objects p).matcher_op;
  skip_tenants = (h.objects p).skip_tenants;
  admin_groups = (h.objects p).admin_groups;
}

-- `&Matcher{...}`
abbrev pub new_object : Object → Heap → ℕ × Heap
new_object o h = (
  h.next_object,
  record h { objects = write h.objects h.next_object o; next_object = suc h.next_object },
)

-- `slices.Clone`: a new array with the same elements
abbrev pub clone_slice : Slice → Heap → Slice × Heap
clone_slice s h = (
  record { array = h.next_array; len = s.len },
  record h { arrays = write h.arrays h.next_array (elements h s); next_array = suc h.next_array },
)

-- `slices.Delete(s, i, i+1)`: the later elements move down in the same array, and the place that
-- gets free is zeroed.
abbrev pub delete_slice : Slice → ℕ → Heap → Slice × Heap
delete_slice s i h =
    let left = delete (elements h s) i in
    (
      record { array = s.array; len = length left },
      record h { arrays = write h.arrays s.array (left ++ "" ∷ drop s.len (h.arrays s.array)) },
    )

-- `Clone`
abbrev pub clone_object : ℕ → Heap → ℕ × Heap
clone_object p h =
    let (keys, h') = clone_slice (h.objects p).keys h in
    new_object (record (h.objects p) { keys = keys }) h'

-- `EmptyMatcher`, with a nil slice
abbrev pub new_empty : Heap → ℕ × Heap
new_empty h =
    new_object
      (record {
        keys = record { array = 0; len = 0 };
        matcher_op = "";
        skip_tenants = [];
        admin_groups = [];
      })
      h

-- `ForRequest`
unfoldable pub for_request_at : ℕ → String → List String → Heap → ℕ × Heap
for_request_at m tenant groups h =
    if is_empty (value h m)
    then (m, h)
    else if has tenant (h.objects m).skip_tenants
    then new_empty h
    else if any_admin (h.objects m).admin_groups groups
    then new_empty h
    else clone_object m h

-- `m.Keys = slices.Delete(m.Keys, i, i+1)`
abbrev pub delete_at : ℕ → ℕ → Heap → Heap
delete_at p i h =
    let (keys, h') = delete_slice (h.objects p).keys i h in
    record h' { objects = write h'.objects p (record (h.objects p) { keys = keys }) }

-- `if i := slices.Index(m.Keys, label); i != -1 { m.Keys = slices.Delete(m.Keys, i, i+1) }`
unfoldable pub delete_key_at : String → ℕ → Heap → Heap
delete_key_at label p h = elim (index (value h p).keys label) [
  | none ↦ h
  | some i ↦ delete_at p i h
]

-- `ViaQToOTELMigration`
unfoldable pub migrate_at : ℕ → Selectors → Heap → Heap
migrate_at p selectors h =
    if selects selectors otel_label
    then delete_key_at viaq_label p h
    else delete_key_at otel_label p h
