-- ===== src/Config/Matcher/Aliasing/Shared.antt =====
-- A request's migration of its matcher, in internal/config/matcher.go, leaves the matcher that all
-- requests share as it was.
use opa_openshift.Base.{
  ℕ, zero, suc, ◌<◌, String, true, false, List, [], ◌∷◌, ◌++◌, ◌≡◌, ◌≢◌, refl, ap, ◌∙◌, arith, ◌=?◌,
  nil_of_is_nil, length, ◌⊎◌, Bool-cases, Option-cases, inl, inr,
}
use opa_openshift.Base.Assoc.{has}
use opa_openshift.Config.Matcher.{
  Matcher, is_empty, any_admin, empty_matcher, for_request, index, delete, delete_key, Selectors,
  selects, viaq_label, otel_label, viaq_to_otel_migration,
}
use opa_openshift.Config.Matcher.Aliasing.{
  take, value, clone_object, new_empty, for_request_at, delete_at, delete_key_at, migrate_at, Heap,
}

take-append : (xs ys : List String) → take (length xs) (xs ++ ys) ≡ xs
take-append [] ys = refl
take-append (x ∷ xs) ys = ap (◌∷◌ x) (take-append xs ys)

take-length_take : (n : ℕ) (xs : List String) → take n (take n xs) ≡ take n xs
take-length_take zero xs = refl
take-length_take (suc n) [] = refl
take-length_take (suc n) (x ∷ xs) = ap (◌∷◌ x) (take-length_take n xs)

same_index : (n : ℕ) → (n =? n) ≡ true
same_index n = ground arith

other_index : (k n : ℕ) → k ≢ n → (k =? n) ≡ false
other_index k n h = ground arith

value-delete_at :
    (p i : ℕ) (h : Heap)
    → value (delete_at p i h) p ≡ record (value h p) { keys = delete (value h p).keys i }
value-delete_at p i h = rw same_index (rw same_index (rw take-append))

value-delete_at_other :
    (p q i : ℕ) (h : Heap)
    → q ≢ p
    → (h.objects q).keys.array ≢ (h.objects p).keys.array
    → value (delete_at p i h) q ≡ value h q
value-delete_at_other p q i h pointers arrays =
    rw (other_index q p pointers)
      (rw (other_index (h.objects q).keys.array (h.objects p).keys.array arrays))

-- The pointer's own matcher loses the key.
value-delete_key_at :
    (label : String) (p : ℕ) (h : Heap)
    → value (delete_key_at label p h) p
      ≡ record (value h p) { keys = delete_key label (value h p).keys }
unfolding delete_key_at delete_key
value-delete_key_at label p h = elim (Option-cases (index (value h p).keys label)) [
  | inl missing ↦ rw (missing, delete_key_at, delete_key)
  | inr (i, found) ↦ rw (found, delete_key_at, delete_key) (value-delete_at p i h)
]

-- A matcher with another pointer and another array keeps its value.
value-delete_key_at_other :
    (label : String) (p q : ℕ) (h : Heap)
    → q ≢ p
    → (h.objects q).keys.array ≢ (h.objects p).keys.array
    → value (delete_key_at label p h) q ≡ value h q
unfolding delete_key_at
value-delete_key_at_other label p q h pointers arrays =
    elim (Option-cases (index (value h p).keys label)) [
      | inl missing ↦ rw (missing, delete_key_at)
      | inr (i, found) ↦ rw (found, delete_key_at) (value-delete_at_other p q i h pointers arrays)
    ]

-- A matcher without keys is left alone.
delete_key_at-nil :
    (label : String) (p : ℕ) (h : Heap) → (value h p).keys ≡ [] → delete_key_at label p h ≡ h
unfolding delete_key_at index
delete_key_at-nil label p h nil = rw (nil, delete_key_at)

value-migrate_at :
    (p : ℕ) (selectors : Selectors) (h : Heap)
    → value (migrate_at p selectors h) p ≡ viaq_to_otel_migration (value h p) selectors
unfolding migrate_at viaq_to_otel_migration
value-migrate_at p selectors h = elim (Bool-cases (selects selectors otel_label)) [
  | inl e ↦ rw (e, migrate_at, viaq_to_otel_migration) (value-delete_key_at viaq_label p h)
  | inr e ↦ rw (e, migrate_at, viaq_to_otel_migration) (value-delete_key_at otel_label p h)
]

-- The pointer p is a request's own: it is not m's, nor is its array; or it has no keys.
abbrev IsOwn : ℕ → ℕ → Heap → Type 0
IsOwn m p h =
    ((m ≢ p) × ((h.objects m).keys.array ≢ (h.objects p).keys.array)) ⊎ ((value h p).keys ≡ [])

value-delete_key_at_own :
    (label : String) (m p : ℕ) (h : Heap)
    → IsOwn m p h
    → value (delete_key_at label p h) m ≡ value h m
value-delete_key_at_own label m p h (inl (pointers, arrays)) =
    value-delete_key_at_other label p m h pointers arrays
value-delete_key_at_own label m p h (inr nil) =
    ap (λ g. value g m) (delete_key_at-nil label p h nil)

value-migrate_at_own :
    (m p : ℕ) (selectors : Selectors) (h : Heap)
    → IsOwn m p h
    → value (migrate_at p selectors h) m ≡ value h m
unfolding migrate_at
value-migrate_at_own m p selectors h own = elim (Bool-cases (selects selectors otel_label)) [
  | inl e ↦ rw (e, migrate_at) (value-delete_key_at_own viaq_label m p h own)
  | inr e ↦ rw (e, migrate_at) (value-delete_key_at_own otel_label m p h own)
]

-- The matcher lies in the part of the heap that is in use.
abbrev pub IsAllocated : ℕ → Heap → Type 0
IsAllocated m h = (m < h.next_object) × ((h.objects m).keys.array < h.next_array)

-- What a request's pointer is after `ForRequest`.
record IsRequest (m : ℕ) (h : Heap) (v : Matcher) (p : ℕ) (h' : Heap) : Type 0 where
  pub own : IsOwn m p h'
  pub shared : value h' m ≡ value h m
  pub request : value h' p ≡ v

new_empty-IsRequest :
    (m : ℕ) (h : Heap)
    → IsAllocated m h
    → IsRequest m h empty_matcher (new_empty h).0 (new_empty h).1
new_empty-IsRequest m h (object, array) =
    let other : m ≢ h.next_object = omega arith in
    record {
      own = inr (rw same_index);
      shared = rw (other_index m h.next_object other);
      request = rw same_index;
    }

clone_object-IsRequest :
    (m : ℕ) (h : Heap)
    → IsAllocated m h
    → IsRequest m h (value h m) (clone_object m h).0 (clone_object m h).1
clone_object-IsRequest m h (object, array) =
    let other : m ≢ h.next_object = omega arith in
    let apart : (h.objects m).keys.array ≢ h.next_array = omega arith in
    record {
      own = inl (other, rw (same_index, other_index m h.next_object other) apart);
      shared =
          rw (other_index m h.next_object other)
            (rw (other_index (h.objects m).keys.array h.next_array apart));
      request = rw same_index (rw same_index (rw (take-length_take (h.objects m).keys.len)));
    }

for_request_at-IsRequest :
    (m : ℕ) (tenant : String) (groups : List String) (h : Heap)
    → IsAllocated m h
    → IsRequest m h
        (for_request (value h m) tenant groups)
        (for_request_at m tenant groups h).0
        (for_request_at m tenant groups h).1
unfolding for_request_at for_request
for_request_at-IsRequest m tenant groups h allocated = elim (Bool-cases (is_empty (value h m))) [
  | inl e ↦
      rw (e, for_request_at, for_request)
        (record { own = inr (nil_of_is_nil (value h m).keys e); shared = refl; request = refl })
  | inr e ↦ elim (Bool-cases (has tenant (h.objects m).skip_tenants)) [
    | inl skip ↦ rw (e, skip, for_request_at, for_request) (new_empty-IsRequest m h allocated)
    | inr keep ↦ elim (Bool-cases (any_admin (h.objects m).admin_groups groups)) [
      | inl admin ↦
          rw (e, keep, admin, for_request_at, for_request) (new_empty-IsRequest m h allocated)
      | inr user ↦
          rw (e, keep, user, for_request_at, for_request) (clone_object-IsRequest m h allocated)
    ]
  ]
]

-- A request gets the matcher that the functions on values compute, after the migration if that is
-- on; and the matcher that all requests share still has the value that it had before.
pub migrate_at-for_request_at :
    (m : ℕ) (tenant : String) (groups : List String) (selectors : Selectors) (h : Heap)
    → IsAllocated m h
    → let request = for_request_at m tenant groups h in
      let migrated = migrate_at request.0 selectors request.1 in
      (value request.1 request.0 ≡ for_request (value h m) tenant groups)
      × (value migrated request.0
          ≡ viaq_to_otel_migration (for_request (value h m) tenant groups) selectors)
      × (value request.1 m ≡ value h m)
      × (value migrated m ≡ value h m)
migrate_at-for_request_at m tenant groups selectors h allocated =
    let r = for_request_at-IsRequest m tenant groups h allocated in
    let request = for_request_at m tenant groups h in
    (
      r.request,
      value-migrate_at request.0 selectors request.1
          ∙ ap (λ v. viaq_to_otel_migration v selectors) r.request,
      r.shared,
      value-migrate_at_own m request.0 selectors request.1 r.own ∙ r.shared,
    )
