-- ===== src/Fakes/Recorded.antt =====
-- The map of the recorded calls of a double under internal/external.
use opa_openshift.Base.{
  String, List, [], ◌∷◌, map, snoc, ◌≡◌, ◌≢◌, refl, ap, ◌∙◌, arith, ◌==◌, eq_iff, if◌then◌else◌,
  inl, inr, String-cases,
}
use opa_openshift.Base.Assoc.{lookup, has, put, lookup-put}
use opa_openshift.Fakes.{Recorded, recorded_at, record_invocation, copied_invocations}

module _ {V : Type 0} where
  recorded_at-put :
      (k j : String) (v : List (List V)) (m : Recorded V)
      → recorded_at j (put k v m) ≡ (if k == j then v else recorded_at j m)
  unfolding recorded_at
  recorded_at-put k j v m = ground (arith, lookup-put k j v m)

  -- Making an empty list for a key that has none changes nothing that is read.
  recorded_at-made :
      (k j : String) (m : Recorded V)
      → recorded_at j (if has k m then m else put k [] m) ≡ recorded_at j m
  unfolding recorded_at has
  recorded_at-made k j m = ground (arith, lookup-put k j [] m, eq_iff k j)

  pub recorded_at-record_invocation :
      (k j : String) (args : List V) (m : Recorded V)
      → recorded_at j (record_invocation k args m)
        ≡ (if k == j then snoc (recorded_at k m) args else recorded_at j m)
  unfolding record_invocation
  recorded_at-record_invocation k j args m =
      let m' = if has k m then m else put k [] m in
      recorded_at-put k j (snoc (recorded_at k m') args) m'
      ∙ rw (recorded_at-made k k m, recorded_at-made k j m)

  -- The copy holds what the map holds.
  lookup-copied : (k : String) (m : Recorded V) → lookup k (copied_invocations m) ≡ lookup k m
  unfolding copied_invocations lookup
  lookup-copied k [] = refl
  lookup-copied k ((j, v) ∷ m) =
      ground (arith, lookup-put j k v (copied_invocations m), lookup-copied k m)

  pub recorded_at-copied :
      (k : String) (m : Recorded V) → recorded_at k (copied_invocations m) ≡ recorded_at k m
  unfolding recorded_at
  recorded_at-copied k m = rw (recorded_at, lookup-copied k m)

pub other_key : {C : Type 0} (k j : String) → k ≢ j → (a b : C) → (if k == j then a else b) ≡ b
other_key k j h a b = elim (String-cases k j) [
  | inl (same, e) ↦ absurd (h same)
  | inr (_, e) ↦ rw e refl
]

pub map-snoc :
    {A B : Type 0} (f : A → B) (xs : List A) (x : A) → map f (snoc xs x) ≡ snoc (map f xs) (f x)
map-snoc f [] x = refl
map-snoc f (y ∷ xs) x = ap (◌∷◌ (f y)) (map-snoc f xs x)
