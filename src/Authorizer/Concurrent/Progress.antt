-- ===== src/Authorizer/Concurrent/Progress.antt =====
-- Calls of `Authorize` that run at the same time do not hold each other up: the code of
-- internal/authorizer/authorizer.go takes no lock, so a call goes on whatever the others do.
use opa_openshift.Base.{
  ℕ, String, none, some, ◌≡◌, ◌⊎◌, inl, inr, refl, ◌+◌, ◌≤◌, ◌<◌, arith, Result, Bool-cases,
  Result-cases, subst,
}
use opa_openshift.Base.Interleaving.{System, Ranking, Run, Run-progress}
use opa_openshift.Response.{DataResponse}
use opa_openshift.Openshift.{Client}
use opa_openshift.Cache.{Cacher, CacherLaws}
use opa_openshift.Authorizer.Data.{Labels}
use opa_openshift.Authorizer.Inner.{authorize_inner}
use opa_openshift.Authorizer.Concurrent.{
  Task, Phase, waiting, missed, decided, finished, known_verb, task_key, task_query, any_client,
  Move, refuse, fault, hit, miss, fail, decide, store, IsLoss, TaskMove,
}

-- How many steps a call still makes at most.
abbrev pub rank : Phase → ℕ
rank waiting = 3
rank missed = 2
rank (decided r) = 1
rank (finished res) = 0

abbrev pub IsFinished : Phase → Type 0
IsFinished p = (res : Result DataResponse) × (p ≡ finished res)

module _ {C W S : Type 0} (backend : C → Client W × W) (sha256_hex : String → String)
    (labels : Labels) where
  module _ (cache : Cacher S) (t : Task) where
    pub Move-rank :
        {s s' : S} {p p' : Phase}
        → Move backend sha256_hex labels cache t s p s' p'
        → rank p' + 1 ≤ rank p
    Move-rank (refuse unknown) = omega arith
    Move-rank (fault e known failed) = omega arith
    Move-rank (hit r known found) = omega arith
    Move-rank (miss known nothing) = omega arith
    Move-rank (fail c e failed) = omega arith
    Move-rank (decide c r made) = omega arith
    Move-rank (store r) = omega arith

    abbrev pub IsMovable : S → Phase → Type 0
    IsMovable s p = (s' : S) × (p' : Phase) × Move backend sha256_hex labels cache t s p s' p'

    waiting-IsMovable : (s : S) → IsMovable s waiting
    waiting-IsMovable s = elim (Bool-cases (known_verb t.query)) [
      | inr unknown ↦ (_, _, refuse unknown)
      | inl known ↦ elim (Result-cases (cache.get s (task_key sha256_hex t)).0) [
        | inr (e, failed) ↦ (_, _, fault e known failed)
        | inl (none, nothing) ↦ (_, _, miss known nothing)
        | inl (some r, found) ↦ (_, _, hit r known found)
      ]
    ]

    -- A call that has not returned can make its next step, whatever the cache holds.
    pub moves_on : (c : C) (s : S) (p : Phase) → IsFinished p ⊎ IsMovable s p
    moves_on c s waiting = inr (waiting-IsMovable s)
    moves_on c s missed =
        let out =
          authorize_inner labels (backend c).0 t.matcher (task_query sha256_hex t) (backend c).1 in
        elim (Result-cases out.0) [
          | inr (e, failed) ↦ inr (_, _, fail c e failed)
          | inl (r, made) ↦ inr (_, _, decide c r made)
        ]
    moves_on c s (decided r) = inr (_, _, store r)
    moves_on c s (finished res) = inl (res, refl)

module _ (W : Type 0) {S : Type 0} (sha256_hex : String → String) (labels : Labels)
    {cache : Cacher S} (laws : CacherLaws cache) (tasks : ℕ → Task) (i : ℕ) where
  abbrev TaskRun : System S Phase → ℕ → System S Phase → Type 0
  TaskRun = Run (TaskMove (any_client W) sha256_hex labels laws tasks) (IsLoss laws) i

  abbrev steps_left :
      Client W × W → Ranking (TaskMove (any_client W) sha256_hex labels laws tasks) (IsLoss laws) i
  steps_left c = record {
    rank = rank;
    move-rank = λ move. Move-rank (any_client W) sha256_hex labels cache (tasks i) move;
    Done = IsFinished;
    moves_on = moves_on (any_client W) sha256_hex labels cache (tasks i) c;
  }

  -- In any run of all calls, however they are interleaved and whatever the cache loses, a call
  -- that starts makes at most three steps; and as long as it has not returned, it has made less
  -- than three and can make the next one.
  pub call-progress :
      (client : Client W) (w : W) {y z : System S Phase} {n : ℕ}
      → y.phase i ≡ waiting
      → TaskRun y n z
      → (n ≤ 3)
        × (((res : Result DataResponse) × (z.phase i ≡ finished res))
            ⊎ ((n < 3) × (z' : System S Phase) × TaskRun y (n + 1) z'))
  call-progress client w {y} {z} {n} fresh run =
      subst
        (λ p.
          (n ≤ rank p)
          × (IsFinished (z.phase i)
              ⊎ ((n < rank p) × (z' : System S Phase) × TaskRun y (n + 1) z')))
        fresh (Run-progress _ _ i (steps_left (client, w)) run)
