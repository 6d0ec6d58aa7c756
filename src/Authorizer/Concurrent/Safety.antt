-- ===== src/Authorizer/Concurrent/Safety.antt =====
-- What calls of `Authorize` that run at the same time may answer: internal/authorizer.
use opa_openshift.Base.{ℕ, String, ◌≡◌, inl, inr, refl, sym, subst, ok, err}
use opa_openshift.Base.Interleaving.{System, Reach, Invariant, IsSoundSystem, Reach-IsSoundSystem}
use opa_openshift.Response.{DataResponse}
use opa_openshift.Openshift.{Client}
use opa_openshift.Cache.{Cacher, CacherLaws}
use opa_openshift.Authorizer.Data.{Labels}
use opa_openshift.Authorizer.Inner.{authorize_inner}
use opa_openshift.Authorizer.Cached.Keyed.{IsKept}
use opa_openshift.Authorizer.Cached.Provenance.{IsDecision}
use opa_openshift.Authorizer.Concurrent.{
  Task, Phase, waiting, missed, decided, finished, task_key, task_query, any_client, Move, refuse,
  fault, hit, miss, fail, decide, store, IsLoss, TaskMove, IsFresh,
}

-- A property that every decision has under the key of its task.
module _ {C W S : Type 0} (backend : C → Client W × W) (sha256_hex : String → String)
    (labels : Labels) {cache : Cacher S} (laws : CacherLaws cache)
    (P : String → DataResponse → Type 0) where
  abbrev pub Decides : Task → Type 0
  Decides t =
      (c : C) (r : DataResponse)
      → (authorize_inner labels (backend c).0 t.matcher (task_query sha256_hex t) (backend c).1).0
        ≡ ok r
      → P (task_key sha256_hex t) r

  -- The response that a call holds, if it does, has the property under the call's key.
  abbrev pub IsSound : Task → Phase → Type 0
  IsSound t waiting = Unit
  IsSound t missed = Unit
  IsSound t (decided r) = P (task_key sha256_hex t) r
  IsSound t (finished (ok r)) = P (task_key sha256_hex t) r
  IsSound t (finished (err e)) = Unit

  -- The response of a step that decides has the property.
  abbrev pub Decided :
      {t : Task} {s s' : S} {p p' : Phase}
      → Move backend sha256_hex labels cache t s p s' p'
      → Type 0
  Decided {t} (decide c r made) = P (task_key sha256_hex t) r
  Decided _ = Unit

  Decides-Decided :
      {t : Task} {s s' : S} {p p' : Phase}
      → Decides t
      → (move : Move backend sha256_hex labels cache t s p s' p') → Decided move
  Decides-Decided d (refuse unknown) = tt
  Decides-Decided d (fault e known failed) = tt
  Decides-Decided d (hit r known found) = tt
  Decides-Decided d (miss known nothing) = tt
  Decides-Decided d (fail c e failed) = tt
  Decides-Decided d (decide c r made) = d c r made
  Decides-Decided d (store r) = tt

  pub Move-IsSound :
      {t : Task} {s s' : S} {p p' : Phase} (move : Move backend sha256_hex labels cache t s p s' p')
      → Decided move
      → IsKept W sha256_hex labels laws P s
      → IsSound t p
      → IsKept W sha256_hex labels laws P s' × IsSound t p'
  Move-IsSound (refuse unknown) d f h = (f, tt)
  Move-IsSound {t} {s} (fault e known failed) d f h =
      (λ k r held. f k r (laws.get_keeps s _ k r held), tt)
  Move-IsSound {t} {s} (hit r known found) d f h =
      (λ k p held. f k p (laws.get_keeps s _ k p held), f _ r (laws.get_holds s _ r found))
  Move-IsSound {t} {s} (miss known nothing) d f h =
      (λ k r held. f k r (laws.get_keeps s _ k r held), tt)
  Move-IsSound (fail c e failed) d f h = (f, tt)
  Move-IsSound (decide c r made) d f h = (f, d)
  Move-IsSound {t} {s} (store r) d f h = (
    λ k p held. elim (laws.set_holds s (task_key sha256_hex t) k r p held) [
      | inl (same, value) ↦ subst (λ j. P j p) same (subst (P _) value h)
      | inr old ↦ f k p old
    ],
    h,
  )

module _ (W : Type 0) {S : Type 0} (sha256_hex : String → String) (labels : Labels)
    {cache : Cacher S} (laws : CacherLaws cache) (tasks : ℕ → Task) where
  -- every decision is one, under its own key
  own-IsDecision :
      (t : Task) → Decides (any_client W) sha256_hex labels laws (IsDecision W sha256_hex labels) t
  own-IsDecision t (client, w) r made = record {
    client = client;
    matcher = t.matcher;
    query = t.query;
    world = w;
    same_key = refl;
    decided = made;
  }

  abbrev decisions : Invariant (TaskMove (any_client W) sha256_hex labels laws tasks) (IsLoss laws)
  decisions = record {
    Kept = IsKept W sha256_hex labels laws (IsDecision W sha256_hex labels);
    Sound = λ s i.
        IsSound (any_client W) sha256_hex labels laws (IsDecision W sha256_hex labels) (tasks i);
    move_keeps = λ i move.
        Move-IsSound (any_client W) sha256_hex labels laws (IsDecision W sha256_hex labels) move (
          Decides-Decided (any_client W) sha256_hex labels laws (IsDecision W sha256_hex labels)
            (own-IsDecision (tasks i)) move);
    move_spares = λ i j move h. h;
    lose_spares = λ j lost h. h;
    lose_keeps = λ lost h k r held. h k r (lost k r held);
  }

  IsFresh-IsSoundSystem :
      (y : System S Phase)
      → IsFresh (any_client W) sha256_hex labels laws tasks y
      → IsSoundSystem
          (TaskMove (any_client W) sha256_hex labels laws tasks)
          (IsLoss laws)
          decisions
          y
  IsFresh-IsSoundSystem y (empty, fresh) = record {
    kept = λ k r held. absurd (empty k r held);
    sound = λ i. subst (decisions.Sound y.shared i) (sym (fresh i)) tt;
  }

  -- However the steps of the calls are interleaved, and whatever the cache loses on the way, a
  -- call that returns a response returns a decision that was made, by itself or by another call,
  -- under its own cache key.
  pub finished-IsDecision :
      {y : System S Phase}
      → Reach
          (TaskMove (any_client W) sha256_hex labels laws tasks)
          (IsLoss laws)
          (IsFresh (any_client W) sha256_hex labels laws tasks)
          y
      → (i : ℕ) (r : DataResponse) → y.phase i ≡ finished (ok r)
      → IsDecision W sha256_hex labels (task_key sha256_hex (tasks i)) r
  finished-IsDecision {y} reached i r e =
      subst (decisions.Sound y.shared i) e
        ((Reach-IsSoundSystem _ _ decisions IsFresh-IsSoundSystem reached).sound i)
