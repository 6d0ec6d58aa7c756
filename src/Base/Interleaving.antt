-- ===== src/Base/Interleaving.antt =====
-- Processes that take turns on a state which they share, in any order, while the state may lose
-- something in between. It models no file of the repository by itself.
use Prim.Native.Nat.{ℕ, ◌+◌, ◌≤◌, ◌<◌}
use mathlib.Core.Path.{◌≡◌, sym, subst, ap}
use mathlib.Core.Logic.{◌⊎◌, inl, inr}
use mathlib.Core.Bool.{true}
use native.Mathlib.Omega.{arith}
use opa_openshift.Base.Tests.{◌=?◌, if◌then◌else◌, Bool-cases}

abbrev pub update {ℓ} : {A : Type ℓ} → (ℕ → A) → ℕ → A → ℕ → A
update f i a j = if j =? i then a else f j

-- The shared state, and where each process stands.
pub record System (S Ph : Type 0) : Type 0 where
  pub shared : S
  pub phase : ℕ → Ph

module _ {S Ph : Type 0} (Move : ℕ → S → Ph → S → Ph → Type 0) (Lose : S → S → Type 0) where
  -- One process moves, or the state loses something.
  pub data Step (y : System S Ph) : System S Ph → Type 0 where
    turn :
        (i : ℕ) {s : S} {p : Ph}
        → Move i y.shared (y.phase i) s p
        → Step y (record { shared = s; phase = update y.phase i p })
    lose : (s : S) → Lose y.shared s → Step y (record { shared = s; phase = y.phase })

  pub data Reach (IsStart : System S Ph → Type 0) : System S Ph → Type 0 where
    start : {y : System S Ph} → IsStart y → Reach IsStart y
    later : {y z : System S Ph} → Reach IsStart y → Step y z → Reach IsStart z

  -- A property of the shared state, and one of each process beside it, that all moves keep.
  pub record Invariant : Type 1 where
    pub Kept : S → Type 0
    pub Sound : S → ℕ → Ph → Type 0
    pub move_keeps :
        (i : ℕ) {s s' : S} {p p' : Ph}
        → Move i s p s' p'
        → Kept s
        → Sound s i p
        → Kept s' × Sound s' i p'
    pub move_spares :
        (i j : ℕ) {s s' : S} {p p' q : Ph} → Move i s p s' p' → Sound s j q → Sound s' j q
    pub lose_keeps : {s s' : S} → Lose s s' → Kept s → Kept s'
    pub lose_spares : (j : ℕ) {s s' : S} {q : Ph} → Lose s s' → Sound s j q → Sound s' j q

  module _ (inv : Invariant) where
    open inv use {Kept, Sound, move_keeps, move_spares, lose_keeps, lose_spares}

    -- The shared state has the one property, and every process the other.
    pub record IsSoundSystem (y : System S Ph) : Type 0 where
      pub kept : Kept y.shared
      pub sound : (i : ℕ) → Sound y.shared i (y.phase i)

    update-Sound :
        (s : S) (phase : ℕ → Ph) (i : ℕ) (p : Ph)
        → ((j : ℕ) → Sound s j (phase j))
        → Sound s i p
        → (j : ℕ) → Sound s j (update phase i p j)
    update-Sound s phase i p h hp j = elim (Bool-cases (j =? i)) [
      | inl e ↦ let same : j ≡ i = ground arith in rw e (subst (λ k. Sound s k p) (sym same) hp)
      | inr e ↦ rw e (h j)
    ]

    Step-IsSoundSystem : {y z : System S Ph} → Step y z → IsSoundSystem y → IsSoundSystem z
    Step-IsSoundSystem {y} (turn i {s} {p} move) h =
        let (f, g) = move_keeps i move h.kept (h.sound i) in
        record {
          kept = f;
          sound = update-Sound s y.phase i p (λ j. move_spares i j move (h.sound j)) g;
        }
    Step-IsSoundSystem (lose s lost) h = record {
      kept = lose_keeps lost h.kept;
      sound = λ j. lose_spares j lost (h.sound j);
    }

    pub Reach-IsSoundSystem :
        {IsStart : System S Ph → Type 0}
        → ((y : System S Ph) → IsStart y → IsSoundSystem y)
        → {y : System S Ph} → Reach IsStart y
        → IsSoundSystem y
    Reach-IsSoundSystem begin (start {y} h) = begin y h
    Reach-IsSoundSystem begin (later reached step) =
        Step-IsSoundSystem step (Reach-IsSoundSystem begin reached)

  module _ (i : ℕ) where
    -- A run of all processes in which process i moves n times.
    pub data Run (y : System S Ph) : ℕ → System S Ph → Type 0 where
      stay : Run y 0 y
      own :
          {n : ℕ} {z : System S Ph} {s : S} {p : Ph}
          → Run y n z
          → Move i z.shared (z.phase i) s p
          → Run y (n + 1) (record { shared = s; phase = update z.phase i p })
      elsewhere :
          {n : ℕ} {z z' : System S Ph} → Run y n z → Step z z' → z'.phase i ≡ z.phase i → Run y n z'

    -- A rank that every move of process i lowers, and which is left only when it is done.
    pub record Ranking : Type 1 where
      pub rank : Ph → ℕ
      pub move-rank : {s s' : S} {p p' : Ph} → Move i s p s' p' → rank p' + 1 ≤ rank p
      pub Done : Ph → Type 0
      pub moves_on : (s : S) (p : Ph) → Done p ⊎ ((s' : S) × (p' : Ph) × Move i s p s' p')

    module _ (ranking : Ranking) where
      open ranking use {rank, move-rank, Done, moves_on}

      Run-rank : {y z : System S Ph} {n : ℕ} → Run y n z → rank (z.phase i) + n ≤ rank (y.phase i)
      Run-rank stay = omega arith
      Run-rank (own {n} {z} {s} {p} run move) =
          let itself : (i =? i) ≡ true = ground arith in
          let before = Run-rank run in let less = move-rank move in rw itself (omega arith)
      Run-rank (elsewhere run step same) = rw (ap rank same) (Run-rank run)

      -- A process whose moves lower its rank makes no more of them than its rank at the start, and
      -- while it is not done, it has made fewer and can make the next.
      pub Run-progress :
          {y z : System S Ph} {n : ℕ}
          → Run y n z
          → (n ≤ rank (y.phase i))
            × (Done (z.phase i) ⊎ ((n < rank (y.phase i)) × (z' : System S Ph) × Run y (n + 1) z'))
      Run-progress {y} {z} {n} run =
          let all_moves = Run-rank run in
          (
            omega arith,
            elim (moves_on z.shared (z.phase i)) [
              | inl done ↦ inl done
              | inr (s, p, move) ↦ let less = move-rank move in inr (omega arith, _, own run move)
            ],
          )
