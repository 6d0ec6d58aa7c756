-- ===== src/Fakes.antt =====
-- The test doubles under internal/external, which counterfeiter generates: k8s/k8sfakes and
-- ocp/ocpfakes. Every method of a double is generated from one template, which is here; each
-- double has a module below. A function holds the locks of what it reads and writes all along, so
-- that it is one step. The state X is what stubs may change, outside of the double.
pub mod Boxed
pub mod Recorded
pub mod Invocations
pub mod Answers
pub mod SubjectReview
pub mod SelfReview
pub mod Authorization
pub mod ClientSet
pub mod ProjectClient
pub mod Project
pub mod Client
use opa_openshift.Base.{
  ℕ, String, Bool, List, [], ◌∷◌, snoc, length, get_elem?, Option, none, some, if◌then◌else◌, ◌=?◌,
}
use opa_openshift.Base.Assoc.{Assoc, lookup, has, put}

-- The fields of the struct for one method, with arguments A and results R. A nil function is
-- none. The keys of the map are the indices of calls; no call has a negative one.
pub record Method (X A R : Type 0) : Type 0 where
  pub stub : Option (A → X → R × X)
  pub args_for_call : List A
  pub returns : R
  pub returns_on_call : List (ℕ × R)

-- `ret, specificReturn := fake.returnsOnCall[i]`
unfoldable pub specific_return : {R : Type 0} → ℕ → List (ℕ × R) → Option R
specific_return i [] = none
specific_return i ((j, r) ∷ m) = if j =? i then some r else specific_return i m

abbrev pub Recorded : Type 0 → Type 0
Recorded V = Assoc (List (List V))

module _ {V : Type 0} where
  -- `fake.invocations[key]`
  unfoldable pub recorded_at : String → Recorded V → List (List V)
  recorded_at key m = elim (lookup key m) [ none ↦ [] | some calls ↦ calls ]

  unfoldable pub record_invocation : String → List V → Recorded V → Recorded V
  record_invocation key args m =
      let m' = if has key m then m else put key [] m in put key (snoc (recorded_at key m') args) m'

  -- `Invocations`: a new map with the entries of the old
  unfoldable pub copied_invocations : Recorded V → Recorded V
  copied_invocations [] = []
  copied_invocations ((key, value) ∷ m) = put key value (copied_invocations m)

-- Where a double F keeps one of its methods, the name that the method is recorded under, and how
-- its arguments are when they are boxed as values of the type V.
pub record Fields (X V F A R : Type 0) : Type 0 where
  pub name : String
  pub box : A → List V
  pub method : F → Method X A R
  pub set_method : Method X A R → F → F
  pub invocations : F → Recorded V
  pub set_invocations : Recorded V → F → F

-- The functions that are generated for one method.
pub record Double (X F A R : Type 0) : Type 0 where
  pub call : A → F → X → R × F × X
  pub call_count : F → ℕ
  pub calls : Option (A → X → R × X) → F → F
  pub set_returns : R → F → F
  pub set_returns_on_call : ℕ → R → F → F

module _ {X V F A R : Type 0} (fields : Fields X V F A R) where
  open fields use {name, box, method, set_method, invocations, set_invocations}

  -- The call is recorded; the lock is released before the stub is called.
  unfoldable pub recorded : A → F → F
  recorded args f =
      let m = method f in
      let f' = set_method (record m { args_for_call = snoc m.args_for_call args }) f in
      set_invocations (record_invocation name (box args) (invocations f')) f'

  unfoldable pub call : A → F → X → R × F × X
  call args f x =
      let m = method f in
      let specific = specific_return (length m.args_for_call) m.returns_on_call in
      let f' = recorded args f in
      elim m.stub [
        | some stub ↦ let (r, x') = stub args x in (r, f', x')
        | none ↦ elim specific [ some r ↦ (r, f', x) | none ↦ (m.returns, f', x) ]
      ]

  unfoldable pub call_count : F → ℕ
  call_count f = length (method f).args_for_call

  unfoldable pub calls : Option (A → X → R × X) → F → F
  calls stub f = set_method (record (method f) { stub = stub }) f

  unfoldable pub set_returns : R → F → F
  set_returns r f = set_method (record (method f) { stub = none; returns = r }) f

  -- the new entry replaces an older one for the same call
  unfoldable pub set_returns_on_call : ℕ → R → F → F
  set_returns_on_call i r f =
      let m = method f in
      set_method (record m { stub = none; returns_on_call = (i, r) ∷ m.returns_on_call }) f

  abbrev pub double : Double X F A R
  double = record {
    call = call;
    call_count = call_count;
    calls = calls;
    set_returns = set_returns;
    set_returns_on_call = set_returns_on_call;
  }

  -- none is a panic: the index is out of range
  unfoldable pub args_for_call : ℕ → F → Option A
  args_for_call i f = get_elem? (method f).args_for_call i

-- A method of a new double.
abbrev pub fresh : {X A R : Type 0} → R → Method X A R
fresh zero_value = record {
  stub = none;
  args_for_call = [];
  returns = zero_value;
  returns_on_call = [];
}
