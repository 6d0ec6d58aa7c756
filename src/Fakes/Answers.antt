-- ===== src/Fakes/Answers.antt =====
-- What the doubles under internal/external answer when no stub is set.
use opa_openshift.Base.{
  ℕ, ◌+◌, List, [], ◌∷◌, snoc, length, length-append, none, some, ◌≡◌, refl, ap, ◌∙◌, arith, ◌=?◌,
  if◌then◌else◌,
}
use opa_openshift.Fakes.{
  Method, specific_return, Fields, call, call_count, set_returns_on_call, fresh,
}
use opa_openshift.Fakes.Invocations.{FieldsLaws, call-recorded, method-recorded}

-- The answer to the call with the index i: its own, or else that for all calls.
abbrev pub answer : {X A R : Type 0} → ℕ → Method X A R → R
answer i m = elim (specific_return i m.returns_on_call) [ some r ↦ r | none ↦ m.returns ]

-- The answers to calls with these arguments, from the call with the index i on.
abbrev pub answers : {X A R : Type 0} → ℕ → Method X A R → List A → List R
answers i m [] = []
answers i m (args ∷ rest) = answer i m ∷ answers (i + 1) m rest

cons-cong : {A : Type 0} {x y : A} {xs ys : List A} → x ≡ y → xs ≡ ys → x ∷ xs ≡ y ∷ ys
cons-cong e h = cc

module _ {X V F A R : Type 0} (s : Fields X V F A R) where
  -- The method is called once for each of the arguments.
  unfoldable pub call_all : List A → F → X → List R × F × X
  call_all [] f x = ([], f, x)
  call_all (args ∷ rest) f x =
      let (r, f', x') = call s args f x in
      let (rs, f'', x'') = call_all rest f' x' in (r ∷ rs, f'', x'')

  -- The double returns r from now on, whatever it is called with.
  pub record IsReturning (r : R) (f : F) : Type 0 where
    pub no_stub : (s.method f).stub ≡ none
    pub always : (s.method f).returns ≡ r
    pub no_other : (s.method f).returns_on_call ≡ []

  module _ (laws : FieldsLaws s) where
    call-answer :
        (args : A) (f : F) (x : X)
        → (s.method f).stub ≡ none
        → ((call s args f x).0 ≡ answer (call_count s f) (s.method f)) × ((call s args f x).2 ≡ x)
    unfolding call call_count
    call-answer args f x e = ground arith

    answers-cong :
        (i : ℕ) (gs : List A) (m n : Method X A R)
        → m.returns ≡ n.returns
        → m.returns_on_call ≡ n.returns_on_call
        → answers i m gs ≡ answers i n gs
    answers-cong i [] m n e h = refl
    answers-cong i (args ∷ gs) m n e h = cons-cong (ground arith) (answers-cong (i + 1) gs m n e h)

    -- A call leaves the answers as they are.
    method-call :
        (args : A) (f : F) (x : X)
        → s.method (call s args f x).1
          ≡ record (s.method f) { args_for_call = snoc (s.method f).args_for_call args }
    method-call args f x = ap s.method (call-recorded s args f x) ∙ method-recorded s laws args f

    count-call : (args : A) (f : F) (x : X) → call_count s (call s args f x).1 ≡ call_count s f + 1
    unfolding call_count
    count-call args f x =
        ap (λ (m : Method X A R). length m.args_for_call) (method-call args f x)
        ∙ length-append (s.method f).args_for_call (args ∷ [])

    -- A double without a stub answers each call with what was set for its index, or else with what
    -- was set for all calls; the arguments do not matter, and nothing outside of the double
    -- changes.
    pub call_all-answers :
        (gs : List A) (f : F) (x : X)
        → (s.method f).stub ≡ none
        → ((call_all gs f x).0 ≡ answers (call_count s f) (s.method f) gs)
          × ((call_all gs f x).2 ≡ x)
    unfolding call_all
    call_all-answers [] f x e = (refl, refl)
    call_all-answers (args ∷ gs) f x e =
        let f' = (call s args f x).1 in
        let x' = (call s args f x).2 in
        let one = call-answer args f x e in
        let same = method-call args f x in
        let rest = call_all-answers gs f' x' (ap (λ (m : Method X A R). m.stub) same ∙ e) in
        (
          cons-cong one.0 (
              rest.0
              ∙ ap (λ i. answers i (s.method f') gs) (count-call args f x)
              ∙ answers-cong (call_count s f + 1) gs (s.method f') (s.method f)
                  (ap (λ (m : Method X A R). m.returns) same)
                  (ap (λ (m : Method X A R). m.returns_on_call) same)),
          rest.1 ∙ one.1,
        )

    count-call_all :
        (gs : List A) (f : F) (x : X)
        → call_count s (call_all gs f x).1 ≡ call_count s f + length gs
    unfolding call_all
    count-call_all [] f x = ground arith
    count-call_all (args ∷ gs) f x =
        let rest = count-call_all gs (call s args f x).1 (call s args f x).2 in
        let one = count-call args f x in ground arith

    -- what calls leave as it is
    call_all-kept :
        (gs : List A) (f : F) (x : X)
        → let m = s.method (call_all gs f x).1 in
          (m.stub ≡ (s.method f).stub)
          × (m.returns ≡ (s.method f).returns)
          × (m.returns_on_call ≡ (s.method f).returns_on_call)
    unfolding call_all
    call_all-kept [] f x = (refl, refl, refl)
    call_all-kept (args ∷ gs) f x =
        let (a, b, c) = call_all-kept gs (call s args f x).1 (call s args f x).2 in
        let same = method-call args f x in
        (
          a ∙ ap (λ (m : Method X A R). m.stub) same,
          b ∙ ap (λ (m : Method X A R). m.returns) same,
          c ∙ ap (λ (m : Method X A R). m.returns_on_call) same,
        )

    answer-cong :
        (n : ℕ) (m k : Method X A R)
        → m.returns ≡ k.returns
        → m.returns_on_call ≡ k.returns_on_call
        → answer n m ≡ answer n k
    answer-cong n m k e h = ground arith

    -- with one more entry in the map
    answer-entry :
        (n i : ℕ) (r : R) (m : Method X A R)
        → answer n (record m { stub = none; returns_on_call = (i, r) ∷ m.returns_on_call })
          ≡ (if i =? n then r else answer n m)
    unfolding specific_return
    answer-entry n i r m = ground arith

    -- What is set for the call with the index i is what that call returns, whatever the calls
    -- before it were and whatever stub was there; any other call that follows returns what was set
    -- for its own index, or else what was set for all calls.
    pub set_returns_on_call-call :
        (i : ℕ) (r : R) (gs : List A) (args : A) (f : F) (x : X)
        → let g = (call_all gs (set_returns_on_call s i r f) x).1 in
          let n = call_count s f + length gs in
          (call s args g x).0 ≡ (if i =? n then r else answer n (s.method f))
    unfolding set_returns_on_call call_count
    set_returns_on_call-call i r gs args f x =
        let entry : Method X A R = record (s.method f) {
          stub = none;
          returns_on_call = (i, r) ∷ (s.method f).returns_on_call;
        } in
        let f' = set_returns_on_call s i r f in
        let g = (call_all gs f' x).1 in
        let n = call_count s f + length gs in
        let start : s.method f' ≡ entry = laws.method-set_method entry f in
        let (no_stub, same, same_on_call) = call_all-kept gs f' x in
        let due : call_count s g ≡ n =
          count-call_all gs f' x
          ∙ ap (λ (m : Method X A R). length m.args_for_call + length gs) start in
        (call-answer args g x (no_stub ∙ ap (λ (m : Method X A R). m.stub) start)).0
        ∙ ap (λ k. answer k (s.method g)) due
        ∙ answer-cong n (s.method g) entry (same ∙ ap (λ (m : Method X A R). m.returns) start)
            (same_on_call ∙ ap (λ (m : Method X A R). m.returns_on_call) start)
        ∙ answer-entry n i r (s.method f)

    pub call-IsReturning :
        (r : R) (args : A) (f : F) (x : X)
        → IsReturning r f
        → ((call s args f x).0 ≡ r) × ((call s args f x).2 ≡ x) × IsReturning r (call s args f x).1
    unfolding specific_return
    call-IsReturning r args f x h =
        let one = call-answer args f x h.no_stub in
        let same = method-call args f x in
        (
          one.0 ∙ answer-cong (call_count s f) (s.method f) (fresh r) h.always h.no_other,
          one.1,
          record {
            no_stub = ap (λ (m : Method X A R). m.stub) same ∙ h.no_stub;
            always = ap (λ (m : Method X A R). m.returns) same ∙ h.always;
            no_other = ap (λ (m : Method X A R). m.returns_on_call) same ∙ h.no_other;
          },
        )

    -- A double with a stub answers as the stub does, and keeps it.
    pub call-stub :
        (stub : A → X → R × X) (args : A) (f : F) (x : X)
        → (s.method f).stub ≡ some stub
        → ((call s args f x).0 ≡ (stub args x).0)
          × ((call s args f x).2 ≡ (stub args x).1)
          × ((s.method (call s args f x).1).stub ≡ some stub)
    unfolding call
    call-stub stub args f x h = (
      rw (call, h) refl,
      rw (call, h) refl,
      ap (λ (m : Method X A R). m.stub) (method-call args f x) ∙ h,
    )
