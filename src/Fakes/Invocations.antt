-- ===== src/Fakes/Invocations.antt =====
-- What the doubles under internal/external remember of the calls they got.
use opa_openshift.Base.{
  ℕ, List, [], map, snoc, length, get_elem?, Option, ◌≡◌, ◌≢◌, refl, sym, ap, ◌∙◌, subst, arith,
  eq_refl,
}
use opa_openshift.Fakes.{
  Method, Recorded, recorded_at, record_invocation, copied_invocations, Fields, recorded, call,
  call_count, calls, set_returns, set_returns_on_call, args_for_call,
}
use opa_openshift.Fakes.Recorded.{
  recorded_at-record_invocation, recorded_at-copied, other_key, map-snoc,
}

-- A call changes the double as recording it does, whatever it returns.
pub call-recorded :
    {X V F A R : Type 0} (s : Fields X V F A R) (args : A) (f : F) (x : X)
    → (call s args f x).1 ≡ recorded s args f
unfolding call
call-recorded s args f x = ground arith

module _ {X V F A R : Type 0} (s : Fields X V F A R) where
  -- The two fields do not overlap.
  pub record FieldsLaws : Type 0 where
    pub method-set_method : (m : Method X A R) (f : F) → s.method (s.set_method m f) ≡ m
    pub method-set_invocations :
        (c : Recorded V) (f : F) → s.method (s.set_invocations c f) ≡ s.method f
    pub invocations-set_method :
        (m : Method X A R) (f : F) → s.invocations (s.set_method m f) ≡ s.invocations f
    pub invocations-set_invocations :
        (c : Recorded V) (f : F) → s.invocations (s.set_invocations c f) ≡ c

  -- The fields of another method of the same double: they have another name, and nothing in
  -- common but the invocations.
  pub record IsApart {B T : Type 0} (t : Fields X V F B T) : Type 0 where
    pub names : t.name ≢ s.name
    pub method-set_method : (m : Method X B T) (f : F) → s.method (t.set_method m f) ≡ s.method f
    pub method-set_invocations :
        (c : Recorded V) (f : F) → s.method (t.set_invocations c f) ≡ s.method f
    pub same_invocations : (f : F) → t.invocations f ≡ s.invocations f
    pub invocations-set_method :
        (m : Method X B T) (f : F) → s.invocations (t.set_method m f) ≡ s.invocations f
    pub invocations-set_invocations :
        (c : Recorded V) (f : F) → s.invocations (t.set_invocations c f) ≡ c

  -- One use of another method's functions.
  pub data Other (f : F) : F → Type 1 where
    call_other :
        {B T : Type 0} (t : Fields X V F B T)
        → IsApart t
        → (args : B) (x : X) → Other f (call t args f x).1
    stub_other :
        {B T : Type 0} (t : Fields X V F B T)
        → IsApart t
        → (stub : Option (B → X → T × X)) → Other f (calls t stub f)
    return_other :
        {B T : Type 0} (t : Fields X V F B T) → IsApart t → (r : T) → Other f (set_returns t r f)
    return_on_call_other :
        {B T : Type 0} (t : Fields X V F B T)
        → IsApart t
        → (i : ℕ) (r : T) → Other f (set_returns_on_call t i r f)

  -- The uses of a double that starts as f, with the calls of the method s and their arguments.
  pub data Used (f : F) : List A → F → Type 1 where
    unused : Used f [] f
    called :
        {got : List A} {g : F}
        → Used f got g
        → (args : A) (x : X) → Used f (snoc got args) (call s args g x).1
    stubbed :
        {got : List A} {g : F}
        → Used f got g
        → (stub : Option (A → X → R × X)) → Used f got (calls s stub g)
    returning : {got : List A} {g : F} → Used f got g → (r : R) → Used f got (set_returns s r g)
    returning_on_call :
        {got : List A} {g : F}
        → Used f got g
        → (i : ℕ) (r : R) → Used f got (set_returns_on_call s i r g)
    other : {got : List A} {g h : F} → Used f got g → Other g h → Used f got h

  -- The double has got these calls of the method, and no others.
  pub record HasCalls (got : List A) (f : F) : Type 0 where
    pub arguments : (s.method f).args_for_call ≡ got
    pub boxed : recorded_at s.name (s.invocations f) ≡ map s.box got

  module _ (laws : FieldsLaws) where
    pub method-recorded :
        (args : A) (f : F)
        → s.method (recorded s args f)
          ≡ record (s.method f) { args_for_call = snoc (s.method f).args_for_call args }
    unfolding recorded
    method-recorded args f = laws.method-set_invocations _ _ ∙ laws.method-set_method _ f

    invocations-recorded :
        (args : A) (f : F)
        → s.invocations (recorded s args f)
          ≡ record_invocation s.name (s.box args) (s.invocations f)
    unfolding recorded
    invocations-recorded args f =
        laws.invocations-set_invocations _ _
        ∙ ap (record_invocation s.name (s.box args)) (laws.invocations-set_method _ f)

    recorded-HasCalls :
        (got : List A) (args : A) (f : F)
        → HasCalls got f
        → HasCalls (snoc got args) (recorded s args f)
    recorded-HasCalls got args f h = record {
      arguments =
          ap (λ (m : Method X A R). m.args_for_call) (method-recorded args f)
          ∙ ap (λ l. snoc l args) h.arguments;
      boxed =
          ap (recorded_at s.name) (invocations-recorded args f)
          ∙ recorded_at-record_invocation s.name s.name (s.box args) (s.invocations f)
          ∙ rw (eq_refl s.name, h.boxed, map-snoc s.box got args);
    }

    set_method-HasCalls :
        (got : List A) (m : Method X A R) (f : F)
        → m.args_for_call ≡ (s.method f).args_for_call
        → HasCalls got f
        → HasCalls got (s.set_method m f)
    set_method-HasCalls got m f same h = record {
      arguments =
          ap (λ (k : Method X A R). k.args_for_call) (laws.method-set_method m f)
          ∙ same
          ∙ h.arguments;
      boxed = rw (laws.invocations-set_method m f) h.boxed;
    }

  -- What stands in the fields of s, apart from another method's record.
  module _ {B T : Type 0} (t : Fields X V F B T) (apart : IsApart t) where
    apart_set_method-HasCalls :
        (got : List A) (m : Method X B T) (f : F) → HasCalls got f → HasCalls got (t.set_method m f)
    apart_set_method-HasCalls got m f h = record {
      arguments = rw (apart.method-set_method m f) h.arguments;
      boxed = rw (apart.invocations-set_method m f) h.boxed;
    }

    apart_recorded-HasCalls :
        (got : List A) (args : B) (f : F) → HasCalls got f → HasCalls got (recorded t args f)
    unfolding recorded
    apart_recorded-HasCalls got args f h =
        let f' =
          t.set_method
            (record (t.method f) { args_for_call = snoc (t.method f).args_for_call args }) f in
        let old = apart_set_method-HasCalls got _ f h in
        record {
          arguments =
              ap (λ (m : Method X A R). m.args_for_call) (apart.method-set_invocations _ f')
              ∙ old.arguments;
          boxed =
              ap (recorded_at s.name) (apart.invocations-set_invocations _ f')
              ∙ ap (λ c. recorded_at s.name (record_invocation t.name (t.box args) c))
                  (apart.same_invocations f')
              ∙ recorded_at-record_invocation t.name s.name (t.box args) (s.invocations f')
              ∙ other_key t.name s.name apart.names _ _
              ∙ old.boxed;
        }

  Other-HasCalls : (got : List A) {f g : F} → HasCalls got f → Other f g → HasCalls got g
  unfolding calls set_returns set_returns_on_call
  Other-HasCalls got {f} h (call_other t apart args x) =
      subst (HasCalls got) (sym (call-recorded t args f x))
        (apart_recorded-HasCalls t apart got args f h)
  Other-HasCalls got {f} h (stub_other t apart stub) = apart_set_method-HasCalls t apart got _ f h
  Other-HasCalls got {f} h (return_other t apart r) = apart_set_method-HasCalls t apart got _ f h
  Other-HasCalls got {f} h (return_on_call_other t apart i r) =
      apart_set_method-HasCalls t apart got _ f h

  module _ (laws : FieldsLaws) where
    Used-HasCalls : {f : F} {got : List A} {g : F} → HasCalls [] f → Used f got g → HasCalls got g
    unfolding calls set_returns set_returns_on_call
    Used-HasCalls h unused = h
    Used-HasCalls h (called {got} {g} used args x) =
        subst (HasCalls (snoc got args)) (sym (call-recorded s args g x))
          (recorded-HasCalls laws got args g (Used-HasCalls h used))
    Used-HasCalls h (stubbed {got} {g} used stub) =
        set_method-HasCalls laws got _ g refl (Used-HasCalls h used)
    Used-HasCalls h (returning {got} {g} used r) =
        set_method-HasCalls laws got _ g refl (Used-HasCalls h used)
    Used-HasCalls h (returning_on_call {got} {g} used i r) =
        set_method-HasCalls laws got _ g refl (Used-HasCalls h used)
    Used-HasCalls h (other {got} used step) = Other-HasCalls got (Used-HasCalls h used) step

    -- However a new double is used, by calls of this method and of others, with stubs and results
    -- set in between: the count, the arguments of the i-th call and the entry of the copied
    -- invocations are those of the calls of this method, in their order.
    pub Used-invocations :
        {got : List A} {f g : F}
        → HasCalls [] f
        → Used f got g
        → (call_count s g ≡ length got)
          × ((i : ℕ) → args_for_call s i g ≡ get_elem? got i)
          × (recorded_at s.name (copied_invocations (s.invocations g)) ≡ map s.box got)
    unfolding call_count args_for_call
    Used-invocations {got} {f} {g} h used =
        let all = Used-HasCalls h used in
        (
          ap length all.arguments,
          (λ i. ap (λ l. get_elem? l i) all.arguments),
          recorded_at-copied s.name (s.invocations g) ∙ all.boxed,
        )

-- A call leaves the fields of another method as they are.
pub apart-call :
    {X V F A R B T : Type 0} (s : Fields X V F A R) (t : Fields X V F B T)
    → IsApart s t
    → (args : B) (f : F) (x : X) → s.method (call t args f x).1 ≡ s.method f
unfolding recorded
apart-call s t apart args f x =
    ap s.method (call-recorded t args f x)
    ∙ apart.method-set_invocations _ _
    ∙ apart.method-set_method _ f
