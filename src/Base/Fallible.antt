-- ===== src/Base/Fallible.antt =====
-- Go's `(value, error)` results. An error is its text, and for `authorizer.StatusCodeError`
-- (internal/authorizer/authorizer.go) also the HTTP status that it carries.
use Prim.Native.Nat.{ℕ}
use Prim.Native.String
use Prim.Native.String.{String}
use mathlib.Core.Path.{◌≡◌, refl}
use mathlib.Core.Logic.{◌⊎◌, ◌↔◌, inl, inr}

pub data Error : Type 0 where
  plain : String → Error
  status_code_error : String → ℕ → Error

-- `err.Error()`; the embedded error speaks for a `StatusCodeError`
abbrev pub error_text : Error → String
error_text (plain s) = s
error_text (status_code_error s sc) = s

infixr 60 ◌<>◌
abbrev pub ◌<>◌ : String → String → String
s <> t = String.◌++◌ s t

-- `fmt.Errorf("context: %w", err)`
abbrev pub wrap : String → Error → Error
wrap context e = plain (context <> ": " <> error_text e)

pub data Result {ℓ} (A : Type ℓ) : Type ℓ where
  ok : A → Result A
  err : Error → Result A

pub Result-cases {ℓ} :
    {A : Type ℓ} (r : Result A) → ((a : A) × (r ≡ ok a)) ⊎ ((e : Error) × (r ≡ err e))
Result-cases (ok a) = inl (a, refl)
Result-cases (err e) = inr (e, refl)

infixl 5 ◌>>=◌
-- An error stops a chain of calls.
abbrev pub ◌>>=◌ {ℓ κ} :
    {From : Type ℓ} {To : Type κ} (first : Result From) (next : From → Result To) → Result To
err x >>= next = err x
ok value >>= next = next value

-- `if err != nil { return fmt.Errorf("context: %w", err) }`
abbrev pub context {ℓ} : {A : Type ℓ} → String → Result A → Result A
context text (ok a) = ok a
context text (err e) = err (wrap text e)

pub context-eq-ok {ℓ} :
    {A : Type ℓ} (text : String) (r : Result A) (a : A) → (context text r ≡ ok a) ↔ (r ≡ ok a)
context-eq-ok text (ok b) a = (λ e. e, λ e. e)
context-eq-ok text (err x) a = (λ e. cc, λ e. cc)

pub ok_inj {ℓ} : {A : Type ℓ} {a b : A} → ok a ≡ ok b → a ≡ b
ok_inj h = cc

-- A chain that succeeds has succeeded at its first step.
pub >>=-eq-ok {ℓ κ} :
    {From : Type ℓ} {To : Type κ} (first : Result From) (next : From → Result To) {b : To}
    → (first >>= next) ≡ ok b
    → (value : From) × (first ≡ ok value) × (next value ≡ ok b)
>>=-eq-ok (err x) next h = cc
>>=-eq-ok (ok value) next h = (value, refl, h)

pub err-ne-ok {ℓ} : {A : Type ℓ} {e : Error} {a : A} → (let r : Result A = err e in r) ≡ ok a → ⊥
err-ne-ok h = cc

pub ok-ne-err {ℓ} : {A : Type ℓ} {e : Error} {a : A} → ok a ≡ err e → ⊥
ok-ne-err h = cc
