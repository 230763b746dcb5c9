-- ===== src/Prelude/Outcome.antt =====
-- Go's `(value, error)` results. Of an error the model keeps what `errors.Is` and the handlers
-- tell apart; the text of the message is left out.
use mathlib.Core.Path.{◌≡◌, refl}
use mathlib.Core.Bool.{Bool, true, false}
use mathlib.Core.Logic.{◌⊎◌, inl, inr}
use native.Mathlib.Omega.{arith}
use mathlib.Core.List.{List, [], ◌∷◌}
use router_docker.Prelude.Lists.{All}

pub data Error : Type 0 where
  -- every `ErrValidation`, and the plain validation errors of the Caddy packages
  validation : Error
  invalid_action : Error
  already_exists not_found : Error
  -- `ErrInvalidMode` of internal/tailscale and `ErrInvalidResolverMode` of internal/dns
  invalid_mode : Error
  -- `ErrTargetExists` and `ErrTargetNotFound` of internal/vnc
  target_exists target_not_found : Error
  -- those of internal/dns
  builtin_immutable empty_domain invalid_domain invalid_query_type : Error
  -- a failing system call, or a file that does not decode
  io : Error
  -- `caddy adapt` refused the tree, or `ErrReloadFailed`
  invalid_caddyfile reload_failed : Error
  -- those of internal/authgate
  no_store_path already_configured not_configured env_pinned wrong_password : Error
  bad_setup_token rate_limit busy invalid_hash incompatible_version : Error

pub data Result {ℓ} (A : Type ℓ) : Type ℓ where
  ok : A → Result A
  err : Error → Result A

-- `if !b { return e }`
abbrev pub guard : Bool → Error → Result (Unit {0})
guard false problem = err problem
guard true problem = ok tt

-- `x, err := first; if err != nil { return err }`, and the rest of the function
abbrev pub ◌>>=◌ {ℓ κ} : {X : Type ℓ} {Y : Type κ} → Result X → (X → Result Y) → Result Y
◌>>=◌ (err problem) next = err problem
◌>>=◌ (ok x) next = next x

abbrev pub ◌>>◌ {κ} : {Y : Type κ} → Result (Unit {0}) → Result Y → Result Y
◌>>◌ first next = ◌>>=◌ first (λ _. next)

infixl 5 ◌>>=◌ ◌>>◌
-- `for _, x := range xs { if err := f(x); err != nil { return err } }`
abbrev pub for_each {ℓ} : {A : Type ℓ} → (A → Result (Unit {0})) → List A → Result (Unit {0})
for_each f [] = ok tt
for_each f (x ∷ xs) = elim (f x) [ ok _ ↦ for_each f xs | err e ↦ err e ]

pub >>=-eq-ok {ℓ κ} :
    {X : Type ℓ} {Y : Type κ} (first : Result X) (next : X → Result Y) {y : Y}
    → (first >>= next) ≡ ok y
    → (x : X) × (first ≡ ok x) × (next x ≡ ok y)
>>=-eq-ok (err problem) next h = cc
>>=-eq-ok (ok x) next h = (x, refl, h)

pub >>-eq-ok {ℓ} :
    {B : Type ℓ} (m : Result (Unit {0})) (k : Result B) {b : B}
    → (m >> k) ≡ ok b
    → (m ≡ ok tt) × (k ≡ ok b)
>>-eq-ok (ok tt) k h = (refl, h)
>>-eq-ok (err e) k h = cc

pub guard-eq-ok : (b : Bool) (e : Error) → guard b e ≡ ok tt → b ≡ true
guard-eq-ok true e h = refl
guard-eq-ok false e h = cc

-- a guard before a result
pub guarded-eq-ok {ℓ} :
    {A : Type ℓ} (b : Bool) (e : Error) (x : A) {y : A}
    → (guard b e >> ok x) ≡ ok y
    → (b ≡ true) × (x ≡ y)
guarded-eq-ok true e x h = (refl, cc)
guarded-eq-ok false e x h = cc

pub for_each-cons {ℓ} :
    {A : Type ℓ} (f : A → Result (Unit {0})) (x : A) (xs : List A)
    → for_each f (x ∷ xs) ≡ ok tt
    → (f x ≡ ok tt) × (for_each f xs ≡ ok tt)
for_each-cons f x xs h = ground arith

pub for_each-All {ℓ} :
    {A : Type ℓ} (f : A → Result (Unit {0})) (xs : List A)
    → for_each f xs ≡ ok tt
    → All (λ x. f x ≡ ok tt) xs
for_each-All f [] h = tt
for_each-All f (x ∷ xs) h =
    let (first, rest) = for_each-cons f x xs h in (first, for_each-All f xs rest)

pub Result-cases : (r : Result (Unit {0})) → (r ≡ ok tt) ⊎ ((x : Error) × (r ≡ err x))
Result-cases (ok tt) = inl refl
Result-cases (err x) = inr (x, refl)

-- A check that answers with a validation error, or not at all.
abbrev pub IsPlain : Result (Unit {0}) → Type 0
IsPlain r = (x : Error) → r ≡ err x → x ≡ validation

pub guard-IsPlain : (b : Bool) → IsPlain (guard b validation)
guard-IsPlain true x h = cc
guard-IsPlain false x h = ground arith

pub then-IsPlain : (m k : Result (Unit {0})) → IsPlain m → IsPlain k → IsPlain (m >> k)
then-IsPlain (ok tt) k hm hk x h = hk x h
then-IsPlain (err y) k hm hk x h = hm x h

pub for_each-IsPlain {ℓ} :
    {A : Type ℓ} (f : A → Result (Unit {0})) (xs : List A)
    → ((a : A) → IsPlain (f a))
    → IsPlain (for_each f xs)
for_each-IsPlain f [] h x e = cc
for_each-IsPlain f (a ∷ xs) h x e = ground (arith, h a x, for_each-IsPlain f xs h x)

-- Such a check does not answer with another error.
pub IsPlain-not_reload : (r : Result (Unit {0})) → IsPlain r → ¬ (r ≡ err reload_failed)
IsPlain-not_reload r h e = ground (arith, h reload_failed e)

pub Result-split {ℓ} :
    {A : Type ℓ} (r : Result A) → ((a : A) × (r ≡ ok a)) ⊎ ((x : Error) × (r ≡ err x))
Result-split (ok a) = inl (a, refl)
Result-split (err x) = inr (x, refl)
