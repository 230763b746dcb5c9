-- ===== src/Prelude/Lists.antt =====
-- Lists measured by native numbers, a quantifier by recursion, and the Boolean quantifiers.
use Prim.Native.Nat.{ℕ, zero, suc, ◌+◌}
use mathlib.Core.Path.{◌≡◌, refl}
use mathlib.Core.Bool.{Bool, true, false, ◌&&◌, ◌||◌}
use mathlib.Core.List.{List, [], ◌∷◌, ◌++◌}
use mathlib.Core.Option.{Option, none, some}
use native.Mathlib.Omega.{arith}

module _ {ℓ} {A : Type ℓ} where
  abbrev pub length : List A → ℕ
  length [] = 0
  length (x ∷ xs) = suc (length xs)

  abbrev pub is_empty : List A → Bool
  is_empty [] = true
  is_empty (x ∷ xs) = false

  abbrev pub take : ℕ → List A → List A
  take zero xs = []
  take (suc n) [] = []
  take (suc n) (x ∷ xs) = x ∷ take n xs

  abbrev pub drop : ℕ → List A → List A
  drop zero xs = xs
  drop (suc n) [] = []
  drop (suc n) (x ∷ xs) = drop n xs

  -- `xs[:len(xs)-1]` and `xs[len(xs)-1]`
  abbrev pub split_last : List A → Option (List A × A)
  split_last [] = none
  split_last (x ∷ xs) = elim (split_last xs) [ none ↦ some ([], x) | some (i, l) ↦ some (x ∷ i, l) ]

  abbrev pub any : (A → Bool) → List A → Bool
  any p [] = false
  any p (x ∷ xs) = p x || any p xs

  abbrev pub all : (A → Bool) → List A → Bool
  all p [] = true
  all p (x ∷ xs) = p x && all p xs

  -- what a loop with `if p(x) { continue }; kept = append(kept, x)` keeps
  abbrev pub reject : (A → Bool) → List A → List A
  reject p [] = []
  reject p (x ∷ xs) = elim (p x) [ true ↦ reject p xs | false ↦ x ∷ reject p xs ]

  pub length-append : (xs ys : List A) → length (xs ++ ys) ≡ length xs + length ys
  length-append [] ys = omega arith
  length-append (x ∷ xs) ys = omega (arith, length-append xs ys)

  pub split_last-append : (xs : List A) (y : A) → split_last (xs ++ y ∷ []) ≡ some (xs, y)
  split_last-append [] y = refl
  split_last-append (x ∷ xs) y = rw (split_last-append xs y)

-- A predicate by recursion computes to tuples.
abbrev pub All {ℓ κ} : {A : Type ℓ} → (A → Type κ) → List A → Type κ
All P [] = Unit
All P (x ∷ xs) = P x × All P xs

module _ {ℓ κ} {A : Type ℓ} (P : A → Type κ) where
  pub All-append : (xs ys : List A) → All P xs → All P ys → All P (xs ++ ys)
  All-append [] ys hx hy = hy
  All-append (x ∷ xs) ys hx hy = (hx.0, All-append xs ys hx.1 hy)

  pub All-left : (xs ys : List A) → All P (xs ++ ys) → All P xs
  All-left [] ys h = tt
  All-left (x ∷ xs) ys h = (h.0, All-left xs ys h.1)

  pub All-right : (xs ys : List A) → All P (xs ++ ys) → All P ys
  All-right [] ys h = h
  All-right (x ∷ xs) ys h = All-right xs ys h.1

  pub All-reject : (p : A → Bool) (xs : List A) → All P xs → All P (reject p xs)
  All-reject p [] h = tt
  All-reject p (x ∷ xs) h =
      (elim (p x) as (λ b. All P (elim b [ true ↦ reject p xs | false ↦ x ∷ reject p xs ])) [
        | true ↦ All-reject p xs h.1
        | false ↦ (h.0, All-reject p xs h.1)
      ])

pub split_last-eq-none {ℓ} : {A : Type ℓ} (xs : List A) → split_last xs ≡ none → xs ≡ []
split_last-eq-none [] h = refl
split_last-eq-none (x ∷ xs) h = ground arith

pub split_last-eq-some {ℓ} :
    {A : Type ℓ} (xs init : List A) (last : A)
    → split_last xs ≡ some (init, last)
    → xs ≡ init ++ last ∷ []
split_last-eq-some [] init last h = ground arith
split_last-eq-some {A} (x ∷ xs) init last h =
    split_cons (split_last xs) refl h (split_last-eq-some xs)
  where
    split_cons :
        (o : Option (List A × A))
        → split_last xs ≡ o
        → elim o as (λ _. Option (List A × A)) [
          | none ↦ some ([], x)
          | some (i, l) ↦ some (x ∷ i, l)
        ]
          ≡ some (init, last)
        → ((i : List A) (l : A) → split_last xs ≡ some (i, l) → xs ≡ i ++ l ∷ [])
        → x ∷ xs ≡ init ++ last ∷ []
    split_cons none e q ih = ground (arith, split_last-eq-none xs e)
    split_cons (some (i, l)) e q ih = ground (arith, ih i l)

module _ {ℓ} {A : Type ℓ} where
  pub all_mono :
      (p q : A → Bool) (xs : List A)
      → ((x : A) → p x ≡ true → q x ≡ true)
      → all p xs ≡ true
      → all q xs ≡ true
  all_mono p q [] f h = refl
  all_mono p q (x ∷ xs) f h = ground (arith, f x, all_mono p q xs f)

  pub all-append_split :
      (p : A → Bool) (xs ys : List A) → all p xs ≡ true → all p ys ≡ true → all p (xs ++ ys) ≡ true
  all-append_split p [] ys hx hy = hy
  all-append_split p (x ∷ xs) ys hx hy = ground (arith, all-append_split p xs ys)
