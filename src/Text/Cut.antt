-- ===== src/Text/Cut.antt =====
-- `strings.Cut` at one byte, read backwards and forwards.
use mathlib.Core.Option
use router_docker.Prelude.{
  ℕ, ◌≡◌, refl, Bool, true, false, Option, none, some, [], ◌∷◌, ◌++◌, ◌==◌, ==_iff, arith,
}
use router_docker.Text.{Bytes, cut}
use router_docker.Text.Lines.{lacks}

pub cut-append :
    (sep : ℕ) (a b : Bytes) → lacks sep a ≡ true → cut sep (a ++ (sep ∷ b)) ≡ some (a, b)
unfolding cut lacks
cut-append sep [] b h = ground arith
cut-append sep (c ∷ a) b h = ground (arith, cut-append sep a b)

pub cut-eq-some :
    (sep : ℕ) (s a b : Bytes)
    → cut sep s ≡ some (a, b)
    → (s ≡ a ++ (sep ∷ b)) × (lacks sep a ≡ true)
unfolding cut lacks
cut-eq-some sep [] a b h = cc
cut-eq-some sep (c ∷ s) a b h =
    cut_case (c == sep) refl (cut sep s) refl h (λ x y. cut-eq-some sep s x y)
  where
    cut_case :
        (e : Bool)
        → (c == sep) ≡ e
        → (o : Option (Bytes × Bytes)) → cut sep s ≡ o
        → elim e as (λ _. Option (Bytes × Bytes)) [
          | true ↦ some ([], s)
          | false ↦ Option.map (λ (x, y). (c ∷ x, y)) o
        ]
          ≡ some (a, b)
        → ((x y : Bytes) → cut sep s ≡ some (x, y) → (s ≡ x ++ (sep ∷ y)) × (lacks sep x ≡ true))
        → (c ∷ s ≡ a ++ (sep ∷ b)) × (lacks sep a ≡ true)
    cut_case true e o f k ih = ground (arith, ==_iff c sep)
    cut_case false e none f k ih = cc
    cut_case false e (some (x, y)) f k ih = ground (arith, ih x y)
