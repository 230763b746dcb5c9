-- ===== src/Text/Decimal.antt =====
-- Go's `int`, and `strconv.Itoa`.
use router_docker.Prelude.{
  ℕ, zero, suc, ◌+◌, ◌/◌, ◌%◌, ◌≡◌, refl, Bool, false, ◌&&◌, [], ◌∷◌, ◌++◌, ltb, leb, ◌==◌,
  if◌then◌else◌, arith,
}
use router_docker.Text.{Bytes}

-- `negsuc n` is -(n + 1).
pub data ℤ : Type 0 where
  pos : ℕ → ℤ
  negsuc : ℕ → ℤ

unfoldable pub int_eq : ℤ → ℤ → Bool
int_eq (pos a) (pos b) = a == b
int_eq (negsuc a) (negsuc b) = a == b
int_eq _ _ = false

pub int_eq-eq-false : (a b : ℤ) → int_eq a b ≡ false → a ≡ b → ⊥
unfolding int_eq
int_eq-eq-false (pos a) (pos b) h e = ground arith
int_eq-eq-false (negsuc a) (negsuc b) h e = ground arith
int_eq-eq-false (pos a) (negsuc b) h e = cc
int_eq-eq-false (negsuc a) (pos b) h e = cc

-- `lo <= n && n <= hi` at natural bounds
unfoldable pub between : ℕ → ℕ → ℤ → Bool
between lo hi (pos n) = leb lo n && leb n hi
between lo hi (negsuc n) = false

unfoldable pub digits_from : ℕ → ℕ → Bytes
digits_from zero n = []
digits_from (suc fuel) n =
    let high = digits_from fuel (n / 10) in
    if ltb n 10 then (48 + n) ∷ [] else high ++ (48 + n % 10) ∷ []

-- a number has no more digits than its value plus one
unfoldable pub decimal : ℕ → Bytes
unfolding digits_from
decimal n = digits_from (suc n) n

unfoldable pub itoa : ℤ → Bytes
unfolding decimal
itoa (pos n) = decimal n
itoa (negsuc n) = b'-' ∷ decimal (n + 1)

decimal_runs : decimal 65535 ≡ 54 ∷ 53 ∷ 53 ∷ 51 ∷ 53 ∷ []
unfolding decimal
decimal_runs = refl
