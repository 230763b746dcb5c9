-- ===== src/Text.antt =====
-- The functions of Go's `strings` package that the program calls, over the bytes of a text.
-- A text is a list of byte values; every literal of the program is ASCII.
pub mod Cut
pub mod Decimal
pub mod Folded
pub mod Integer
pub mod Laws
pub mod Lines
pub mod Quote
use Prim.Native.Char.{code}
use Prim.Native.String.{String}
use mathlib.Core.Option
use router_docker.Prelude.{
  ℕ, ◌+◌, Bool, true, false, ◌&&◌, ◌||◌, Option, none, some, List, [], ◌∷◌, ◌++◌, map, reverse, leb,
  ◌==◌, if◌then◌else◌, is_empty, all,
}

abbrev pub Bytes : Type 0
Bytes = List ℕ

abbrev pub codes : String → Bytes
codes String.[] = []
codes (String.◌∷◌ c s) = code c ∷ codes s

-- `a == b` on Go strings
unfoldable pub equal : Bytes → Bytes → Bool
equal [] [] = true
equal (x ∷ xs) (y ∷ ys) = x == y && equal xs ys
equal _ _ = false

-- `strings.CutPrefix`
unfoldable pub cut_prefix : Bytes → Bytes → Option Bytes
cut_prefix s [] = some s
cut_prefix [] (p ∷ ps) = none
cut_prefix (c ∷ s) (p ∷ ps) = elim (c == p) [ true ↦ cut_prefix s ps | false ↦ none ]

-- `strings.CutSuffix`
unfoldable pub cut_suffix : Bytes → Bytes → Option Bytes
unfolding cut_prefix
cut_suffix s t = Option.map reverse (cut_prefix (reverse s) (reverse t))

abbrev pub is_some {ℓ} : {A : Type ℓ} → Option A → Bool
is_some none = false
is_some (some _) = true

unfoldable pub has_prefix : Bytes → Bytes → Bool
unfolding cut_prefix
has_prefix s p = is_some (cut_prefix s p)

unfoldable pub has_suffix : Bytes → Bytes → Bool
has_suffix s t = is_some (cut_suffix s t)

unfoldable pub trim_prefix : Bytes → Bytes → Bytes
unfolding cut_prefix
trim_prefix s p = Option.get_or (cut_prefix s p) s

unfoldable pub trim_suffix : Bytes → Bytes → Bytes
trim_suffix s t = Option.get_or (cut_suffix s t) s

-- `strings.Cut` at one byte
unfoldable pub cut : ℕ → Bytes → Option (Bytes × Bytes)
cut sep [] = none
cut sep (c ∷ s) = elim (c == sep) [
  | true ↦ some ([], s)
  | false ↦ Option.map (λ (a, b). (c ∷ a, b)) (cut sep s)
]

abbrev pub cons_head : ℕ → List Bytes → List Bytes
cons_head c [] = (c ∷ []) ∷ []
cons_head c (l ∷ ls) = (c ∷ l) ∷ ls

-- `strings.Split` at one byte
unfoldable pub split : ℕ → Bytes → List Bytes
split sep [] = [] ∷ []
split sep (c ∷ s) = let rest = split sep s in if c == sep then [] ∷ rest else cons_head c rest

-- `strings.Join` with a one-byte separator
unfoldable pub join : ℕ → List Bytes → Bytes
join sep [] = []
join sep (s ∷ []) = s
join sep (s ∷ t ∷ ts) = s ++ (sep ∷ join sep (t ∷ ts))

abbrev pub within : ℕ → ℕ → ℕ → Bool
within lo hi c = leb lo c && leb c hi

abbrev pub is_lower : ℕ → Bool
is_lower c = within b'a' b'z' c

abbrev pub is_upper : ℕ → Bool
is_upper c = within b'A' b'Z' c

abbrev pub is_digit : ℕ → Bool
is_digit c = within b'0' b'9' c

abbrev pub is_alnum : ℕ → Bool
is_alnum c = is_lower c || is_upper c || is_digit c

-- `strings.ToLower` on ASCII
unfoldable pub lower : ℕ → ℕ
lower c = if is_upper c then c + 32 else c

unfoldable pub to_lower : Bytes → Bytes
unfolding lower
to_lower = map lower

-- the ASCII white space of `strings.TrimSpace`
abbrev pub is_space : ℕ → Bool
is_space c = within 9 13 c || c == 32

unfoldable pub trim_left : (ℕ → Bool) → Bytes → Bytes
trim_left p [] = []
trim_left p (c ∷ s) = elim (p c) [ true ↦ trim_left p s | false ↦ c ∷ s ]

-- `strings.TrimFunc`
unfoldable pub trim : (ℕ → Bool) → Bytes → Bytes
unfolding trim_left
trim p s = reverse (trim_left p (reverse (trim_left p s)))

unfoldable pub trim_space : Bytes → Bytes
unfolding trim
trim_space = trim is_space

drop_blank : List Bytes → List Bytes
unfolding trim_space
drop_blank [] = []
drop_blank (l ∷ ls) = elim (is_empty (trim_space l)) [ true ↦ drop_blank ls | false ↦ l ∷ ls ]

-- `for len(lines) > 0 && strings.TrimSpace(lines[len(lines)-1]) == ""`
unfoldable pub trim_blank : List Bytes → List Bytes
unfolding drop_blank
trim_blank ls = reverse (drop_blank (reverse ls))

-- membership in a set of texts (`map[string]bool`)
unfoldable pub contains : List Bytes → Bytes → Bool
unfolding equal
contains [] s = false
contains (x ∷ xs) s = equal x s || contains xs s
