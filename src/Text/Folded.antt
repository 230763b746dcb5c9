-- ===== src/Text/Folded.antt =====
-- Lower case on ASCII, described byte by byte.
use router_docker.Prelude.{
  ℕ, ◌+◌, ◌≡◌, refl, Bool, true, false, ◌&&◌, [], ◌∷◌, leb, ◌==◌, if◌then◌else◌, arith,
}
use router_docker.Text.{Bytes, lower, to_lower}

-- `A` to `Z` go 32 places up, and every other byte stays
abbrev pub byte_folds : ℕ → ℕ → Bool
byte_folds c d = if leb 65 c && leb c 90 then d == c + 32 else d == c

-- the second text is the first one in lower case
unfoldable pub folds : Bytes → Bytes → Bool
folds [] [] = true
folds (c ∷ s) (d ∷ t) = byte_folds c d && folds s t
folds _ _ = false

lower-folds : (c : ℕ) → byte_folds c (lower c) ≡ true
unfolding lower
lower-folds c = ground arith

pub folds-to_lower : (s : Bytes) → folds s (to_lower s) ≡ true
unfolding folds to_lower
folds-to_lower [] = refl
folds-to_lower (c ∷ s) = rw (lower-folds c) (folds-to_lower s)

lower_of : (c d : ℕ) → byte_folds c d ≡ true → d ≡ lower c
unfolding lower
lower_of c d h = ground arith

-- and there is no other
pub to_lower_of_folds : (s t : Bytes) → folds s t ≡ true → t ≡ to_lower s
unfolding folds to_lower
to_lower_of_folds [] [] h = refl
to_lower_of_folds [] (d ∷ t) h = cc
to_lower_of_folds (c ∷ s) [] h = cc
to_lower_of_folds (c ∷ s) (d ∷ t) h = ground (arith, lower_of c d, to_lower_of_folds s t)
