-- ===== src/Text/Lines.antt =====
-- Texts as lines: splitting at newlines undoes joining lines that hold none.
use router_docker.Prelude.{
  ℕ, ◌≡◌, refl, sym, ap, ◌∙◌, Bool-cases, inl, inr, Bool, true, false, not, ◌&&◌, List, [], ◌∷◌,
  ◌++◌, reverse, All, all, arith, ◌==◌, is_empty, and_left, and_right,
}
use mathlib.Core.List.{append_assoc, reverse-append, reverse-reverse}
use router_docker.Text.{Bytes, split, cons_head, trim_space, drop_blank, trim_blank}

-- no byte of the text is `sep`
unfoldable pub lacks : ℕ → Bytes → Bool
lacks sep [] = true
lacks sep (c ∷ s) = not (c == sep) && lacks sep s

-- a text that fits on a line
abbrev pub IsLine : Bytes → Type 0
IsLine s = lacks b'\n' s ≡ true

abbrev pub unlines : List Bytes → Bytes
unlines [] = []
unlines (l ∷ ls) = l ++ (b'\n' ∷ unlines ls)

pub lacks-append :
    (sep : ℕ) (a b : Bytes) → lacks sep a ≡ true → lacks sep b ≡ true → lacks sep (a ++ b) ≡ true
unfolding lacks
lacks-append sep [] b ha hb = hb
lacks-append sep (c ∷ a) b ha hb = ground (arith, lacks-append sep a b)

pub lacks_left : (sep : ℕ) (a b : Bytes) → lacks sep (a ++ b) ≡ true → lacks sep a ≡ true
unfolding lacks
lacks_left sep [] b h = refl
lacks_left sep (c ∷ a) b h = ground (arith, lacks_left sep a b)

pub lacks_right : (sep : ℕ) (a b : Bytes) → lacks sep (a ++ b) ≡ true → lacks sep b ≡ true
unfolding lacks
lacks_right sep [] b h = h
lacks_right sep (c ∷ a) b h = lacks_right sep a b (and_right _ _ h)

pub split-lacks :
    (sep : ℕ) (l rest : Bytes)
    → lacks sep l ≡ true
    → split sep (l ++ (sep ∷ rest)) ≡ l ∷ split sep rest
unfolding split lacks
split-lacks sep [] rest h = ground arith
split-lacks sep (c ∷ l) rest h = ground (arith, split-lacks sep l rest)

pub split-unlines : (ls : List Bytes) → All IsLine ls → split b'\n' (unlines ls) ≡ ls ++ [] ∷ []
split-unlines [] h = unfold split in refl
split-unlines (l ∷ ls) h =
    split-lacks b'\n' l (unlines ls) h.0 ∙ ap (λ (r : List Bytes). l ∷ r) (split-unlines ls h.1)

pub unlines-append : (ks ls : List Bytes) → unlines (ks ++ ls) ≡ unlines ks ++ unlines ls
unlines-append [] ls = refl
unlines-append (k ∷ ks) ls =
    rw (unlines-append ks ls) (sym (append_assoc k (b'\n' ∷ unlines ks) (unlines ls)))

lacks-cons_head :
    (sep c : ℕ) (ls : List Bytes)
    → (c == sep) ≡ false
    → All (λ l. lacks sep l ≡ true) ls
    → All (λ l. lacks sep l ≡ true) (cons_head c ls)
unfolding lacks
lacks-cons_head sep c [] h a = ground arith
lacks-cons_head sep c (l ∷ ls) h a = (rw (h, a.0), a.1)

lacks-nil : (sep : ℕ) → lacks sep [] ≡ true
unfolding lacks
lacks-nil sep = refl

-- Every piece of a split is free of the separator.
pub split-All : (sep : ℕ) (s : Bytes) → All (λ l. lacks sep l ≡ true) (split sep s)
unfolding split
split-All sep [] = (lacks-nil sep, tt)
split-All sep (c ∷ s) = elim (Bool-cases (c == sep)) [
  | inl e ↦ rw e (lacks-nil sep, split-All sep s)
  | inr e ↦ rw e (lacks-cons_head sep c (split sep s) e (split-All sep s))
]

-- a block of constant lines, checked by evaluation
pub All-IsLine : (ls : List Bytes) → all (lacks b'\n') ls ≡ true → All IsLine ls
All-IsLine [] h = tt
All-IsLine (l ∷ ls) h = (and_left _ _ h, All-IsLine ls (and_right (lacks b'\n' l) _ h))

-- a field between two other pieces of its line
pub IsLine-framed : (p s t : Bytes) → IsLine p → IsLine s → IsLine t → IsLine (p ++ (s ++ t))
IsLine-framed p s t hp hs ht = lacks-append b'\n' p (s ++ t) hp (lacks-append b'\n' s t hs ht)

pub unframed : (p s t : Bytes) → IsLine (p ++ (s ++ t)) → IsLine s
unframed p s t h = lacks_left b'\n' s t (lacks_right b'\n' p (s ++ t) h)

-- The trailing empty piece goes, and no line before a last one that is not blank.
pub trim_blank-append :
    (ls : List Bytes) (l : Bytes)
    → is_empty (trim_space l) ≡ false
    → trim_blank ((ls ++ l ∷ []) ++ [] ∷ []) ≡ ls ++ l ∷ []
unfolding trim_blank
trim_blank-append ls l h = rw (reverse-append (ls ++ l ∷ []) ([] ∷ [])) (
    rw (reverse-append ls (l ∷ [])) (
      rw (h, drop_blank)
        (reverse-append (l ∷ []) (reverse ls)
          ∙ ap (λ (ks : List Bytes). ks ++ l ∷ []) (reverse-reverse ls))))
