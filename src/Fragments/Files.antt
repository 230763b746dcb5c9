-- ===== src/Fragments/Files.antt =====
-- A directory of text files, as an association list of names and contents.
use router_docker.Prelude.{◌≡◌, refl, Option, none, some, List, [], ◌∷◌, arith, if◌then◌else◌}
use router_docker.Text.{Bytes, equal}
use router_docker.Text.Laws.{equal_iff}

abbrev pub Dir : Type 0
Dir = List (Bytes × Bytes)

unfoldable pub lookup : Bytes → Dir → Option Bytes
lookup k [] = none
lookup k ((j, v) ∷ d) = if equal j k then some v else lookup k d

unfoldable pub put : Bytes → Bytes → Dir → Dir
put k v [] = (k, v) ∷ []
put k v ((j, w) ∷ d) = if equal j k then (j, v) ∷ d else (j, w) ∷ put k v d

unfoldable pub remove : Bytes → Dir → Dir
remove k [] = []
remove k ((j, w) ∷ d) = let rest = remove k d in if equal j k then rest else (j, w) ∷ rest

pub lookup-put :
    (k j : Bytes) (v : Bytes) (d : Dir)
    → lookup j (put k v d) ≡ (if equal k j then some v else lookup j d)
unfolding lookup put
lookup-put k j v [] = refl
lookup-put k j v ((i, w) ∷ d) =
    ground (arith, equal_iff k j, equal_iff i k, equal_iff i j, lookup-put k j v d)

pub lookup-remove :
    (k j : Bytes) (d : Dir) → lookup j (remove k d) ≡ (if equal k j then none else lookup j d)
unfolding lookup remove
lookup-remove k j [] = ground arith
lookup-remove k j ((i, w) ∷ d) =
    ground (arith, equal_iff k j, equal_iff i k, equal_iff i j, lookup-remove k j d)

pub ruleset dir_laws = (lookup-put, lookup-remove)

-- two directories that hold the same files
abbrev pub SameFiles : Dir → Dir → Type 0
SameFiles d e = (j : Bytes) → lookup j d ≡ lookup j e
