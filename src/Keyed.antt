-- ===== src/Keyed.antt =====
-- Lists of entries with a name, as internal/tailscale and internal/vnc keep them: the loops over
-- the entries that look for a name.
pub mod Laws
pub mod Order
use router_docker.Prelude.{
  Bool, true, false, not, ◌&&◌, ◌||◌, Option, none, some, List, [], ◌∷◌, if◌then◌else◌,
}
use router_docker.Text.{Bytes, equal}

module _ {A : Type 0} (key : A → Bytes) where
  -- `for _, e := range es { if e.Name == name { return true } }`
  unfoldable pub has : Bytes → List A → Bool
  unfolding equal
  has name [] = false
  has name (e ∷ es) = equal (key e) name || has name es

  -- the entries that are not of that name
  unfoldable pub without : Bytes → List A → List A
  unfolding equal
  without name [] = []
  without name (e ∷ es) =
      let rest = without name es in if equal (key e) name then rest else e ∷ rest

  -- `append(es[:i], es[i+1:]...)`, for the first entry of that name
  unfoldable pub remove_first : Bytes → List A → List A
  unfolding equal
  remove_first name [] = []
  remove_first name (e ∷ es) =
      let rest = e ∷ remove_first name es in if equal (key e) name then es else rest

  -- the first entry of that name gives way to `y`
  unfoldable pub replace : Bytes → A → List A → List A
  unfolding equal
  replace name y [] = []
  replace name y (e ∷ es) =
      let rest = e ∷ replace name y es in if equal (key e) name then y ∷ es else rest

  -- the first entry of that name
  unfoldable pub find : Bytes → List A → Option A
  unfolding equal
  find name [] = none
  find name (e ∷ es) = if equal (key e) name then some e else find name es

  -- no two entries share a name
  unfoldable pub distinct : List A → Bool
  unfolding has
  distinct [] = true
  distinct (e ∷ es) = not (has (key e) es) && distinct es
