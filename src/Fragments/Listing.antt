-- ===== src/Fragments/Listing.antt =====
-- `List` of backend/internal/devproxy/devproxy.go and of backend/internal/approutes/approutes.go,
-- which are the same code over their own parser.
pub mod Laws
use mathlib.Core.Option
use router_docker.Prelude.{Option, none, some, List, [], ◌∷◌, if◌then◌else◌, Result, ok, err}
use router_docker.Text.{Bytes, codes, has_suffix, trim_suffix}
use router_docker.Keyed.Order.{sort}
use router_docker.Fragments.Files.{Dir, lookup}
use router_docker.Fragments.{System}

-- the raw text, and the structured form where the text has it
pub record Info (E : Type 0) : Type 0 where
  pub name : Bytes
  pub raw : Bytes
  pub structured : Option E

abbrev pub name_of : {E : Type 0} → Info E → Bytes
name_of i = i.name

-- the fragments among the files of the directory, by their name
unfoldable pub fragment_names : List Bytes → List Bytes
unfolding has_suffix trim_suffix
fragment_names [] = []
fragment_names (f ∷ fs) =
    let rest = fragment_names fs in
    if has_suffix f (codes ".caddy") then trim_suffix f (codes ".caddy") ∷ rest else rest

module _ (sys : System) {E : Type 0} (parse : Bytes → Bytes → Option E) where
  abbrev pub read_info : Bytes → Dir → Option (Info E)
  read_info name d =
      if sys.read_ok name
      then Option.map (λ raw. record { name = name; raw = raw; structured = parse name raw })
          (lookup name d)
      else none

  abbrev pub cons_info : Option (Info E) → List (Info E) → List (Info E)
  cons_info none is = is
  cons_info (some i) is = i ∷ is

  -- the loop over the names, which passes over a file that cannot be read
  unfoldable pub infos : List Bytes → Dir → List (Info E)
  infos [] d = []
  infos (n ∷ ns) d = cons_info (read_info n d) (infos ns d)

  -- with what `os.ReadDir` answers: the names of the files, none for a missing directory
  unfoldable pub list_fragments : Result (List Bytes) → Dir → Result (List (Info E))
  unfolding fragment_names infos sort
  list_fragments (err x) d = err x
  list_fragments (ok files) d = ok (sort name_of (infos (fragment_names files) d))
