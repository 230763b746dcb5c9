-- ===== src/Dns/Manifest.antt =====
-- backend/internal/dns/reconcile.go: the manifest, which says what each tracked source was last
-- synced to. A map is an association list; the order in which Go ranges over one is a parameter.
pub mod RoundTrip
use mathlib.Core.Option
use router_docker.Prelude.Exec.{Exec}
use router_docker.Prelude.{
  Bool, Option, none, some, List, [], ◌∷◌, ◌++◌, if◌then◌else◌, is_empty, Result, ok, err, io,
}
use router_docker.Text.{Bytes, codes, cut, split}
use router_docker.Fragments.Files.{Dir, lookup, put}
use router_docker.Dns.System.{System, write_atomic}

-- names to hashes
abbrev pub Manifest : Type 0
Manifest = Dir

abbrev pub manifest_path : Bytes
manifest_path = codes "/var/lib/code-docker-router/dns/blocklist-manifest"

-- one line: `name, hash, ok := strings.Cut(line, "\t")`
abbrev pub with_entry : Option (Bytes × Bytes) → Manifest → Manifest
with_entry none m = m
with_entry (some (name, hash)) m = if is_empty name then m else put name hash m

-- the loop over the lines
unfoldable pub entries : Manifest → List Bytes → Manifest
entries m [] = m
entries m (l ∷ ls) = entries (with_entry (cut b'\t' l) m) ls

unfoldable pub parse_manifest : Bytes → Manifest
parse_manifest content = entries [] (split b'\n' content)

unfoldable pub render_manifest : Manifest → Bytes
render_manifest [] = []
render_manifest ((name, hash) ∷ m) = name ++ (b'\t' ∷ (hash ++ (b'\n' ∷ render_manifest m)))

module _ (sys : System) where
  abbrev pub read_manifest : Option Bytes → Result Manifest
  read_manifest none = ok []
  read_manifest (some content) =
      if sys.read_ok manifest_path then ok (parse_manifest content) else err io

  unfoldable pub load_manifest : Exec Dir Manifest
  load_manifest d = (read_manifest (lookup manifest_path d), d)

  -- `order` is the order of the range over the map
  unfoldable pub save_manifest : (Manifest → Manifest) → Manifest → Exec Dir (Unit {0})
  save_manifest order m = write_atomic sys manifest_path (render_manifest (order m))
