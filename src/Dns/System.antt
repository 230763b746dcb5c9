-- ===== src/Dns/System.antt =====
-- The files below the state directory, by their cleaned paths, and how the system answers.
use router_docker.Prelude.Exec.{Exec}
use router_docker.Prelude.{
  Bool, ◌&&◌, ◌||◌, Option, none, some, List, [], ◌∷◌, ◌++◌, reverse, if◌then◌else◌, is_empty,
  Result, ok, err, io,
}
use router_docker.Text.{Bytes, codes, equal, is_some, join, split}
use router_docker.Fragments.Files.{Dir, lookup, put, remove}

pub record System : Type 0 where
  pub stat_ok : Bytes → Bool
  pub read_ok : Bytes → Bool
  pub write_ok : Bytes → Bytes → Bool
  pub remove_ok : Bytes → Bool

-- the elements of a path without its last
abbrev without_last : List Bytes → List Bytes
without_last [] = []
without_last (s ∷ up) = up

-- one element of a rooted path, behind those before it in reverse
unfoldable pub descend : List Bytes → Bytes → List Bytes
unfolding equal
descend up s =
    if is_empty s || equal s (codes ".")
    then up
    else if equal s (codes "..")
    then without_last up
    else s ∷ up

unfoldable pub cleaned : List Bytes → List Bytes → List Bytes
unfolding descend
cleaned up [] = reverse up
cleaned up (s ∷ ss) = cleaned (descend up s) ss

-- `filepath.Join(dir, file)` for a rooted directory
unfoldable pub join_path : Bytes → Bytes → Bytes
unfolding cleaned split join
join_path dir file = b'/' ∷ join b'/' (cleaned [] (split b'/' (dir ++ (b'/' ∷ file))))

module _ (sys : System) where
  -- `_, err := os.Stat(path); err == nil`
  unfoldable pub exists_file : Bytes → Dir → Bool
  exists_file path d = sys.stat_ok path && is_some (lookup path d)

  abbrev pub content_of : Option Bytes → Result Bytes
  content_of none = err io
  content_of (some content) = ok content

  unfoldable pub read_file : Bytes → Exec Dir Bytes
  read_file path d = (if sys.read_ok path then content_of (lookup path d) else err io, d)

  -- `atomicfile.Write`: the old content stays if any step fails
  unfoldable pub write_atomic : Bytes → Bytes → Exec Dir (Unit {0})
  write_atomic path content d =
      if sys.write_ok path content then (ok tt, put path content d) else (err io, d)

  unfoldable pub remove_file : Bytes → Exec Dir (Unit {0})
  remove_file path d = if sys.remove_ok path then (ok tt, remove path d) else (err io, d)
