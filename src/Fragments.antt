-- ===== src/Fragments.antt =====
-- The fragment files that internal/devproxy and internal/approutes keep alike: each writes its
-- directory by the same functions, line for line, over its own template. The section's parameters
-- are the template; DevProxy.Store and AppRoutes.Store instantiate it.
pub mod Files
pub mod Laws
pub mod Listing
pub mod Plain
pub mod Normalize
pub mod Rename
pub mod RollBack
use mathlib.Core.Option
use router_docker.Prelude.Exec.{Exec, continue, ◌>>=◌, ◌>>◌, pure, fail, lift, require}
use router_docker.Prelude.{
  ◌≡◌, Bool, true, false, not, ◌&&◌, Option, none, some, List, [], ◌∷◌, if◌then◌else◌, Error,
  Result, ok, err, already_exists, not_found, io, invalid_caddyfile, reload_failed,
}
use router_docker.Text.{Bytes, equal, is_some}
use router_docker.Fragments.Files.{Dir, lookup, put, remove}

-- How the operating system answers each call, and what Caddy says of the whole directory: it reads
-- every file of it (and the files of the other package, which do not change meanwhile).
pub record System : Type 0 where
  pub stat_ok : Bytes → Bool
  pub read_ok : Bytes → Bool
  pub mkdir_ok : Bool
  pub write_ok : Bytes → Bytes → Bool
  -- what a failing write leaves of the file
  pub torn : Bytes → Bytes → Option Bytes
  pub remove_ok : Bytes → Bool
  pub adapt_ok : Dir → Bool
  pub reload_ok : Dir → Bool

abbrev pub Disk : Type 0 → Type 0
Disk A = Exec Dir A

module _ (sys : System) where
  -- `_, err := os.Stat(path(name)); err == nil`
  unfoldable pub exists_file : Bytes → Dir → Bool
  exists_file name d = sys.stat_ok name && is_some (lookup name d)

  abbrev store_torn : Bytes → Option Bytes → Dir → Dir
  store_torn name none d = remove name d
  store_torn name (some left) d = put name left d

  -- `os.WriteFile`
  unfoldable pub write_file : Bytes → Bytes → Disk (Unit {0})
  write_file name content d =
      if sys.write_ok name content
      then (ok tt, put name content d)
      else (err io, store_torn name (sys.torn name content) d)

  -- `os.Remove`
  unfoldable pub remove_file : Bytes → Disk (Unit {0})
  remove_file name d = if sys.remove_ok name then (ok tt, remove name d) else (err io, d)

  -- puts back what was there; its own errors are dropped
  unfoldable pub restore : Bytes → Option Bytes → Dir → Dir
  unfolding write_file remove_file
  restore name (some previous) d = (write_file name previous d).1
  restore name none d = (remove_file name d).1

  unfoldable pub validate_tree : Bytes → Option Bytes → Disk (Unit {0})
  unfolding restore
  validate_tree name previous d =
      if sys.adapt_ok d then (ok tt, d) else (err invalid_caddyfile, restore name previous d)

  abbrev pub previous_of : Bytes → Dir → Option Bytes
  previous_of name d = if sys.read_ok name then lookup name d else none

  unfoldable pub write_and_validate : Bytes → Bytes → Disk (Unit {0})
  write_and_validate name content d =
      (do require sys.mkdir_ok io; write_file name content; validate_tree name (previous_of name d))
        d

  unfoldable pub reload_after_write : Disk (Unit {0})
  reload_after_write d = if sys.reload_ok d then (ok tt, d) else (err reload_failed, d)

  abbrev require_new : Bytes → Disk (Unit {0})
  require_new name d = require (not (exists_file name d)) already_exists d

  abbrev require_old : Bytes → Disk (Unit {0})
  require_old name d = require (exists_file name d) not_found d

  module _ {E : Type 0} (name_of : E → Bytes) (check : E → Result (Unit {0}))
      (render : E → Bytes) where
    unfoldable pub create : E → Disk (Unit {0})
    create e = do
      lift (check e)
      require_new (name_of e)
      write_and_validate (name_of e) (render e)
      reload_after_write

    unfoldable pub update_structured : Bytes → E → Disk (Unit {0})
    update_structured old e = do
      let renaming = not (equal (name_of e) old)
      lift (check e)
      require_old old
      (if renaming then require_new (name_of e) else pure tt)
      write_and_validate (name_of e) (render e)
      (if renaming then remove_file old else pure tt)
      reload_after_write

  module _ (check_name : Bytes → Result (Unit {0})) where
    unfoldable pub update_raw : Bytes → Bytes → Disk (Unit {0})
    update_raw name raw = do
      lift (check_name name)
      require_old name
      write_and_validate name raw
      reload_after_write

    -- `caddy adapt` on what is left
    unfoldable pub adapt_rest : Disk (Unit {0})
    adapt_rest d = require (sys.adapt_ok d) invalid_caddyfile d

    unfoldable pub delete : Bytes → Disk (Unit {0})
    delete name = do
      lift (check_name name)
      require_old name
      remove_file name
      adapt_rest
      reload_after_write
