-- ===== src/AppRoutes/Store/Atomic.antt =====
-- A change of an App Route is made as a whole or not at all.
use router_docker.Prelude.{◌≡◌, ◌≢◌, ◌⊎◌, some, IsPlain, then-IsPlain, IsPlain-not_reload}
use router_docker.Text.{Bytes}
use router_docker.Fragments.{System}
use router_docker.Fragments.Files.{Dir, lookup, put, remove}
use router_docker.Fragments.Laws.{
  IsReliable, Saved, Untouched, create-cases, update_structured-cases, renamed,
}
use router_docker.Fragments.Plain.{update_raw-cases, delete-cases, Deleted, NotDeleted}
use router_docker.Fragments.Rename
use router_docker.DevProxy.Validate.{Settings, validate_name}
use router_docker.DevProxy.Store.Atomic.{validate_name-IsPlain, validate_target-IsPlain}
use router_docker.AppRoutes.Fragment.{App, render}
use router_docker.AppRoutes.Validate.{validate_app}
use router_docker.AppRoutes.Store.{create, update_structured, update_raw, delete}

pub validate_app-IsPlain : (st : Settings) (a : App) → IsPlain (validate_app st a)
unfolding validate_app
validate_app-IsPlain st a =
    then-IsPlain (validate_name a.name) _ (validate_name-IsPlain a.name)
      (validate_target-IsPlain st a.target)

module _ (sys : System) where
  -- On a system whose reads, writes and removals do not fail, `Create` saves the rendered App Route
  -- (reporting success, or that only the reload failed), or reports another error and leaves every
  -- file as it was.
  pub create-atomic_app :
      (st : Settings) (a : App) (d : Dir)
      → IsReliable sys
      → Saved (create sys st a d) (put a.name (render a) d) ⊎ Untouched (create sys st a d) d
  unfolding create
  create-atomic_app st a d r =
      create-cases sys (λ x. x.name) (validate_app st) render a d r
        (IsPlain-not_reload (validate_app st a) (validate_app-IsPlain st a))

  -- On a system whose reads, writes and removals do not fail, `UpdateStructured` saves the rendered
  -- App Route, without the old file if the name changed (reporting success, or that only the reload
  -- failed), or reports another error and leaves every file as it was.
  pub update_structured-atomic_app :
      (st : Settings) (old : Bytes) (a : App) (d : Dir)
      → IsReliable sys
      → Saved
          (update_structured sys st old a d)
          (renamed sys (λ x. x.name) (validate_app st) render old a d)
        ⊎ Untouched (update_structured sys st old a d) d
  unfolding update_structured
  update_structured-atomic_app st old a d r =
      update_structured-cases sys (λ x. x.name) (validate_app st) render old a d r
        (IsPlain-not_reload (validate_app st a) (validate_app-IsPlain st a))

  -- On a system whose reads, writes and removals do not fail, `UpdateRaw` saves the given text
  -- (reporting success, or that only the reload failed), or reports another error and leaves every
  -- file as it was.
  pub update_raw-atomic_app :
      (name raw : Bytes) (d : Dir)
      → IsReliable sys
      → Saved (update_raw sys name raw d) (put name raw d) ⊎ Untouched (update_raw sys name raw d) d
  unfolding update_raw
  update_raw-atomic_app name raw d r =
      update_raw-cases sys validate_name name raw d r (validate_name-IsPlain name)

  -- `Delete` removes the fragment and no other, and then answers that Caddy refuses what is left, or
  -- else that its reload failed, or else success, as Caddy says of the directory without the
  -- fragment; or it leaves the directory as it was, and answers the error of the name's check, or
  -- that there is no such fragment, or that the system could not remove it, each only where it is so.
  pub delete-outcome_app :
      (name : Bytes) (d : Dir)
      → Deleted sys validate_name (delete sys name d) (remove name d)
        ⊎ NotDeleted sys validate_name name (delete sys name d) d
  unfolding delete
  delete-outcome_app name d = delete-cases sys validate_name name d

  -- Whatever the system and Caddy answer on the way, an `UpdateStructured` that renames ends with
  -- the old fragment unchanged, or with the new one written in full.
  pub rename-safe_app :
      (st : Settings) (old : Bytes) (a : App) (d : Dir)
      → a.name ≢ old
      → (let r : Dir = (update_structured sys st old a d).1 in
          (lookup old r ≡ lookup old d) ⊎ (lookup a.name r ≡ some (render a)))
  unfolding update_structured
  rename-safe_app st old a d ne =
      Rename.rename_safe sys (λ x. x.name) (validate_app st) render old a d ne
