-- ===== src/Tailscale/Forwards.antt =====
-- backend/internal/tailscale/config.go: the forwards, which pull a port of the tailnet in.
use router_docker.Prelude.Exec.{Exec, ◌>>=◌, ◌>>◌, pure, lift}
use router_docker.Prelude.{
  ◌>>◌ as both, not, Option, List, [], ◌∷◌, ◌++◌, is_empty, Result, ok, guard, validation,
  already_exists, not_found,
}
use router_docker.Text.{Bytes}
use router_docker.Keyed.{has, without, replace}
use router_docker.Document.{Codec, load, edit}
use router_docker.Tailscale.Config.{Forward, FileConfig, empty_config, validate_host, validate_port}

abbrev pub name_of : Forward → Bytes
name_of f = f.name

-- the checks that `AddForward` and `UpdateForward` share
unfoldable pub check_forward : Forward → Result (Unit {0})
check_forward f =
    both (validate_port f.local_port)
      (both (validate_host f.remote_host) (validate_port f.remote_port))

-- under the mutex: what each operation makes of the file's config
unfoldable pub with_forward : Forward → FileConfig → Result FileConfig
unfolding has
with_forward f cfg =
    both (guard (not (has name_of f.name cfg.forwards)) already_exists)
      (ok (record cfg { forwards = cfg.forwards ++ f ∷ [] }))

unfoldable pub changed_forward : Bytes → Forward → FileConfig → Result FileConfig
unfolding has replace
changed_forward name f cfg =
    both (guard (has name_of name cfg.forwards) not_found)
      (ok (record cfg { forwards = replace name_of name f cfg.forwards }))

unfoldable pub without_forward : Bytes → FileConfig → Result FileConfig
unfolding has without
without_forward name cfg =
    both (guard (has name_of name cfg.forwards) not_found)
      (ok (record cfg { forwards = without name_of name cfg.forwards }))

module _ {C : Type 0} (b : Codec FileConfig C) where
  unfoldable pub list_forwards : Exec (Option C) (List Forward)
  unfolding load
  list_forwards = do cfg ← load b empty_config; pure cfg.forwards

  unfoldable pub add_forward : Forward → Exec (Option C) Forward
  unfolding check_forward with_forward edit
  add_forward f = do
    lift (guard (not (is_empty f.name)) validation)
    lift (check_forward f)
    edit b empty_config (with_forward f)
    pure f

  unfoldable pub update_forward : Bytes → Forward → Exec (Option C) Forward
  unfolding check_forward changed_forward edit
  update_forward name f = do
    let g : Forward = record f { name = name }
    lift (check_forward g)
    edit b empty_config (changed_forward name g)
    pure g

  unfoldable pub delete_forward : Bytes → Exec (Option C) (Unit {0})
  unfolding without_forward edit
  delete_forward name = edit b empty_config (without_forward name)
