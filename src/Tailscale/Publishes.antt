-- ===== src/Tailscale/Publishes.antt =====
-- backend/internal/tailscale/config.go: the publishes, which put a port of a service on the tailnet.
use router_docker.Prelude.Exec.{Exec, ◌>>=◌, ◌>>◌, pure, lift}
use router_docker.Prelude.{
  ◌>>◌ as both, not, ◌||◌, Option, List, [], ◌∷◌, ◌++◌, is_empty, if◌then◌else◌, Result, ok, guard,
  validation, already_exists, not_found, invalid_mode,
}
use router_docker.Text.{Bytes, codes, equal}
use router_docker.Keyed.{has, without, replace}
use router_docker.Document.{Codec, load, edit}
use router_docker.Tailscale.Config.{
  Publish, FileConfig, empty_config, validate_port, validate_publish_target,
}

abbrev pub name_of : Publish → Bytes
name_of p = p.name

-- the defaults of an omitted mode and an omitted host
unfoldable pub filled : Publish → Publish
filled p = record p {
  mode = if is_empty p.mode then codes "tcp" else p.mode;
  target_host = if is_empty p.target_host then codes "code-docker" else p.target_host;
}

unfoldable pub check_mode : Publish → Result (Unit {0})
unfolding equal
check_mode p =
    guard (equal p.mode (codes "tcp") || equal p.mode (codes "tls-terminated-tcp")) invalid_mode

-- the checks after those on the mode and the name, with the hosts that may be published
unfoldable pub check_publish : List Bytes → Publish → Result (Unit {0})
check_publish allowed p =
    both (validate_publish_target allowed p)
      (both (validate_port p.tailscale_port) (validate_port p.local_port))

-- under the mutex: what each operation makes of the file's config
unfoldable pub with_publish : Publish → FileConfig → Result FileConfig
unfolding has
with_publish p cfg =
    both (guard (not (has name_of p.name cfg.publish)) already_exists)
      (ok (record cfg { publish = cfg.publish ++ p ∷ [] }))

unfoldable pub changed_publish : Bytes → Publish → FileConfig → Result FileConfig
unfolding has replace
changed_publish name p cfg =
    both (guard (has name_of name cfg.publish) not_found)
      (ok (record cfg { publish = replace name_of name p cfg.publish }))

unfoldable pub without_publish : Bytes → FileConfig → Result FileConfig
unfolding has without
without_publish name cfg =
    both (guard (has name_of name cfg.publish) not_found)
      (ok (record cfg { publish = without name_of name cfg.publish }))

module _ {C : Type 0} (b : Codec FileConfig C) (allowed : List Bytes) where
  unfoldable pub add_publish : Publish → Exec (Option C) Publish
  unfolding filled check_mode check_publish with_publish edit
  add_publish p = do
    let q : Publish = filled p
    lift (check_mode q)
    lift (guard (not (is_empty q.name)) validation)
    lift (check_publish allowed q)
    edit b empty_config (with_publish q)
    pure q

  unfoldable pub update_publish : Bytes → Publish → Exec (Option C) Publish
  unfolding filled check_mode check_publish changed_publish edit
  update_publish name p = do
    let q : Publish = filled (record p { name = name })
    lift (check_mode q)
    lift (check_publish allowed q)
    edit b empty_config (changed_publish name q)
    pure q

module _ {C : Type 0} (b : Codec FileConfig C) where
  unfoldable pub list_publish : Exec (Option C) (List Publish)
  unfolding load
  list_publish = do cfg ← load b empty_config; pure cfg.publish

  unfoldable pub delete_publish : Bytes → Exec (Option C) (Unit {0})
  unfolding without_publish edit
  delete_publish name = edit b empty_config (without_publish name)
