-- ===== src/Tailscale/Global.antt =====
-- backend/internal/tailscale/config.go and enabled.go: the settings outside the lists, and the
-- environment variables that win over them.
use router_docker.Prelude.Exec.{Exec, ◌>>=◌, ◌>>◌, pure, lift}
use router_docker.Prelude.{Bool, not, Option, if◌then◌else◌, is_empty, Result, ok}
use router_docker.Text.{Bytes, codes, equal}
use router_docker.Document.{Codec, load, edit}
use router_docker.Tailscale.Config.{
  GlobalConfig, FileConfig, empty_config, validate_socks_address, validate_login_server,
}

unfoldable pub with_global : GlobalConfig → FileConfig → Result FileConfig
with_global g cfg = ok (record cfg {
  socks_address = g.socks_address;
  retry_interval = g.retry_interval;
  login_server = g.login_server;
})

module _ {C : Type 0} (b : Codec FileConfig C) where
  unfoldable pub get_global_config : Exec (Option C) GlobalConfig
  unfolding load
  get_global_config = do
    cfg ← load b empty_config
    pure (record {
      socks_address = cfg.socks_address;
      retry_interval = cfg.retry_interval;
      login_server = cfg.login_server;
    })

  unfoldable pub set_global_config :
      (Bytes → Option (Bytes × Bytes)) → GlobalConfig → Exec (Option C) (Unit {0})
  unfolding with_global edit
  set_global_config parse_url g = do
    lift (validate_socks_address g.socks_address)
    lift (validate_login_server parse_url g.login_server)
    edit b empty_config (with_global g)

  -- `pinned` is the value of `TAILSCALE_LOGIN_SERVER`, empty where it is not set
  unfoldable pub effective_login_server : Bytes → Exec (Option C) Bytes
  unfolding get_global_config
  effective_login_server pinned =
      if is_empty pinned then (do g ← get_global_config; pure g.login_server) else pure pinned

unfoldable pub login_server_pinned : Bytes → Bool
login_server_pinned pinned = not (is_empty pinned)

-- with the value of `TAILSCALE_ENABLED`
unfoldable pub enabled : Bytes → Bool
unfolding equal
enabled value = not (equal value (codes "false"))
