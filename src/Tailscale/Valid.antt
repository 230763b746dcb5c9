-- ===== src/Tailscale/Valid.antt =====
-- Which forwards and publishes may stand in the file, and that the checks let no other through.
use router_docker.Prelude.{
  ◌≡◌, refl, ◌⊎◌, inl, inr, Bool, true, false, not, ◌&&◌, ◌||◌, none, List, not-eq-true, ok, guard,
  validation, invalid_mode, is_empty, >>-eq-ok, guard-eq-ok, and_right,
}
use router_docker.Text.{Bytes, codes, equal, contains, to_lower}
use router_docker.Text.Decimal.{between, itoa}
use router_docker.Text.Laws.{equal_iff}
use router_docker.NetGate.Forwards.{is_plain_host}
use router_docker.Keyed.Laws.{IsNamed}
use router_docker.TargetGuard
use router_docker.TargetGuard.{is_self_host, is_denied}
use router_docker.Tailscale.Config.{
  Forward, Publish, FileConfig, validate_host, validate_port, validate_publish_target,
}
use router_docker.Tailscale.Forwards
use router_docker.Tailscale.Forwards.{check_forward}
use router_docker.Tailscale.Publishes
use router_docker.Tailscale.Publishes.{check_mode, check_publish}

pub record IsForward (f : Forward) : Type 0 where
  pub named : is_empty f.name ≡ false
  pub local_port : between 1 65535 f.local_port ≡ true
  pub remote_port : between 1 65535 f.remote_port ≡ true
  pub plain : is_plain_host f.remote_host ≡ true
  pub not_self : is_self_host f.remote_host ≡ false

pub record IsPublish (allowed : List Bytes) (p : Publish) : Type 0 where
  pub named : is_empty p.name ≡ false
  pub mode : (p.mode ≡ codes "tcp") ⊎ (p.mode ≡ codes "tls-terminated-tcp")
  pub tailscale_port : between 1 65535 p.tailscale_port ≡ true
  pub local_port : between 1 65535 p.local_port ≡ true
  pub plain : is_plain_host p.target_host ≡ true
  pub not_self : is_self_host p.target_host ≡ false
  pub not_denied : is_denied (to_lower p.target_host) (itoa p.local_port) ≡ false
  pub listed : contains allowed (to_lower p.target_host) ≡ true

pub record IsValid (allowed : List Bytes) (cfg : FileConfig) : Type 0 where
  pub forwards : IsNamed Forwards.name_of IsForward cfg.forwards
  pub publish : IsNamed Publishes.name_of (IsPublish allowed) cfg.publish

validate_host_sound :
    (host : Bytes)
    → validate_host host ≡ ok tt
    → (is_plain_host host ≡ true) × (is_self_host host ≡ false)
unfolding validate_host
validate_host_sound host h =
    let (plain, rest) =
      >>-eq-ok (guard (not (is_empty host) && is_plain_host host) validation) _ h in
    (
      and_right (not (is_empty host)) _ (guard-eq-ok _ validation plain),
      not-eq-true _ (guard-eq-ok (not (is_self_host host)) validation rest),
    )

validate_port_sound : (port : _) → validate_port port ≡ ok tt → between 1 65535 port ≡ true
unfolding validate_port
validate_port_sound port h = guard-eq-ok (between 1 65535 port) validation h

pub check_forward-IsForward :
    (f : Forward) → is_empty f.name ≡ false → check_forward f ≡ ok tt → IsForward f
unfolding check_forward
check_forward-IsForward f n h =
    let (l, rest) = >>-eq-ok (validate_port f.local_port) _ h in
    let (host, r) = >>-eq-ok (validate_host f.remote_host) _ rest in
    record {
      named = n;
      local_port = validate_port_sound f.local_port l;
      remote_port = validate_port_sound f.remote_port r;
      plain = (validate_host_sound f.remote_host host).0;
      not_self = (validate_host_sound f.remote_host host).1;
    }

-- without the opt-out, the guard lets only listed hosts through
guard_sound :
    (host port : Bytes) (allowed : List Bytes)
    → TargetGuard.validate_host host port allowed none ≡ ok tt
    → (is_denied (to_lower host) port ≡ false) × (contains allowed (to_lower host) ≡ true)
unfolding TargetGuard.validate_host TargetGuard.opts_out
guard_sound host port allowed h =
    let (own, rest) = >>-eq-ok (guard (not (is_self_host (to_lower host))) validation) _ h in
    let (denied, listed) =
      >>-eq-ok (guard (not (is_denied (to_lower host) port)) validation) _ rest in
    (
      not-eq-true _ (guard-eq-ok (not (is_denied (to_lower host) port)) validation denied),
      guard-eq-ok (contains allowed (to_lower host)) validation listed,
    )

check_mode_sound :
    (p : Publish)
    → check_mode p ≡ ok tt
    → (p.mode ≡ codes "tcp") ⊎ (p.mode ≡ codes "tls-terminated-tcp")
unfolding check_mode
check_mode_sound p h =
    let e =
      guard-eq-ok (equal p.mode (codes "tcp") || equal p.mode (codes "tls-terminated-tcp"))
        invalid_mode h in
    mode_cases (equal p.mode (codes "tcp")) (equal p.mode (codes "tls-terminated-tcp")) e
      ((equal_iff p.mode (codes "tcp")).0) ((equal_iff p.mode (codes "tls-terminated-tcp")).0)
  where
    mode_cases :
        {A B : Type 0} (a b : Bool) → (a || b) ≡ true → (a ≡ true → A) → (b ≡ true → B) → A ⊎ B
    mode_cases true b h f g = inl (f refl)
    mode_cases false b h f g = inr (g h)

pub check_publish-IsPublish :
    (allowed : List Bytes) (p : Publish)
    → is_empty p.name ≡ false
    → check_mode p ≡ ok tt
    → check_publish allowed p ≡ ok tt
    → IsPublish allowed p
unfolding check_publish validate_publish_target
check_publish-IsPublish allowed p n m h =
    let (target, ports) = >>-eq-ok (validate_publish_target allowed p) _ h in
    let (t, l) = >>-eq-ok (validate_port p.tailscale_port) _ ports in
    let (host, guarded) = >>-eq-ok (validate_host p.target_host) _ target in
    let (denied, listed) = guard_sound p.target_host (itoa p.local_port) allowed guarded in
    record {
      named = n;
      mode = check_mode_sound p m;
      tailscale_port = validate_port_sound p.tailscale_port t;
      local_port = validate_port_sound p.local_port l;
      plain = (validate_host_sound p.target_host host).0;
      not_self = (validate_host_sound p.target_host host).1;
      not_denied = denied;
      listed = listed;
    }
