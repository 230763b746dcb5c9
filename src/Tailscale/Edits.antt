-- ===== src/Tailscale/Edits.antt =====
-- What the operations make of a valid config is valid.
use router_docker.Prelude.{
  ◌≡◌, false, not, List, [], ◌∷◌, ◌++◌, ok, already_exists, not_found, is_empty, not-eq-true,
  guarded-eq-ok, subst,
}
use router_docker.Text.{Bytes}
use router_docker.Keyed.{has, without, replace}
use router_docker.Keyed.Laws.{append-IsNamed, without-IsNamed, replace-IsNamed}
use router_docker.Tailscale.Config.{Forward, Publish, GlobalConfig, FileConfig}
use router_docker.Tailscale.Global.{with_global}
use router_docker.Tailscale.Forwards
use router_docker.Tailscale.Forwards.{
  check_forward, with_forward, changed_forward, without_forward, add_forward, update_forward,
  delete_forward,
}
use router_docker.Tailscale.Publishes
use router_docker.Tailscale.Publishes.{
  filled, check_mode, check_publish, with_publish, changed_publish, without_publish, add_publish,
  update_publish, delete_publish,
}
use router_docker.Tailscale.Valid.{IsForward, IsPublish, IsValid}

module _ (allowed : List Bytes) where
  pub with_global-IsValid :
      (g : GlobalConfig) (x y : FileConfig)
      → IsValid allowed x
      → with_global g x ≡ ok y
      → IsValid allowed y
  unfolding with_global
  with_global-IsValid g x y v h =
      let next : FileConfig = record x {
        socks_address = g.socks_address;
        retry_interval = g.retry_interval;
        login_server = g.login_server;
      } in
      let valid : IsValid allowed next = record { forwards = v.forwards; publish = v.publish } in
      let e : next ≡ y = cc in subst (IsValid allowed) e valid

  pub with_forward-IsValid :
      (f : Forward) (x y : FileConfig)
      → IsForward f
      → IsValid allowed x
      → with_forward f x ≡ ok y
      → IsValid allowed y
  unfolding with_forward
  with_forward-IsValid f x y p v h =
      let next : FileConfig = record x { forwards = x.forwards ++ f ∷ [] } in
      let (free, e) =
        guarded-eq-ok (not (has Forwards.name_of f.name x.forwards)) already_exists next h in
      let valid : IsValid allowed next = record {
        forwards =
            append-IsNamed Forwards.name_of IsForward x.forwards f p (not-eq-true _ free)
              v.forwards;
        publish = v.publish;
      } in
      subst (IsValid allowed) e valid

  pub changed_forward-IsValid :
      (name : Bytes) (f : Forward) (x y : FileConfig)
      → f.name ≡ name
      → (is_empty name ≡ false → IsForward f)
      → IsValid allowed x
      → changed_forward name f x ≡ ok y
      → IsValid allowed y
  unfolding changed_forward
  changed_forward-IsValid name f x y n p v h =
      let next : FileConfig = record x { forwards = replace Forwards.name_of name f x.forwards } in
      let (there, e) = guarded-eq-ok (has Forwards.name_of name x.forwards) not_found next h in
      let valid : IsValid allowed next = record {
        forwards =
            replace-IsNamed Forwards.name_of IsForward name f x.forwards (λ _ q. q.named) n there p
              v.forwards;
        publish = v.publish;
      } in
      subst (IsValid allowed) e valid

  pub without_forward-IsValid :
      (name : Bytes) (x y : FileConfig)
      → IsValid allowed x
      → without_forward name x ≡ ok y
      → IsValid allowed y
  unfolding without_forward
  without_forward-IsValid name x y v h =
      let next : FileConfig = record x { forwards = without Forwards.name_of name x.forwards } in
      let (there, e) = guarded-eq-ok (has Forwards.name_of name x.forwards) not_found next h in
      let valid : IsValid allowed next = record {
        forwards = without-IsNamed Forwards.name_of IsForward name x.forwards v.forwards;
        publish = v.publish;
      } in
      subst (IsValid allowed) e valid

  pub with_publish-IsValid :
      (p : Publish) (x y : FileConfig)
      → IsPublish allowed p
      → IsValid allowed x
      → with_publish p x ≡ ok y
      → IsValid allowed y
  unfolding with_publish
  with_publish-IsValid p x y q v h =
      let next : FileConfig = record x { publish = x.publish ++ p ∷ [] } in
      let (free, e) =
        guarded-eq-ok (not (has Publishes.name_of p.name x.publish)) already_exists next h in
      let valid : IsValid allowed next = record {
        forwards = v.forwards;
        publish =
            append-IsNamed Publishes.name_of (IsPublish allowed) x.publish p q (not-eq-true _ free)
              v.publish;
      } in
      subst (IsValid allowed) e valid

  pub changed_publish-IsValid :
      (name : Bytes) (p : Publish) (x y : FileConfig)
      → p.name ≡ name
      → (is_empty name ≡ false → IsPublish allowed p)
      → IsValid allowed x
      → changed_publish name p x ≡ ok y
      → IsValid allowed y
  unfolding changed_publish
  changed_publish-IsValid name p x y n q v h =
      let next : FileConfig = record x { publish = replace Publishes.name_of name p x.publish } in
      let (there, e) = guarded-eq-ok (has Publishes.name_of name x.publish) not_found next h in
      let valid : IsValid allowed next = record {
        forwards = v.forwards;
        publish =
            replace-IsNamed Publishes.name_of (IsPublish allowed) name p x.publish (λ _ r. r.named)
              n there q v.publish;
      } in
      subst (IsValid allowed) e valid

  pub without_publish-IsValid :
      (name : Bytes) (x y : FileConfig)
      → IsValid allowed x
      → without_publish name x ≡ ok y
      → IsValid allowed y
  unfolding without_publish
  without_publish-IsValid name x y v h =
      let next : FileConfig = record x { publish = without Publishes.name_of name x.publish } in
      let (there, e) = guarded-eq-ok (has Publishes.name_of name x.publish) not_found next h in
      let valid : IsValid allowed next = record {
        forwards = v.forwards;
        publish = without-IsNamed Publishes.name_of (IsPublish allowed) name x.publish v.publish;
      } in
      subst (IsValid allowed) e valid
