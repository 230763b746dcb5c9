-- ===== src/Tailscale/Invariant.antt =====
-- The file over any sequence of calls: its forwards and its publishes stay valid.
use router_docker.Prelude.Exec.{Exec}
use router_docker.Prelude.{
  ◌≡◌, refl, Bool, not, Option, List, guard, validation, is_empty, not-eq-true, guard-eq-ok,
}
use router_docker.Text.{Bytes}
use router_docker.Document.{Codec}
use router_docker.Document.Laws.{
  IsCodec, Holds, answering, answering-IsCodec, checked-Holds, answered-Holds, edit-Holds,
}
use router_docker.Tailscale.Config.{
  Forward, Publish, GlobalConfig, FileConfig, empty_config, validate_socks_address,
  validate_login_server,
}
use router_docker.Tailscale.Global.{with_global, set_global_config}
use router_docker.Tailscale.Forwards
use router_docker.Tailscale.Forwards.{check_forward, with_forward, changed_forward, without_forward}
use router_docker.Tailscale.Publishes
use router_docker.Tailscale.Publishes.{
  filled, check_mode, check_publish, with_publish, changed_publish, without_publish,
}
use router_docker.Tailscale.Edits.{
  with_global-IsValid, with_forward-IsValid, changed_forward-IsValid, without_forward-IsValid,
  with_publish-IsValid, changed_publish-IsValid, without_publish-IsValid,
}
use router_docker.Tailscale.Valid.{IsValid, check_forward-IsForward, check_publish-IsPublish}

filled-name : (name : Bytes) (p : Publish) → (filled (record p { name = name })).name ≡ name
unfolding filled
filled-name name p = refl

module _ {C : Type 0} (b : Codec FileConfig C) (allowed : List Bytes) (c : IsCodec b) where
  abbrev Keeps : {A : Type 0} → Exec (Option C) A → Type 0
  Keeps m =
      (s : Option C)
      → Holds (IsValid allowed) b empty_config s
      → Holds (IsValid allowed) b empty_config (m s).1

  set_global_config-Holds :
      (parse_url : Bytes → Option (Bytes × Bytes)) (g : GlobalConfig)
      → Keeps (set_global_config b parse_url g)
  unfolding set_global_config
  set_global_config-Holds parse_url g s h =
      checked-Holds (IsValid allowed) b empty_config (validate_socks_address g.socks_address) _ s h
        λ _.
          checked-Holds (IsValid allowed) b empty_config
            (validate_login_server parse_url g.login_server) _ s h
            λ _.
              edit-Holds b empty_config (IsValid allowed) c (with_global g) s
                (λ x y. with_global-IsValid allowed g x y) h

  add_forward-Holds : (f : Forward) → Keeps (Forwards.add_forward b f)
  unfolding Forwards.add_forward
  add_forward-Holds f s h =
      checked-Holds (IsValid allowed) b empty_config (guard (not (is_empty f.name)) validation) _ s
        h
        λ n. checked-Holds (IsValid allowed) b empty_config (check_forward f) _ s h λ k.
          let named = not-eq-true _ (guard-eq-ok (not (is_empty f.name)) validation n) in
          answered-Holds (IsValid allowed) b empty_config _ f (
            edit-Holds b empty_config (IsValid allowed) c (with_forward f) s
              (λ x y. with_forward-IsValid allowed f x y (check_forward-IsForward f named k)) h)

  update_forward-Holds : (name : Bytes) (f : Forward) → Keeps (Forwards.update_forward b name f)
  unfolding Forwards.update_forward
  update_forward-Holds name f s h =
      let g : Forward = record f { name = name } in
      checked-Holds (IsValid allowed) b empty_config (check_forward g) _ s h λ k.
        answered-Holds (IsValid allowed) b empty_config _ g (
          edit-Holds b empty_config (IsValid allowed) c (changed_forward name g) s
            (λ x y.
              changed_forward-IsValid allowed name g x y refl (λ n. check_forward-IsForward g n k))
            h)

  delete_forward-Holds : (name : Bytes) → Keeps (Forwards.delete_forward b name)
  unfolding Forwards.delete_forward
  delete_forward-Holds name s h =
      edit-Holds b empty_config (IsValid allowed) c (without_forward name) s
        (λ x y. without_forward-IsValid allowed name x y) h

  add_publish-Holds : (p : Publish) → Keeps (Publishes.add_publish b allowed p)
  unfolding Publishes.add_publish
  add_publish-Holds p s h =
      let q : Publish = filled p in
      checked-Holds (IsValid allowed) b empty_config (check_mode q) _ s h λ m.
        checked-Holds (IsValid allowed) b empty_config (guard (not (is_empty q.name)) validation) _
          s h
          λ n. checked-Holds (IsValid allowed) b empty_config (check_publish allowed q) _ s h λ k.
            let named = not-eq-true _ (guard-eq-ok (not (is_empty q.name)) validation n) in
            answered-Holds (IsValid allowed) b empty_config _ q (
              edit-Holds b empty_config (IsValid allowed) c (with_publish q) s
                (λ x y.
                  with_publish-IsValid allowed q x y (check_publish-IsPublish allowed q named m k))
                h)

  update_publish-Holds :
      (name : Bytes) (p : Publish) → Keeps (Publishes.update_publish b allowed name p)
  unfolding Publishes.update_publish
  update_publish-Holds name p s h =
      let q : Publish = filled (record p { name = name }) in
      checked-Holds (IsValid allowed) b empty_config (check_mode q) _ s h λ m.
        checked-Holds (IsValid allowed) b empty_config (check_publish allowed q) _ s h λ k.
          answered-Holds (IsValid allowed) b empty_config _ q (
            edit-Holds b empty_config (IsValid allowed) c (changed_publish name q) s
              (λ x y.
                changed_publish-IsValid allowed name q x y (filled-name name p)
                  (λ n. check_publish-IsPublish allowed q n m k))
              h)

  delete_publish-Holds : (name : Bytes) → Keeps (Publishes.delete_publish b name)
  unfolding Publishes.delete_publish
  delete_publish-Holds name s h =
      edit-Holds b empty_config (IsValid allowed) c (without_publish name) s
        (λ x y. without_publish-IsValid allowed name x y) h

-- The file after some calls of the operations that write it. What the system answers, to reads and
-- to writes, may change from one call to the next.
pub data FileCalls {C : Type 0} (b : Codec FileConfig C) (allowed : List Bytes) (s : Option C)
    : Option C → Type 0 where
  start : FileCalls b allowed s s
  set_global :
      {t : Option C} (r w : Bool) (parse_url : Bytes → Option (Bytes × Bytes)) (g : GlobalConfig)
      → FileCalls b allowed s t
      → FileCalls b allowed s (set_global_config (answering r w b) parse_url g t).1
  add_forward :
      {t : Option C} (r w : Bool) (f : Forward)
      → FileCalls b allowed s t
      → FileCalls b allowed s (Forwards.add_forward (answering r w b) f t).1
  update_forward :
      {t : Option C} (r w : Bool) (name : Bytes) (f : Forward)
      → FileCalls b allowed s t
      → FileCalls b allowed s (Forwards.update_forward (answering r w b) name f t).1
  delete_forward :
      {t : Option C} (r w : Bool) (name : Bytes)
      → FileCalls b allowed s t
      → FileCalls b allowed s (Forwards.delete_forward (answering r w b) name t).1
  add_publish :
      {t : Option C} (r w : Bool) (p : Publish)
      → FileCalls b allowed s t
      → FileCalls b allowed s (Publishes.add_publish (answering r w b) allowed p t).1
  update_publish :
      {t : Option C} (r w : Bool) (name : Bytes) (p : Publish)
      → FileCalls b allowed s t
      → FileCalls b allowed s (Publishes.update_publish (answering r w b) allowed name p t).1
  delete_publish :
      {t : Option C} (r w : Bool) (name : Bytes)
      → FileCalls b allowed s t
      → FileCalls b allowed s (Publishes.delete_publish (answering r w b) name t).1

-- Starting from a file whose config is valid, or from no file, every sequence of calls, whatever
-- fails on the way, leaves a file whose config is valid: every forward and every publish has a name
-- of its own, ports from 1 to 65535 and a plain host that is not the router itself, and every
-- publish has one of the two modes and a host on the allowlist, and is no denied target; where
-- yaml.v3 reads back what it writes.
pub FileCalls-Holds :
    {C : Type 0} {b : Codec FileConfig C} {allowed : List Bytes} {s t : Option C}
    → IsCodec b
    → Holds (IsValid allowed) b empty_config s
    → FileCalls b allowed s t
    → Holds (IsValid allowed) b empty_config t
FileCalls-Holds c h start = h
FileCalls-Holds {b} {allowed} c h (set_global {t} r w parse_url g k) =
    set_global_config-Holds (answering r w b) allowed (answering-IsCodec r w b c) parse_url g t
      (FileCalls-Holds c h k)
FileCalls-Holds {b} {allowed} c h (add_forward {t} r w f k) =
    add_forward-Holds (answering r w b) allowed (answering-IsCodec r w b c) f t
      (FileCalls-Holds c h k)
FileCalls-Holds {b} {allowed} c h (update_forward {t} r w name f k) =
    update_forward-Holds (answering r w b) allowed (answering-IsCodec r w b c) name f t
      (FileCalls-Holds c h k)
FileCalls-Holds {b} {allowed} c h (delete_forward {t} r w name k) =
    delete_forward-Holds (answering r w b) allowed (answering-IsCodec r w b c) name t
      (FileCalls-Holds c h k)
FileCalls-Holds {b} {allowed} c h (add_publish {t} r w p k) =
    add_publish-Holds (answering r w b) allowed (answering-IsCodec r w b c) p t
      (FileCalls-Holds c h k)
FileCalls-Holds {b} {allowed} c h (update_publish {t} r w name p k) =
    update_publish-Holds (answering r w b) allowed (answering-IsCodec r w b c) name p t
      (FileCalls-Holds c h k)
FileCalls-Holds {b} {allowed} c h (delete_publish {t} r w name k) =
    delete_publish-Holds (answering r w b) allowed (answering-IsCodec r w b c) name t
      (FileCalls-Holds c h k)
