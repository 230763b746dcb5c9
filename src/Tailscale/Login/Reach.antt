-- ===== src/Tailscale/Login/Reach.antt =====
-- The manager and its processes over time: the calls, the processes that end and the goroutines
-- that wait for them, in any order.
use router_docker.Prelude.{
  ℕ, ◌+◌, ◌≡◌, refl, Bool, true, false, ◌&&◌, ◌||◌, Option, none, some, List, [], ◌∷◌, ◌==◌,
  if◌then◌else◌, arith, subst,
}
use router_docker.Text.{Bytes}
use router_docker.Tailscale.Login.{LoginManager, new_login_manager, login_args, start, reap, cancel}

-- a spawned process, until its goroutine has seen it end
pub record Process : Type 0 where
  pub id : ℕ
  pub ended : Bool

pub record World : Type 0 where
  pub manager : LoginManager
  pub processes : List Process
  pub next_id : ℕ

abbrev pub new_world : World
new_world = record { manager = new_login_manager; processes = []; next_id = 0 }

-- the processes with the spawned one
abbrev spawned_of : {A : Type 0} → Option (ℕ × A) → List Process → List Process
spawned_of none ps = ps
spawned_of (some (id, args)) ps = record { id = id; ended = false } ∷ ps

-- `Start`, where `spawns` is whether the system can start a process
unfoldable pub after_start : Bytes → Bytes → Bool → Bool → World → World
unfolding start
after_start server hostname force spawns w =
    let r = start server hostname force (if spawns then some w.next_id else none) w.manager in
    record { manager = r.2; processes = spawned_of r.1 w.processes; next_id = w.next_id + 1 }

-- the process of that number has ended, by itself or by a kill
unfoldable pub end_of : ℕ → List Process → List Process
end_of id [] = []
end_of id (p ∷ ps) = (if p.id == id then record p { ended = true } else p) ∷ end_of id ps

-- the processes whose goroutines still wait
unfoldable pub without_process : ℕ → List Process → List Process
without_process id [] = []
without_process id (p ∷ ps) =
    let rest = without_process id ps in if p.id == id then rest else p ∷ rest

-- the goroutine of a process that has ended takes the lock
unfoldable pub after_reap : ℕ → World → World
unfolding reap without_process
after_reap id w = record w {
  manager = reap id w.manager;
  processes = without_process id w.processes;
}

abbrev killed : Option ℕ → World → World
killed none w = w
killed (some id) w = record w { processes = end_of id w.processes }

unfoldable pub after_cancel : World → World
unfolding cancel end_of
after_cancel w = killed (cancel w.manager) w

unfoldable pub has_ended : ℕ → List Process → Bool
has_ended id [] = false
has_ended id (p ∷ ps) = (p.id == id && p.ended) || has_ended id ps

pub data Step (w : World) : World → Type 0 where
  starts :
      (server hostname : Bytes) (force spawns : Bool)
      → Step w (after_start server hostname force spawns w)
  cancels : Step w (after_cancel w)
  ends : (id : ℕ) → Step w (record w { processes = end_of id w.processes })
  reaps : (id : ℕ) → has_ended id w.processes ≡ true → Step w (after_reap id w)

pub data Reach (s : World) : World → Type 0 where
  here : Reach s s
  next : {t u : World} → Reach s t → Step t u → Reach s u

-- There is at most one process, the one that the manager names, and `running` tells whether there
-- is one.
abbrev pub IsSingle : LoginManager → List Process → Type 0
IsSingle m [] = m.running ≡ false
IsSingle m (p ∷ []) = (m.running ≡ true) × (m.cmd ≡ some p.id)
IsSingle m (p ∷ (q ∷ ps)) = ⊥

end_of-IsSingle :
    (id : ℕ) (m : LoginManager) (ps : List Process) → IsSingle m ps → IsSingle m (end_of id ps)
unfolding end_of
end_of-IsSingle id m [] h = h
end_of-IsSingle id m (p ∷ []) h = ground arith
end_of-IsSingle id m (p ∷ (q ∷ ps)) h = elim h [ ]

after_start-IsSingle :
    (server hostname : Bytes) (force spawns : Bool) (m : LoginManager) (ps : List Process) (n : ℕ)
    → IsSingle m ps
    → (let w =
          after_start server hostname force spawns
            (record { manager = m; processes = ps; next_id = n }) in
        IsSingle w.manager w.processes)
unfolding after_start start
after_start-IsSingle server hostname force true m [] n h = rw h (refl, refl)
after_start-IsSingle server hostname force false m [] n h = simp h refl
after_start-IsSingle server hostname force spawns m (p ∷ []) n h = simp h.0 (refl, h.1)
after_start-IsSingle server hostname force spawns m (p ∷ (q ∷ ps)) n h = elim h [ ]

killed-IsSingle :
    (o : Option ℕ) (w : World)
    → IsSingle w.manager w.processes
    → IsSingle (killed o w).manager (killed o w).processes
killed-IsSingle none w h = h
killed-IsSingle (some id) w h = end_of-IsSingle id w.manager w.processes h

after_reap-IsSingle :
    (id : ℕ) (m : LoginManager) (ps : List Process) (n : ℕ)
    → IsSingle m ps
    → has_ended id ps ≡ true
    → IsSingle (reap id m) (without_process id ps)
unfolding reap without_process has_ended
after_reap-IsSingle id m [] n h e = cc
after_reap-IsSingle id m (p ∷ []) n h e = ground arith
after_reap-IsSingle id m (p ∷ (q ∷ ps)) n h e = elim h [ ]

Step-IsSingle :
    {w v : World} → Step w v → IsSingle w.manager w.processes → IsSingle v.manager v.processes
unfolding after_cancel after_reap
Step-IsSingle {w} (starts server hostname force spawns) h =
    after_start-IsSingle server hostname force spawns w.manager w.processes w.next_id h
Step-IsSingle {w} cancels h = killed-IsSingle (cancel w.manager) w h
Step-IsSingle {w} (ends id) h = end_of-IsSingle id w.manager w.processes h
Step-IsSingle {w} (reaps id e) h = after_reap-IsSingle id w.manager w.processes w.next_id h e

-- From a new manager, after any sequence of `Start` and `Cancel` calls, ends of processes and
-- goroutines that see them, at most one `tailscale up` is in flight, the manager names it, and it
-- says that it runs exactly when there is one.
pub Reach-IsSingle : {w : World} → Reach new_world w → IsSingle w.manager w.processes
Reach-IsSingle here = refl
Reach-IsSingle (next r s) = Step-IsSingle s (Reach-IsSingle r)

single_retry :
    (w : World) (p : Process) (server hostname : Bytes) (force : Bool) (id : ℕ)
    → w.manager.running ≡ true
    → w.manager.cmd ≡ some p.id
    → w.processes ≡ p ∷ []
    → (let v = after_reap p.id (after_cancel w) in
        (cancel w.manager ≡ some p.id)
        × (v.processes ≡ [])
        × ((start server hostname force (some id) v.manager).1
            ≡ some (id, login_args server hostname force)))
unfolding after_reap after_cancel start cancel end_of without_process reap
single_retry w p server hostname force id r c e =
    (simp (r, c) refl, simp (r, c, e) (ground arith), simp (r, c) (ground arith))

-- A login in flight can be given up: `Cancel` kills that process, whichever calls came before, and
-- after its goroutine has seen it end no process is left, and the next `Start` spawns one with its
-- own arguments where the system can.
pub start-after_cancel :
    (w : World) (p : Process) (server hostname : Bytes) (force : Bool) (id : ℕ)
    → Reach new_world w
    → w.processes ≡ p ∷ []
    → (let v = after_reap p.id (after_cancel w) in
        (cancel w.manager ≡ some p.id)
        × (v.processes ≡ [])
        × ((start server hostname force (some id) v.manager).1
            ≡ some (id, login_args server hostname force)))
start-after_cancel w p server hostname force id r e =
    let (running, current) = subst (IsSingle w.manager) e (Reach-IsSingle r) in
    single_retry w p server hostname force id running current e
