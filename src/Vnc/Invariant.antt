-- ===== src/Vnc/Invariant.antt =====
-- The registry over any sequence of calls, while the App Routes change beside it.
use router_docker.Prelude.{Bool, List, []}
use router_docker.Text.{Bytes}
use router_docker.Document.{Codec}
use router_docker.Document.Laws.{IsCodec, Holds, answering, answering-IsCodec}
use router_docker.Fragments.{System}
use router_docker.Fragments.Files.{Dir}
use router_docker.DevProxy.Validate.{Settings}
use router_docker.Vnc.Keeps.{IsRegistry, create-IsGood, update-IsGood, delete-IsGood}
use router_docker.Vnc.Target.{Target}
use router_docker.Vnc.Store.{Files, create, update, delete}

-- The registry and the App Routes after some calls. The system's answers may change from one call
-- to the next, and the App Routes may be changed by others in between.
pub data VncCalls {C : Type 0} (b : Codec (List Target) C) (st : Settings) (s : Files C)
    : Files C → Type 0 where
  start : VncCalls b st s s
  creates :
      {w : Files C} (r q : Bool) (sys : System) (t : Target)
      → VncCalls b st s w
      → VncCalls b st s (create (answering r q b) sys st t w).1
  updates :
      {w : Files C} (r q : Bool) (sys : System) (old : Bytes) (t : Target)
      → VncCalls b st s w
      → VncCalls b st s (update (answering r q b) sys st old t w).1
  deletes :
      {w : Files C} (r q : Bool) (sys : System) (name : Bytes)
      → VncCalls b st s w
      → VncCalls b st s (delete (answering r q b) sys name w).1
  others : {w : Files C} (d : Dir) → VncCalls b st s w → VncCalls b st s (record w { routes = d })

-- From a registry whose targets pass the checks with names in ascending order, none twice, or from
-- no registry, every sequence of `Create`, `Update` and `Delete` calls, whatever fails on the way
-- and whatever happens to the App Routes meanwhile, leaves such a registry; where encoding/json
-- reads back what it writes.
pub VncCalls-IsRegistry :
    {C : Type 0} {b : Codec (List Target) C} {st : Settings} {s w : Files C}
    → IsCodec b
    → Holds (IsRegistry st) b [] s.registry
    → VncCalls b st s w
    → Holds (IsRegistry st) b [] w.registry
VncCalls-IsRegistry c h start = h
VncCalls-IsRegistry {b} {st} c h (creates {w} r q sys t k) =
    create-IsGood (answering r q b) st (answering-IsCodec r q b c) sys t w
      (VncCalls-IsRegistry c h k)
VncCalls-IsRegistry {b} {st} c h (updates {w} r q sys old t k) =
    update-IsGood (answering r q b) st (answering-IsCodec r q b c) sys old t w
      (VncCalls-IsRegistry c h k)
VncCalls-IsRegistry {b} {st} c h (deletes {w} r q sys name k) =
    delete-IsGood (answering r q b) st (answering-IsCodec r q b c) sys name w
      (VncCalls-IsRegistry c h k)
VncCalls-IsRegistry c h (others d k) = VncCalls-IsRegistry c h k
