-- ===== src/Tests/Tailscale.antt =====
-- The Tailscale settings, over a file that holds the config itself, and the login process.
use mathlib.Core.Option.{some-injective}
use router_docker.Prelude.{
  ◌≡◌, refl, true, false, none, some, List, [], ◌∷◌, ok, err, subst, already_exists,
}
use router_docker.Text.{Bytes, codes}
use router_docker.Text.Decimal.{pos}
use router_docker.Keyed.{distinct}
use router_docker.Document.{Codec, read_from}
use router_docker.Document.Laws.{IsCodec, IsReliable, Holds, held, answering}
use router_docker.Tailscale.Config.{
  Forward, Publish, FileConfig, empty_config, validate_host, validate_port,
}
use router_docker.Tailscale.Forwards
use router_docker.Tailscale.Publishes
use router_docker.Tailscale.Valid.{IsValid}
use router_docker.Tailscale.Invariant.{start, add_publish, FileCalls-Holds}
use router_docker.Tailscale.Names.{Call, add, update, delete, respond, serve}
use router_docker.Tailscale.Refinement.{names_of, perform, serve_refines}
use router_docker.Tailscale.Login
use router_docker.Tailscale.Login.Reach.{
  World, Process, here, next, starts, new_world, after_start, after_cancel, after_reap, IsSingle,
  Reach-IsSingle, start-after_cancel,
}

abbrev codec : Codec FileConfig FileConfig
codec = record { marshal = λ c. c; unmarshal = λ c. some c; read_ok = true; write_ok = true }

abbrev codec-IsCodec : IsCodec codec
codec-IsCodec = record { unmarshal-marshal = λ _. refl }

abbrev codec-IsReliable : IsReliable codec
codec-IsReliable = record { codec = codec-IsCodec; reads = refl; writes = refl }

abbrev hosts : List Bytes
hosts = codes "code-docker" ∷ []

no_file-Holds : Holds (IsValid hosts) codec empty_config none
no_file-Holds cfg h = subst (IsValid hosts) (some-injective _ _ h) (record {
  forwards = record { entries = tt; names = unfold distinct in refl };
  publish = record { entries = tt; names = unfold distinct in refl };
})

abbrev web : Publish
web = record {
  name = codes "web";
  tailscale_port = pos 443;
  target_host = [];
  local_port = pos 8080;
  mode = [];
}

FileCalls-Holds_example :
    Holds
      (IsValid hosts)
      codec
      empty_config
      (Publishes.add_publish (answering true true codec) hosts web none).1
FileCalls-Holds_example =
    FileCalls-Holds codec-IsCodec no_file-Holds (add_publish true true web start)

abbrev ssh : Forward
ssh = record {
  name = codes "ssh";
  local_port = pos 2222;
  remote_host = codes "laptop";
  remote_port = pos 22;
  retry_interval = pos 0;
}

abbrev calls : List Call
calls = add ssh ∷ (add ssh ∷ (update (codes "ssh") ssh ∷ (delete (codes "ssh") ∷ [])))

calls_answered :
    (serve (perform codec) calls none).0 ≡ ok tt ∷ (err already_exists ∷ (ok tt ∷ (ok tt ∷ [])))
unfolding serve perform Forwards.add_forward Forwards.update_forward Forwards.delete_forward
    validate_port validate_host read_from
calls_answered = refl

serve_refines_example :
    ((serve (perform codec) calls none).0 ≡ (serve respond calls (names_of empty_config)).0)
    × ((y : FileConfig) × (held codec empty_config (serve (perform codec) calls none).1 ≡ some y)
        × (names_of y ≡ (serve respond calls (names_of empty_config)).1))
serve_refines_example = serve_refines codec codec-IsReliable calls none empty_config refl

abbrev started : World
started = after_start [] (codes "router") false true new_world

Reach-IsSingle_example : IsSingle started.manager started.processes
unfolding after_start
Reach-IsSingle_example = Reach-IsSingle (next here (starts [] (codes "router") false true))

abbrev first : Process
first = record { id = 0; ended = false }

start-after_cancel_example :
    (let v = after_reap 0 (after_cancel started) in
      (Login.cancel started.manager ≡ some 0)
      × (v.processes ≡ [])
      × ((Login.start [] [] true (some 1) v.manager).1 ≡ some (1, Login.login_args [] [] true)))
unfolding after_start
start-after_cancel_example =
    start-after_cancel started first [] [] true 1
      (next here (starts [] (codes "router") false true)) refl
