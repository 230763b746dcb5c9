-- ===== src/NetGate/Config.antt =====
-- backend/internal/netgate/config.go: the live config file and its data. The file at the config
-- path is the state: `none` while it does not exist.
use router_docker.Prelude.Exec.{Exec}
use router_docker.Prelude.{
  ◌≡◌, Bool, Option, none, some, List, [], if◌then◌else◌, Result, ok, err, io,
}
use router_docker.Text.{Bytes}
use router_docker.Text.Decimal.{ℤ, pos}

pub record OutboundRule : Type 0 where
  pub action : Bytes
  pub cidr : Bytes

pub record Forward : Type 0 where
  pub host_port : ℤ
  pub target_host : Bytes
  pub target_port : ℤ

pub record ServiceLimit : Type 0 where
  pub target_host : Bytes
  pub limit_mbps : ℤ

pub record Bandwidth : Type 0 where
  pub total_mbps : ℤ
  pub services : List ServiceLimit

pub record FileConfig : Type 0 where
  pub outbound : List OutboundRule
  pub forwards : List Forward
  pub bandwidth : Bandwidth

-- `fileConfig{}`
abbrev pub empty_config : FileConfig
empty_config = record {
  outbound = [];
  forwards = [];
  bandwidth = record { total_mbps = pos 0; services = [] };
}

-- yaml.v3 on a `fileConfig`, and how the system answers. `C` is what a file can hold.
pub record Backend (C : Type 0) : Type 0 where
  pub marshal : FileConfig → C
  pub unmarshal : C → Option FileConfig
  pub read_ok : Bool
  pub write_ok : Bool

abbrev pub Live : Type 0 → Type 0 → Type 0
Live C A = Exec (Option C) A

module _ {C : Type 0} (b : Backend C) where
  abbrev decoded : Option FileConfig → Result FileConfig
  decoded none = err io
  decoded (some cfg) = ok cfg

  unfoldable pub load_from : Option C → Result FileConfig
  load_from none = ok empty_config
  load_from (some content) = if b.read_ok then decoded (b.unmarshal content) else err io

  unfoldable pub load : Live C FileConfig
  load s = (load_from s, s)

  -- `atomicfile.Write`: the old content stays if any step fails
  unfoldable pub save : FileConfig → Live C (Unit {0})
  save cfg s = if b.write_ok then (ok tt, some (b.marshal cfg)) else (err io, s)

-- what is documented of yaml.v3
pub record IsBackend {C : Type 0} (b : Backend C) : Type 0 where
  pub unmarshal-marshal : (cfg : FileConfig) → b.unmarshal (b.marshal cfg) ≡ some cfg
