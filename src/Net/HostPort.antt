-- ===== src/Net/HostPort.antt =====
-- `net.SplitHostPort`.
use mathlib.Core.Option
use router_docker.Prelude.Maybe.{◌>>=◌, ◌>>◌, check}
use router_docker.Prelude.{ℕ, Bool, not, Option, some, [], ◌∷◌, reverse, ◌==◌, if◌then◌else◌, any}
use router_docker.Text.{Bytes, cut, cut_suffix}

has_byte : ℕ → Bytes → Bool
has_byte b = any (λ c. c == b)

-- the text before the last `sep`, and the text behind it
unfoldable pub cut_last : ℕ → Bytes → Option (Bytes × Bytes)
unfolding cut
cut_last sep s = Option.map (λ (a, b). (reverse b, reverse a)) (cut sep (reverse s))

-- `[host]:port`, where `before` is all in front of the last colon
bracketed : Bytes → Bytes → Option (Bytes × Bytes)
unfolding cut_suffix has_byte
bracketed inner port = do
  host ← cut_suffix inner (b']' ∷ [])
  check (not (has_byte b']' host))
  check (not (has_byte b'[' host))
  check (not (has_byte b'[' port))
  check (not (has_byte b']' port))
  some (host, port)

plain : Bytes → Bytes → Option (Bytes × Bytes)
unfolding has_byte
plain host port = do
  check (not (has_byte b':' host))
  check (not (has_byte b'[' host))
  check (not (has_byte b']' host))
  check (not (has_byte b'[' port))
  check (not (has_byte b']' port))
  some (host, port)

from_cut : Bytes → Bytes → Option (Bytes × Bytes)
unfolding bracketed plain
from_cut [] port = plain [] port
from_cut (c ∷ before) port = if c == b'[' then bracketed before port else plain (c ∷ before) port

unfoldable pub split_host_port : Bytes → Option (Bytes × Bytes)
unfolding cut_last from_cut
split_host_port s = do parts ← cut_last b':' s; from_cut parts.0 parts.1
