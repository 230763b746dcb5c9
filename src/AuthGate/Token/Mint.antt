-- ===== src/AuthGate/Token/Mint.antt =====
-- A minted token is read back.
use router_docker.Prelude.{ℕ, ◌*◌, ◌^◌, ◌≤◌, ◌<◌, ◌≡◌, refl, true, some, arith}
use router_docker.Text.{Bytes}
use router_docker.Text.Laws.{equal_refl}
use router_docker.Text.Cut.{cut-append}
use router_docker.Text.Lines.{lacks}
use router_docker.Text.Decimal.{ℤ, pos, itoa, decimal}
use router_docker.Text.Integer.{parse_int-decimal, decimal-lacks}
use router_docker.AuthGate.Token.{
  Signing, second, is_after, int_ltb, payload_of, mint_token, payload_times, is_consistent,
  signed_payload, token_times,
}

-- The documented behaviour of the libraries that the tokens rely on.
pub record IsSigning (sg : Signing) : Type 0 where
  pub decode-encode : (b : Bytes) → sg.decode (sg.encode b) ≡ some b
  -- the alphabet has no dot
  pub encode-lacks : (b : Bytes) → lacks b'.' (sg.encode b) ≡ true

module _ (sg : Signing) where
  signed_payload-mint_token :
      (origin refreshed : ℤ)
      → IsSigning sg
      → signed_payload sg (mint_token sg origin refreshed) ≡ some (payload_of sg origin refreshed)
  unfolding signed_payload mint_token
  signed_payload-mint_token origin refreshed h =
      let payload = payload_of sg origin refreshed in
      rw
        (cut-append b'.' (sg.encode payload) (sg.encode (sg.sign payload)) (h.encode-lacks payload))
        (rw (h.decode-encode payload)
          (rw (h.decode-encode (sg.sign payload)) (rw (equal_refl (sg.sign payload)) refl)))

  payload_times-payload_of :
      (o r : ℕ)
      → o < 2 ^ 63
      → r < 2 ^ 63
      → payload_times sg (payload_of sg (pos o) (pos r)) ≡ some (pos o, pos r)
  unfolding payload_times payload_of itoa
  payload_times-payload_of o r ho hr =
      rw (cut-append b':' (decimal o) (decimal r) (decimal-lacks b':' o refl))
        (rw (parse_int-decimal o ho) (rw (parse_int-decimal r hr) refl))

  -- A token minted for two times that lie in the past, in order, is accepted, and gives them back.
  pub token_times-mint_token :
      (o r now : ℕ)
      → IsSigning sg
      → o ≤ r
      → r * second ≤ now
      → r < 2 ^ 63
      → token_times sg now (some (mint_token sg (pos o) (pos r))) ≡ some (pos o, pos r)
  unfolding token_times is_consistent is_after int_ltb
  token_times-mint_token o r now h le past hr =
      rw (signed_payload-mint_token (pos o) (pos r) h)
        (rw (payload_times-payload_of o r (omega arith) hr) (ground arith))
