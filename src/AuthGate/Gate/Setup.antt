-- ===== src/AuthGate/Gate/Setup.antt =====
-- From the first password to a served request.
use router_docker.Prelude.{
  ℕ, ◌+◌, ◌*◌, ◌/◌, ◌^◌, ◌≤◌, ◌<◌, ◌≡◌, refl, ap, ◌∙◌, true, false, not, Option, none, some,
  is_empty, Error, Result, ok, err, arith, Bool-cases, inl, inr, ◌⊎◌, io, no_store_path,
  already_configured, bad_setup_token,
}
use router_docker.Text.{Bytes, equal, is_some}
use router_docker.Text.Laws.{equal_refl, equal_iff}
use router_docker.AuthGate.Attempts.{rate_limited}
use router_docker.AuthGate.Password.{
  IsCodec, hash_password, verify_password, verify_password-hash_password,
}
use router_docker.AuthGate.Token.{issue_token, second, session_ttl, unlocked_until, refresh_cookie}
use router_docker.AuthGate.Token.Mint.{IsSigning}
use router_docker.AuthGate.Token.Session.{typed, Session-unlocked_until}
use router_docker.AuthGate.Gate.{
  Machine, Gate, served, read_stored_hash, write_stored_hash, current_hash, configured,
  normalize_setup_token, setup_password, finish_unlock, check_unlock, try_unlock, require_password,
  note_success,
}

-- What the libraries document.
pub record IsMachine (m : Machine) : Type 0 where
  pub codec : IsCodec m.codec
  pub signing : IsSigning m.signing
  pub unmarshal-marshal : (h : Bytes) → m.unmarshal (m.marshal h) ≡ some h

module _ (m : Machine) where
  -- a gate that holds the hash of a password, in its file
  abbrev Holds : Bytes → Bytes → Gate → Type 0
  Holds salt plaintext g = current_hash m g ≡ hash_password m.codec salt plaintext

  -- what a first password leaves behind
  abbrev pub stored_first : Bytes → Bytes → Bytes → Gate → Gate
  stored_first salt fresh plaintext g = record g {
    stored = some (m.marshal (hash_password m.codec salt plaintext));
    setup_token = fresh;
    token_announced = false;
  }

  configured-env : (g : Gate) → configured m g ≡ false → is_empty g.env_hash ≡ true
  unfolding configured current_hash
  configured-env g h = ground arith

  -- `SetupPassword` fails and changes nothing, or it stores the hash of the password and a new
  -- setup token; and then no password was configured before, and the caller knew the setup token,
  -- up to surrounding blanks and upper case.
  pub setup_password-cases :
      (salt fresh token plaintext : Bytes) (g : Gate)
      → ((x : Error) × (setup_password m salt fresh token plaintext g ≡ (err x, g)))
        ⊎ ((setup_password m salt fresh token plaintext g
              ≡ (ok tt, stored_first salt fresh plaintext g))
            × (configured m g ≡ false)
            × (is_empty g.store_path ≡ false)
            × (normalize_setup_token m token ≡ g.setup_token))
  unfolding setup_password write_stored_hash
  setup_password-cases salt fresh token plaintext g = elim (Bool-cases (is_empty g.store_path)) [
    | inl none_set ↦ inl (no_store_path, simp none_set refl)
    | inr path ↦ elim (Bool-cases (configured m g)) [
      | inl known ↦ inl (already_configured, simp (path, known) refl)
      | inr unknown ↦ elim (Bool-cases (equal (normalize_setup_token m token) g.setup_token)) [
        | inr wrong ↦ inl (bad_setup_token, simp (path, unknown, wrong) refl)
        | inl right ↦ elim (Bool-cases m.write_ok) [
          | inr bad ↦ inl (io, simp (path, unknown, right, bad) refl)
          | inl fine ↦ inr (
            simp (path, unknown, right, fine) refl,
            unknown,
            path,
            (equal_iff (normalize_setup_token m token) g.setup_token).0 right,
          )
        ]
      ]
    ]
  ]

  stored_first-Holds :
      (salt fresh plaintext : Bytes) (g : Gate)
      → IsMachine m
      → configured m g ≡ false
      → is_empty g.store_path ≡ false
      → Holds salt plaintext (stored_first salt fresh plaintext g)
  unfolding current_hash read_stored_hash
  stored_first-Holds salt fresh plaintext g h unknown path =
      simp
        (configured-env g unknown, path, h.unmarshal-marshal (hash_password m.codec salt plaintext))
        refl

  hash_password-cons :
      (salt plaintext : Bytes) → is_empty (hash_password m.codec salt plaintext) ≡ false
  unfolding hash_password
  hash_password-cons salt plaintext = refl

  verify-right :
      (salt plaintext : Bytes)
      → IsMachine m
      → verify_password m.codec true plaintext (hash_password m.codec salt plaintext) ≡ ok true
  verify-right salt plaintext h =
      verify_password-hash_password m.codec salt plaintext plaintext h.codec
      ∙ ap ok (equal_refl (m.codec.id_key plaintext salt 3 (64 * 1024) 2 32))

  try_unlock-Holds :
      (salt plaintext key : Bytes) (now later : ℕ) (g : Gate)
      → IsMachine m
      → Holds salt plaintext g
      → rate_limited now key g.attempts ≡ none
      → try_unlock m now later true key plaintext g
        ≡ (ok (some (issue_token m.signing later)), note_success m key g)
  unfolding try_unlock check_unlock finish_unlock
  try_unlock-Holds salt plaintext key now later g h holds free =
      rw holds
        (rw (hash_password-cons salt plaintext) (rw free (rw (verify-right salt plaintext h) refl)))

  -- the requests that carry a token just issued
  issued-served :
      (salt plaintext key : Bytes) (later at : ℕ) (g : Gate)
      → IsMachine m
      → Holds salt plaintext g
      → later < 2 ^ 63
      → later ≤ at
      → at < (later / second + session_ttl) * second
      → (r : Option Bytes) × (require_password m at
            (some (issue_token m.signing later))
            (note_success m key g)
          ≡ served r)
  unfolding require_password
  issued-served salt plaintext key later at g h holds small le soon =
      let known : configured m (note_success m key g) ≡ true =
        unfold configured current_hash in rw holds (ap not (hash_password-cons salt plaintext)) in
      let live : is_some (unlocked_until m.signing at (some (issue_token m.signing later))) ≡ true =
        rw (Session-unlocked_until m.signing h.signing small le typed) (ground arith) in
      (refresh_cookie m.signing at (some (issue_token m.signing later)), rw known (rw live refl))

  -- After `SetupPassword` has answered without an error, `TryUnlock` with that password issues a
  -- token to any caller that is not locked out, when a verification slot is free; and
  -- `RequirePassword` serves the requests that carry the token, from then on for fifteen minutes
  -- counted from the second of its issue; where the libraries behave as documented and the time of
  -- issue is below 2^63 nanoseconds.
  pub setup_password-served :
      (salt fresh token plaintext key : Bytes) (now later at : ℕ) (g : Gate)
      → IsMachine m
      → (setup_password m salt fresh token plaintext g).0 ≡ ok tt
      → rate_limited now key g.attempts ≡ none
      → later < 2 ^ 63
      → later ≤ at
      → at < (later / second + session_ttl) * second
      → (let after : Gate = (setup_password m salt fresh token plaintext g).1 in
          let unlocked : Result (Option Bytes) × Gate =
            try_unlock m now later true key plaintext after in
          (cookie : Bytes) × (unlocked.0 ≡ ok (some cookie))
          × (r : Option Bytes) × (require_password m at (some cookie) unlocked.1 ≡ served r))
  setup_password-served salt fresh token plaintext key now later at g h e free small le soon =
      elim (setup_password-cases salt fresh token plaintext g) [
        | inl (x, failed) ↦ cc
        | inr (done, unknown, path, known) ↦
            let holds = stored_first-Holds salt fresh plaintext g h unknown path in
            let after = stored_first salt fresh plaintext g in
            rw done (
              rw (try_unlock-Holds salt plaintext key now later after h holds free) (
                let (r, e2) =
                  issued-served salt plaintext key later at after h holds small le soon in
                (issue_token m.signing later, refl, r, e2)))
      ]
