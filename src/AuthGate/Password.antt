-- ===== src/AuthGate/Password.antt =====
-- backend/internal/authgate/password.go: hashing a password, and checking one against a hash.
use router_docker.Prelude.{
  ℕ, ◌*◌, ◌≡◌, refl, Bool, true, false, ◌&&◌, Option, none, some, List, [], ◌∷◌, ◌++◌, ◌==◌, Result,
  ok, err, busy, invalid_hash, incompatible_version, guard, ◌>>◌, length, is_empty,
}
use router_docker.Text.{Bytes, codes, equal, split}
use router_docker.Text.Lines.{lacks, split-lacks}
use router_docker.Text.Integer.{split-last}

-- The libraries that password.go calls: argon2, base64, and the scanning of numbers by `Sscanf`.
pub record Codec : Type 0 where
  -- `argon2.IDKey`: the password, the salt, time, memory, threads and key length
  pub id_key : Bytes → Bytes → ℕ → ℕ → ℕ → ℕ → Bytes
  -- `base64.RawStdEncoding`
  pub encode : Bytes → Bytes
  pub decode : Bytes → Option Bytes
  -- `Sscanf(s, "v=%d", …)`, and `Sscanf(s, "m=%d,t=%d,p=%d", …)` into widths of 32, 32 and 8 bits
  pub scan_version : Bytes → Option ℕ
  pub scan_params : Bytes → Option (ℕ × ℕ × ℕ)

-- `argonMemoryKiB`, `argonTime`, `argonParallelism` and `argonKeyLen`
abbrev argon_memory_kib : ℕ
argon_memory_kib = 64 * 1024

abbrev argon_time : ℕ
argon_time = 3

abbrev argon_parallelism : ℕ
argon_parallelism = 2

abbrev argon_key_len : ℕ
argon_key_len = 32

abbrev argon_version : ℕ
argon_version = 19

-- what `Sprintf` writes for the version and the parameters above
abbrev version_text : Bytes
version_text = codes "v=19"

abbrev params_text : Bytes
params_text = codes "m=65536,t=3,p=2"

-- The documented behaviour of those libraries that the round trip relies on.
pub record IsCodec (c : Codec) : Type 0 where
  pub decode-encode : (b : Bytes) → c.decode (c.encode b) ≡ some b
  -- the alphabet has no dollar sign
  pub encode-lacks : (b : Bytes) → lacks b'$' (c.encode b) ≡ true
  pub version_scans : c.scan_version version_text ≡ some argon_version
  pub params_scan :
      c.scan_params params_text ≡ some (argon_memory_kib, argon_time, argon_parallelism)
  -- a key is as long as was asked
  pub key_length : (p s : Bytes) (t m n l : ℕ) → length (c.id_key p s t m n l) ≡ l

module _ (c : Codec) where
  derive : Bytes → Bytes → Bytes
  derive plaintext salt =
      c.id_key plaintext salt argon_time argon_memory_kib argon_parallelism argon_key_len

  -- `HashPassword`, with the salt that was drawn
  unfoldable pub hash_password : Bytes → Bytes → Bytes
  unfolding derive
  hash_password salt plaintext =
      codes "$argon2id$"
      ++ (version_text
          ++ (codes "$"
              ++ (params_text
                  ++ (codes "$"
                      ++ (c.encode salt ++ (codes "$" ++ c.encode (derive plaintext salt)))))))

  scanned : Option (ℕ × ℕ × ℕ) → Option Bytes → Option Bytes → Bytes → Result Bool
  unfolding equal
  scanned (some (memory, iterations, parallelism)) (some salt) (some hash) plaintext =
      ok (equal hash (c.id_key plaintext salt iterations memory parallelism (length hash)))
  scanned _ _ _ plaintext = err invalid_hash

  check_version : Option ℕ → Result (Unit {0})
  check_version none = err invalid_hash
  check_version (some v) = guard (v == argon_version) incompatible_version

  -- the checks that are made before a slot is waited for
  has_fields : Option (ℕ × ℕ × ℕ) → Option Bytes → Option Bytes → Bool
  has_fields (some _) (some _) (some _) = true
  has_fields _ _ _ = false

  verify_parts : Bool → Bytes → List Bytes → Result Bool
  unfolding equal check_version scanned has_fields
  verify_parts slot plaintext (p0 ∷ p1 ∷ p2 ∷ p3 ∷ p4 ∷ p5 ∷ []) = do
    guard (is_empty p0 && equal p1 (codes "argon2id")) invalid_hash
    check_version (c.scan_version p2)
    guard (has_fields (c.scan_params p3) (c.decode p4) (c.decode p5)) invalid_hash
    guard slot busy
    scanned (c.scan_params p3) (c.decode p4) (c.decode p5) plaintext
  verify_parts slot plaintext _ = err invalid_hash

  -- `VerifyPassword`; `slot` says whether one of the verification slots came free in time
  unfoldable pub verify_password : Bool → Bytes → Bytes → Result Bool
  unfolding verify_parts split
  verify_password slot plaintext encoded = verify_parts slot plaintext (split b'$' encoded)

  split-hash_password :
      (salt plaintext : Bytes)
      → IsCodec c
      → split b'$' (hash_password salt plaintext)
        ≡ []
          ∷ codes "argon2id"
          ∷ version_text
          ∷ params_text
          ∷ c.encode salt
          ∷ c.encode (derive plaintext salt)
          ∷ []
  unfolding hash_password split
  split-hash_password salt plaintext h =
      rw (split-lacks b'$' (c.encode salt) (c.encode (derive plaintext salt)) (h.encode-lacks salt))
        (rw
          (split-last b'$' (c.encode (derive plaintext salt))
            (h.encode-lacks (derive plaintext salt)))
          refl)

  -- Where the libraries behave as documented, and with a free slot, checking a password against a
  -- hash of some password compares the keys that argon2id derives from the two under the hash's
  -- own salt; so the right password is accepted.
  pub verify_password-hash_password :
      (salt plaintext guess : Bytes)
      → IsCodec c
      → verify_password true guess (hash_password salt plaintext)
        ≡ ok (
            equal
              (c.id_key plaintext salt argon_time argon_memory_kib argon_parallelism argon_key_len)
              (c.id_key guess salt argon_time argon_memory_kib argon_parallelism argon_key_len))
  unfolding verify_password verify_parts derive
  verify_password-hash_password salt plaintext guess h =
      let key = derive plaintext salt in
      rw (split-hash_password salt plaintext h) (
        rw (h.version_scans, verify_password)
          (rw h.params_scan (
            rw (h.decode-encode salt) (
              rw (h.decode-encode key) (
                rw
                  (h.key_length plaintext salt argon_time argon_memory_kib argon_parallelism
                    argon_key_len)
                  refl)))))
