-- ===== src/Dns/CustomHosts/Resolver.antt =====
-- The resolver's file: which settings are stored, and what is read back.
use router_docker.Prelude.{
  ◌≡◌, ◌≢◌, ◌↔◌, refl, ◌⊎◌, inl, inr, true, false, ◌||◌, Option, List, [], ◌∷◌, is_empty, All,
  Error, ok, err, guard, for_each, for_each-All, validation, invalid_mode, arith, Result-cases,
  Bool-cases, >>-eq-ok, guard-eq-ok,
}
use router_docker.Text.{Bytes, codes, equal, is_some}
use router_docker.Text.Laws.{equal_iff}
use router_docker.Net.Address.{parse_ip}
use router_docker.Document
use router_docker.Document.{Codec}
use router_docker.Document.Laws.{IsReliable}
use router_docker.Dns.CustomHosts.{
  ResolverConfig, with_mode, check_servers, check_resolver, get_resolver_config,
  set_resolver_config,
}

-- A setting that may be stored: the mode is `auto`, or it is `custom` and there are servers, each of
-- them an IP address.
abbrev pub IsResolver : ResolverConfig → Type 0
IsResolver c =
    (c.mode ≡ codes "auto")
    ⊎ ((c.mode ≡ codes "custom")
        × (c.servers ≢ [])
        × All (λ s. is_some (parse_ip s) ≡ true) c.servers)

address_of :
    (s : Bytes) → guard (is_some (parse_ip s)) validation ≡ ok tt → is_some (parse_ip s) ≡ true
address_of s h = guard-eq-ok (is_some (parse_ip s)) validation h

addresses_of :
    (ss : List Bytes)
    → All (λ s. guard (is_some (parse_ip s)) validation ≡ ok tt) ss
    → All (λ s. is_some (parse_ip s) ≡ true) ss
addresses_of [] a = tt
addresses_of (s ∷ ss) a = (address_of s a.0, addresses_of ss a.1)

addresses_pass :
    (ss : List Bytes)
    → All (λ s. is_some (parse_ip s) ≡ true) ss
    → for_each (λ s. guard (is_some (parse_ip s)) validation) ss ≡ ok tt
addresses_pass [] a = refl
addresses_pass (s ∷ ss) a = ground (arith, a.0, addresses_pass ss a.1)

check_servers_iff :
    (ss : List Bytes)
    → (check_servers ss ≡ ok tt) ↔ ((ss ≢ []) × All (λ s. is_some (parse_ip s) ≡ true) ss)
unfolding check_servers
check_servers_iff [] = ((λ h. cc), (λ h. absurd (h.0 refl)))
check_servers_iff (s ∷ ss) = (
  (λ h. (
    (λ e. cc),
    addresses_of (s ∷ ss) (for_each-All (λ x. guard (is_some (parse_ip x)) validation) (s ∷ ss) h),
  )),
  (λ h. addresses_pass (s ∷ ss) h.1),
)

-- the check accepts these settings and no other
check_resolver_iff : (c : ResolverConfig) → (check_resolver c ≡ ok tt) ↔ IsResolver c
unfolding check_resolver
check_resolver_iff c =
    let is_auto = equal_iff c.mode (codes "auto") in
    let is_custom = equal_iff c.mode (codes "custom") in
    let servers = check_servers_iff c.servers in
    (
      (λ h. elim (Bool-cases (equal c.mode (codes "custom"))) [
        | inl custom ↦ inr (
          is_custom.0 custom,
          (servers.0 (ground (arith, h, custom))).0,
          (servers.0 (ground (arith, h, custom))).1,
        )
        | inr other ↦ inl (is_auto.0 (ground (arith, h, other)))
      ]),
      (λ v. elim v [
        | inl auto ↦ rw auto (unfold equal in refl)
        | inr (custom, some_server, addresses) ↦
            rw custom (unfold equal in servers.1 (some_server, addresses))
      ]),
    )

a_mode :
    (m : Bytes) → (equal m (codes "auto") || equal m (codes "custom")) ≡ true → is_empty m ≡ false
unfolding equal
a_mode [] h = cc
a_mode (c ∷ m) h = refl

with_mode-checked : (c : ResolverConfig) → check_resolver c ≡ ok tt → with_mode c ≡ c
unfolding check_resolver with_mode
with_mode-checked c v =
    let (known, _) =
      >>-eq-ok (guard (equal c.mode (codes "auto") || equal c.mode (codes "custom")) invalid_mode) _
        v in
    simp
      (a_mode c.mode (
        guard-eq-ok (equal c.mode (codes "auto") || equal c.mode (codes "custom")) invalid_mode
          known))
      refl

module _ {C : Type 0} (b : Codec ResolverConfig C) where
  -- Where reads and writes work and yaml.v3 reads back what it writes: `SetResolverConfig` accepts a
  -- setting of mode `auto`, and one of mode `custom` with one server at least where every server is
  -- an IP address, and `GetResolverConfig` then answers that setting from the file that it left;
  -- it refuses every other setting, and leaves the file as it was.
  pub get_resolver_config-set_resolver_config :
      (cfg : ResolverConfig) (s : Option C)
      → IsReliable b
      → (IsResolver cfg
          × ((set_resolver_config b cfg s).0 ≡ ok tt)
          × ((get_resolver_config b (set_resolver_config b cfg s).1).0 ≡ ok cfg))
        ⊎ ((IsResolver cfg → ⊥) × ((x : Error) × (set_resolver_config b cfg s ≡ (err x, s))))
  unfolding get_resolver_config set_resolver_config Document.read_from
  get_resolver_config-set_resolver_config cfg s r = elim (Result-cases (check_resolver cfg)) [
    | inl v ↦ inl (
      (check_resolver_iff cfg).0 v,
      simp (v, r.writes) refl,
      simp (v, r.writes, r.reads, r.codec.unmarshal-marshal cfg, with_mode-checked cfg v) refl,
    )
    | inr (x, v) ↦ inr ((λ h. cc (v, (check_resolver_iff cfg).1 h)), simp v (x, refl))
  ]
