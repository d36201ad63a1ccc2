-- ===== src/Kueue/Resources/Permits.antt =====
-- What `spokeAPIPeers` of pkg/tektonkueue/resources.go returns, in terms of the answers of net, net/url
-- and strconv.
use mathlib.Core.Path.{subst}
use mathlib.Core.Option.{some-ne-none, some-injective}
use release_tests_ginkgo.Prelude.{
  nat_eq, text_eq, ℕ, String, true, false, ◌≡◌, ◌≢◌, ◌↔◌, ◌⊎◌, inl, inr, refl, sym, ap, ◌∙◌, Option,
  none, some, List, [], ◌∷◌, ◌++◌, if◌then◌else◌, Bool-cases, Option-cases, arith,
}
use release_tests_ginkgo.Prelude.Texts.{Text, codes, null}
use release_tests_ginkgo.Prelude.Lists.{All, All-map, Any, Any-map}
use release_tests_ginkgo.Kueue.Resources.Peers.{
  Ip, Net, Endpoint, PeerError, invalid_endpoint, unresolved, Peers, Found, found, failed, cidr,
  port_of, addresses_of, endpoint_of, spoke_api_peers,
}
use release_tests_ginkgo.Kueue.Resources.Allowed.{
  In, ServesCidr, ServesPort, Resolved, collect_peers-Collected,
}

-- An address range of one address.
abbrev pub RangeOf : Text → Ip → Type 0
RangeOf c ip =
    ((ip.is_v4 ≡ true) × (ip.address ++ codes "/" ++ codes "32" ≡ c))
    ⊎ ((ip.is_v4 ≡ false) × (ip.address ++ codes "/" ++ codes "128" ≡ c))

range_iff : (c : Text) (ip : Ip) → (cidr ip ≡ c) ↔ RangeOf c ip
unfolding cidr
range_iff c ip = elim (Bool-cases ip.is_v4) [
  | inl v4 ↦
      let same : cidr ip ≡ ip.address ++ codes "/" ++ codes "32" =
        ap (λ b. ip.address ++ codes "/" ++ (if b then codes "32" else codes "128")) v4 in
      (
        λ h. inl (v4, sym same ∙ h),
        λ h. elim h [
          | inl (t, e) ↦ same ∙ e
          | inr (t, e) ↦ let both : true ≡ false = sym v4 ∙ t in absurd (ground arith)
        ],
      )
  | inr v6 ↦
      let same : cidr ip ≡ ip.address ++ codes "/" ++ codes "128" =
        ap (λ b. ip.address ++ codes "/" ++ (if b then codes "32" else codes "128")) v6 in
      (
        λ h. inr (v6, sym same ∙ h),
        λ h. elim h [
          | inl (t, e) ↦ let both : true ≡ false = sym t ∙ v6 in absurd (ground arith)
          | inr (t, e) ↦ same ∙ e
        ],
      )
]

found-injective : {A : Type 0} {a b : A} → found a ≡ found b → a ≡ b
found-injective h = cc

failed-found : {A : Type 0} {e : PeerError} {a : A} → failed e ≡ found a → ⊥
failed-found h = ground arith

abbrev looked : String → Option Ip → Option (List Ip) → Found (List Ip)
looked spoke x y = elim x [
  | some ip ↦ found (ip ∷ [])
  | none ↦ elim y [ some ips ↦ found ips | none ↦ failed (unresolved spoke) ]
]

looked_iff :
    (spoke : String) (x : Option Ip) (y : Option (List Ip)) (ips : List Ip)
    → (looked spoke x y ≡ found ips)
      ↔ (((ip : Ip) × (x ≡ some ip) × (ip ∷ [] ≡ ips)) ⊎ ((x ≡ none) × (y ≡ some ips)))
looked_iff spoke (some ip) y ips = (
  λ h. inl (ip, refl, found-injective h),
  λ h. elim h [
    | inl (q, e, same) ↦ ap (λ u. found (u ∷ [])) (some-injective ip q e) ∙ ap found same
    | inr (e, l) ↦ absurd (some-ne-none ip e)
  ],
)
looked_iff spoke none none ips = (
  λ h. absurd (failed-found h),
  λ h. elim h [
    | inl (q, e, same) ↦ absurd (some-ne-none q (sym e))
    | inr (e, l) ↦ absurd (some-ne-none ips (sym l))
  ],
)
looked_iff spoke none (some qs) ips = (
  λ h. inr (refl, ap some (found-injective h)),
  λ h. elim h [
    | inl (q, e, same) ↦ absurd (some-ne-none q (sym e))
    | inr (e, l) ↦ ap found (some-injective qs ips l)
  ],
)

abbrev paired : Found ℕ → Found (List Ip) → Found (ℕ × List Ip)
paired x y = elim x [
  | failed e ↦ failed e
  | found n ↦ elim y [ failed e ↦ failed e | found ips ↦ found (n, ips) ]
]

paired_iff :
    (x : Found ℕ) (y : Found (List Ip)) (n : ℕ) (ips : List Ip)
    → (paired x y ≡ found (n, ips)) ↔ ((x ≡ found n) × (y ≡ found ips))
paired_iff (failed e) y n ips = (λ h. absurd (failed-found h), λ h. absurd (failed-found h.0))
paired_iff (found m) (failed e) n ips =
    (λ h. absurd (failed-found h), λ h. absurd (failed-found h.1))
paired_iff (found m) (found qs) n ips = (
  λ h. let same = found-injective h in (ap (λ r. found (r.0)) same, ap (λ r. found (r.1)) same),
  λ (h, g) i. found (found-injective h i, found-injective g i),
)

module _ (net : Net) where
  -- The port of the URL, or the default one of https.
  abbrev pub PortIs : Text → ℕ → Type 0
  PortIs port n = ((port ≡ []) × (n ≡ 443)) ⊎ ((port ≢ []) × (net.atoi port ≡ some n))

  -- The host is an address, or has been looked up.
  abbrev pub AddressesAre : Text → List Ip → Type 0
  AddressesAre hostname ips =
      ((ip : Ip) × (net.parse_ip hostname ≡ some ip) × (ip ∷ [] ≡ ips))
      ⊎ ((net.parse_ip hostname ≡ none) × (net.lookup_ip hostname ≡ some ips))

  abbrev pub Resolves : Endpoint → ℕ → List Ip → Type 0
  Resolves e n ips =
      (hostname : Text) × (port : Text) × (net.parse_url e.host ≡ some (hostname, port))
      × (hostname ≢ [])
      × PortIs port n
      × AddressesAre hostname ips

  port_of_iff :
      (spoke : String) (port : Text) (n : ℕ) → (port_of net spoke port ≡ found n) ↔ PortIs port n
  unfolding port_of
  port_of_iff spoke [] n = (
    λ h. inl (refl, sym (found-injective h)),
    λ h. elim h [ inl (t, e) ↦ ap found (sym e) | inr (f, e) ↦ absurd (f refl) ],
  )
  port_of_iff spoke (c ∷ cs) n = elim (Option-cases (net.atoi (c ∷ cs))) [
    | inl bad ↦ (
      λ h. absurd (failed-found (rw bad at h)),
      λ h. elim h [
        | inl (t, e) ↦ absurd (ground arith)
        | inr (f, e) ↦ absurd (some-ne-none n (sym e ∙ bad))
      ],
    )
    | inr (m, ok) ↦ (
      λ h. inr (λ t. ground arith, ok ∙ ap some (found-injective (rw ok at h))),
      λ h. elim h [ inl (t, e) ↦ absurd (ground arith) | inr (f, e) ↦ rw e refl ],
    )
  ]

  addresses_of_iff :
      (spoke : String) (hostname : Text) (ips : List Ip)
      → (addresses_of net spoke hostname ≡ found ips) ↔ AddressesAre hostname ips
  unfolding addresses_of
  addresses_of_iff spoke hostname ips =
      looked_iff spoke (net.parse_ip hostname) (net.lookup_ip hostname) ips

  abbrev parsed : String → Option (Text × Text) → Found (ℕ × List Ip)
  parsed spoke x = elim x [
    | none ↦ failed (invalid_endpoint spoke)
    | some (hostname, port) ↦
        if null hostname
        then failed (invalid_endpoint spoke)
        else paired (port_of net spoke port) (addresses_of net spoke hostname)
  ]

  parsed_iff :
      (spoke : String) (x : Option (Text × Text)) (n : ℕ) (ips : List Ip)
      → (parsed spoke x ≡ found (n, ips)) ↔ (
          (hostname : Text) × (port : Text) × (x ≡ some (hostname, port))
          × (hostname ≢ [])
          × PortIs port n
          × AddressesAre hostname ips)
  parsed_iff spoke none n ips = (
    λ h. absurd (failed-found h),
    λ (hostname, port, q, full, ports, addresses). absurd (some-ne-none (hostname, port) (sym q)),
  )
  parsed_iff spoke (some ([], port)) n ips = (
    λ h. absurd (failed-found h),
    λ (hostname, p, q, full, ports, addresses).
        absurd (full (ap (λ u. u.0) (sym (some-injective ([], port) (hostname, p) q)))),
  )
  parsed_iff spoke (some (c ∷ cs, port)) n ips =
      let (out, into) =
        paired_iff (port_of net spoke port) (addresses_of net spoke (c ∷ cs)) n ips in
      (
        λ h.
            let (x, y) = out h in
            (
              c ∷ cs,
              port,
              refl,
              (λ t. ground arith),
              (port_of_iff spoke port n).0 x,
              (addresses_of_iff spoke (c ∷ cs) ips).0 y,
            ),
        λ (hostname, p, q, full, ports, addresses).
            let same = some-injective (c ∷ cs, port) (hostname, p) q in
            into (
              (port_of_iff spoke port n).1
                  (subst (λ u. PortIs u n) (sym (ap (λ u. u.1) same)) ports),
              (addresses_of_iff spoke (c ∷ cs) ips).1
                  (subst (λ u. AddressesAre u ips) (sym (ap (λ u. u.0) same)) addresses),
            ),
      )

  endpoint_of_iff :
      (e : Endpoint) (n : ℕ) (ips : List Ip)
      → (endpoint_of net e ≡ found (n, ips)) ↔ Resolves e n ips
  unfolding endpoint_of
  endpoint_of_iff e = parsed_iff e.spoke (net.parse_url e.host)

  -- The spoke is resolved, and `c` is the range of one of its addresses.
  abbrev pub HasRange : Text → Endpoint → Type 0
  HasRange c e = (n : ℕ) × (ips : List Ip) × Resolves e n ips × Any (RangeOf c) ips

  -- The spoke is resolved, and `p` is its port.
  abbrev pub HasPort : ℕ → Endpoint → Type 0
  HasPort p e = (ips : List Ip) × Resolves e p ips

  -- If `spokeAPIPeers` returns peers, every API endpoint of a spoke was a URL with a host, a port that
  -- could be read, or none, and a host that is an address or could be looked up; the ranges are
  -- exactly those of the addresses of the spokes, of 32 bits for IPv4 and of 128 bits otherwise, and
  -- the ports are exactly those of the URLs, 443 where there is none, before their conversion to
  -- 32 bits.
  pub spoke_api_peers-Resolves :
      (spokes : List Endpoint) (peers : Peers)
      → spoke_api_peers net spokes ≡ found peers
      → ((c : Text) → In c peers.cidrs ↔ Any (HasRange c) spokes)
        × ((p : ℕ) → In p peers.ports ↔ Any (HasPort p) spokes)
        × All (λ e. (n : ℕ) × (ips : List Ip) × Resolves e n ips) spokes
  unfolding spoke_api_peers
  spoke_api_peers-Resolves spokes peers h =
      let (cidrs, ports, all) =
        collect_peers-Collected net spokes (record { cidrs = []; ports = [] }) peers h in
      (
        λ c. (
          λ m.
              Any-map (ServesCidr net c) (HasRange c) spokes
                (λ e (n, ips, q, x). (
                  n,
                  ips,
                  (endpoint_of_iff e n ips).0 q,
                  Any-map (λ ip. cidr ip ≡ c) (RangeOf c) ips (λ ip. (range_iff c ip).0) x,
                ))
                (elim ((cidrs c).0 m) [ inl g ↦ absurd g | inr g ↦ g ]),
          λ m. (cidrs c).1 (
              inr (
                Any-map (HasRange c) (ServesCidr net c) spokes
                  (λ e (n, ips, q, x). (
                    n,
                    ips,
                    (endpoint_of_iff e n ips).1 q,
                    Any-map (RangeOf c) (λ ip. cidr ip ≡ c) ips (λ ip. (range_iff c ip).1) x,
                  ))
                  m)),
        ),
        λ p. (
          λ m.
              Any-map (ServesPort net p) (HasPort p) spokes
                (λ e (ips, q). (ips, (endpoint_of_iff e p ips).0 q))
                (elim ((ports p).0 m) [ inl g ↦ absurd g | inr g ↦ g ]),
          λ m. (ports p).1 (
              inr (
                Any-map (HasPort p) (ServesPort net p) spokes
                  (λ e (ips, q). (ips, (endpoint_of_iff e p ips).1 q)) m)),
        ),
        All-map (Resolved net) (λ e. (n : ℕ) × (ips : List Ip) × Resolves e n ips) spokes
            (λ e (n, ips, q). (n, ips, (endpoint_of_iff e n ips).0 q)) all,
      )
