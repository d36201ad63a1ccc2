-- ===== src/Kueue/Resources/Peers.antt =====
-- `spokeAPIPeers` of pkg/tektonkueue/resources.go: the endpoints that the egress policy of the hub
-- allows. The maps that it fills are lists without repetition, in the order of the insertions; the
-- program reads them in an unspecified order.
use release_tests_ginkgo.Prelude.{
  ℕ, String, Bool, Option, none, some, List, [], ◌∷◌, ◌++◌, if◌then◌else◌, elem, nat_eq, text_eq,
  Eq,
}
use release_tests_ginkgo.Prelude.Texts.{Text, codes, null}

-- `net.IP`: its text, and whether `To4` is not nil.
pub record Ip : Type 0 where
  pub address : Text
  pub is_v4 : Bool

-- The functions of net, net/url and strconv that the program calls. Nothing stands for an error.
pub record Net : Type 0 where
  -- `url.Parse`, with the `Hostname()` and the `Port()` of the result
  pub parse_url : Text → Option (Text × Text)
  pub atoi : Text → Option ℕ
  pub parse_ip : Text → Option Ip
  pub lookup_ip : Text → Option (List Ip)

-- A spoke: its name, and `Clients.KubeConfig.Host`.
pub record Endpoint : Type 0 where
  pub spoke : String
  pub host : Text

pub data PeerError : Type 0 where
  invalid_endpoint : String → PeerError
  invalid_port : String → PeerError
  unresolved : String → PeerError

pub data Found (A : Type 0) : Type 0 where
  found : A → Found A
  failed : PeerError → Found A

-- The keys of `cidrs` and of `ports`.
pub record Peers : Type 0 where
  pub cidrs : List Text
  pub ports : List ℕ

-- `set[x] = true`
abbrev pub add : {A : Type 0} ⦃e : Eq A⦄ → A → List A → List A
add x xs = if elem x xs then xs else xs ++ (x ∷ [])

unfoldable pub cidr : Ip → Text
cidr ip = ip.address ++ codes "/" ++ (if ip.is_v4 then codes "32" else codes "128")

unfoldable pub add_cidrs : List Ip → List Text → List Text
add_cidrs [] cidrs = cidrs
add_cidrs (ip ∷ ips) cidrs = add_cidrs ips (add (cidr ip) cidrs)

module _ (net : Net) where
  unfoldable pub port_of : String → Text → Found ℕ
  port_of spoke port =
      if null port
      then found 443
      else elim (net.atoi port) [ some n ↦ found n | none ↦ failed (invalid_port spoke) ]

  unfoldable pub addresses_of : String → Text → Found (List Ip)
  addresses_of spoke hostname = elim (net.parse_ip hostname) [
    | some ip ↦ found (ip ∷ [])
    | none ↦ elim (net.lookup_ip hostname) [
      | some ips ↦ found ips
      | none ↦ failed (unresolved spoke)
    ]
  ]

  -- What a spoke gives: its port and its addresses.
  unfoldable pub endpoint_of : Endpoint → Found (ℕ × List Ip)
  endpoint_of e = elim (net.parse_url e.host) [
    | none ↦ failed (invalid_endpoint e.spoke)
    | some (hostname, port) ↦
        if null hostname then failed (invalid_endpoint e.spoke) else elim (port_of e.spoke port) [
          | failed x ↦ failed x
          | found n ↦ elim (addresses_of e.spoke hostname) [
            | failed x ↦ failed x
            | found ips ↦ found (n, ips)
          ]
        ]
  ]

  unfoldable pub collect_peers : List Endpoint → Peers → Found Peers
  collect_peers [] peers = found peers
  collect_peers (e ∷ es) peers = elim (endpoint_of e) [
    | failed x ↦ failed x
    | found (n, ips) ↦
        collect_peers es (record { cidrs = add_cidrs ips peers.cidrs; ports = add n peers.ports })
  ]

  unfoldable pub spoke_api_peers : List Endpoint → Found Peers
  spoke_api_peers spokes = collect_peers spokes (record { cidrs = []; ports = [] })
