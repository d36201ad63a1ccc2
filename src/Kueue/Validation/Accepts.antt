-- ===== src/Kueue/Validation/Accepts.antt =====
-- What `validate` accepts.
use release_tests_ginkgo.Prelude.{String, Bool, true, Option, none, some, List, [], ◌∷◌}
use release_tests_ginkgo.Prelude.{
  ◌≡◌, ◌≢◌, ◌↔◌, inl, inr, refl, arith, text_eq, string_eq, Option-cases, sym,
}
use release_tests_ginkgo.Prelude.Texts.{Text}
use release_tests_ginkgo.Prelude.Lists.{All}
use release_tests_ginkgo.Kueue.Validation.{
  Clients, Cluster, Environment, clusters, trim_slash, host_of,
}
use release_tests_ginkgo.Kueue.Validation.{previous, check_hosts, validate}

-- The cluster has a name, and clients with a REST config for this host.
abbrev pub HasHost : Cluster → Text → Type 0
HasHost c raw =
    (c.name ≢ "") × (c.clients ≡ some (record { kube_config = some (record { host = raw }) }))

host_of_named :
    (name : String) (clients : Option Clients) (raw : Text)
    → let c : Cluster = record { name = name; clients = clients } in
      (host_of c ≡ some raw) ↔ HasHost c raw
unfolding host_of
host_of_named name none raw = ground arith
host_of_named name (some k) raw = ground arith

host_of_iff : (c : Cluster) (raw : Text) → (host_of c ≡ some raw) ↔ HasHost c raw
host_of_iff c raw = host_of_named c.name c.clients raw

-- The API servers of the clusters, in their order, each without a slash at its end.
abbrev pub Servers : List Cluster → List Text → Type 0
Servers [] [] = Unit
Servers (c ∷ cs) (h ∷ hs) = ((raw : Text) × HasHost c raw × (h ≡ trim_slash raw)) × Servers cs hs
Servers _ _ = ⊥

-- No two texts are equal.
abbrev pub Apart : List Text → Type 0
Apart [] = Unit
Apart (h ∷ hs) = All (λ k. h ≢ k) hs × Apart hs

-- No server is a key of the map.
abbrev Unseen : List (Text × String) → Text → Type 0
Unseen seen h = All (λ p. h ≢ p.0) seen

previous_iff : (h : Text) (seen : List (Text × String)) → (previous h seen ≡ none) ↔ Unseen seen h
unfolding previous
previous_iff h [] = (λ e. tt, λ u. refl)
previous_iff h ((k, name) ∷ seen) = ground (arith, previous_iff h seen)

-- The three conditions on the servers that are left: distinct, and not in the map.
abbrev Free : List Cluster → List (Text × String) → Type 0
Free cs seen = (hs : List Text) × Servers cs hs × Apart hs × All (Unseen seen) hs

All-fresh :
    (t : Text) (name : String) (seen : List (Text × String)) (hs : List Text)
    → All (Unseen ((t, name) ∷ seen)) hs ↔ (All (λ k. t ≢ k) hs × All (Unseen seen) hs)
All-fresh t name seen [] = (λ h. (tt, tt), λ h. tt)
All-fresh t name seen (h ∷ hs) =
    let (go, back) = All-fresh t name seen hs in
    (
      λ ((ne, u), rest). let (apart, unseen) = go rest in ((λ e. ne (sym e), apart), (u, unseen)),
      λ ((ne, apart), (u, unseen)). ((λ e. ne (sym e), u), back (apart, unseen)),
    )

All-Unseen : (hs : List Text) → All (Unseen []) hs
All-Unseen [] = tt
All-Unseen (h ∷ hs) = (tt, All-Unseen hs)

check_hosts_iff :
    (cs : List Cluster) (seen : List (Text × String)) → (check_hosts cs seen ≡ none) ↔ Free cs seen
unfolding check_hosts
check_hosts_iff [] seen = (λ h. ([], tt, tt, tt), λ h. refl)
check_hosts_iff (c ∷ cs) seen = (
  λ h. elim (Option-cases (host_of c)) [
    | inl incomplete ↦ absurd (ground arith)
    | inr (raw, named) ↦
        let t : Text = trim_slash raw in
        elim (Option-cases (previous t seen)) [
          | inr (name, taken) ↦ absurd (ground arith)
          | inl fresh ↦
              let rest : check_hosts cs ((t, c.name) ∷ seen) ≡ none = ground arith in
              let (hs, servers, apart, unseen) = (check_hosts_iff cs ((t, c.name) ∷ seen)).0 rest in
              let (others, old) = (All-fresh t c.name seen hs).0 unseen in
              (
                t ∷ hs,
                ((raw, (host_of_iff c raw).0 named, refl), servers),
                (others, apart),
                ((previous_iff t seen).0 fresh, old),
              )
        ]
  ],
  λ (hs, servers, apart, unseen).
      distinct (λ t. (check_hosts_iff cs ((t, c.name) ∷ seen)).1) hs servers apart unseen,
)
  where
    distinct :
        ((t : Text) → Free cs ((t, c.name) ∷ seen) → check_hosts cs ((t, c.name) ∷ seen) ≡ none)
        → (hs : List Text) → Servers (c ∷ cs) hs
        → Apart hs
        → All (Unseen seen) hs
        → check_hosts (c ∷ cs) seen ≡ none
    distinct more [] servers apart unseen = absurd servers
    distinct more (h ∷ hs) ((raw, named, trimmed), servers) (others, apart) (free, old) =
        let rest = more h (hs, servers, apart, (All-fresh h c.name seen hs).1 (others, old)) in
        ground (arith, (host_of_iff c raw).1 named, (previous_iff h seen).1 free, rest)

-- `validate` accepts exactly the environments with a valid prefix and a spoke whose clusters all
-- have a name, clients and a REST config, and whose API servers, without a slash at the end, are
-- distinct.
pub validate_iff :
    (is_dns_label : Text → Bool) (e : Environment)
    → (validate is_dns_label e ≡ none) ↔ (
        (is_dns_label e.prefix ≡ true)
        × (e.spokes ≢ [])
        × (hs : List Text) × Servers (clusters e) hs
        × Apart hs)
unfolding validate
validate_iff is_dns_label e = (
  λ h.
      let checked : check_hosts (clusters e) [] ≡ none = ground arith in
      let (hs, servers, apart, _) = (check_hosts_iff (clusters e) []).0 checked in
      (ground arith, ground arith, hs, servers, apart),
  λ (valid, inhabited, hs, servers, apart).
      ground (arith, (check_hosts_iff (clusters e) []).1 (hs, servers, apart, All-Unseen hs)),
)
