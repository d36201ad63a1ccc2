-- ===== src/Kueue/Resources/Allowed.antt =====
-- The peers and ports of `spokeAPIPeers` of pkg/tektonkueue/resources.go are those of the spokes.
use mathlib.Core.Path.{subst}
use release_tests_ginkgo.Prelude.{
  ℕ, true, ◌≡◌, ◌≢◌, ◌↔◌, refl, sym, ap, ◌∙◌, List, [], ◌∷◌, ◌++◌, inl, inr, Bool-cases, arith, ◌⊎◌,
  Eq, elem, nat_eq, text_eq,
}
use release_tests_ginkgo.Prelude.Texts.{Text}
use release_tests_ginkgo.Prelude.Lists.{All, Any, Any-append_left, Any-append_right}
use release_tests_ginkgo.Kueue.Resources.Peers.{
  Ip, Net, Endpoint, PeerError, Found, found, failed, Peers, add, cidr, add_cidrs, endpoint_of,
  collect_peers,
}

module _ {A : Type 0} ⦃e : Eq A⦄ (a : A) where
  -- `a` is in the list.
  abbrev pub In : List A → Type 0
  In = Any (λ x. x ≡ a)

  abbrev InOne : A → Type 0
  InOne x = x ≡ a

  elem-In : (xs : List A) → elem a xs ≡ true → In xs
  elem-In [] h = absurd (ground arith)
  elem-In (x ∷ xs) h = elim (e.dec a x) [
    | yes same ↦ inl (sym same)
    | no differ ↦ inr (elem-In xs (ground arith))
  ]

  Any-append : (P : A → Type 0) (xs ys : List A) → Any P (xs ++ ys) → (Any P xs) ⊎ (Any P ys)
  Any-append P [] ys h = inr h
  Any-append P (x ∷ xs) ys (inl h) = inl (inl h)
  Any-append P (x ∷ xs) ys (inr h) = elim (Any-append P xs ys h) [
    | inl g ↦ inl (inr g)
    | inr g ↦ inr g
  ]

  after_last : (x : A) (xs : List A) → In (xs ++ (x ∷ [])) → (In xs) ⊎ (x ≡ a)
  after_last x xs h = elim (Any-append InOne xs (x ∷ []) h) [
    | inl g ↦ inl g
    | inr (inl same) ↦ inr same
    | inr (inr g) ↦ absurd g
  ]

  before_last : (x : A) (xs : List A) → (In xs) ⊎ (x ≡ a) → In (xs ++ (x ∷ []))
  before_last x xs (inl g) = Any-append_left InOne xs (x ∷ []) g
  before_last x xs (inr same) = Any-append_right InOne xs (x ∷ []) (inl same)

  there : (x : A) (xs : List A) → elem x xs ≡ true → (In xs) ⊎ (x ≡ a) → In xs
  there x xs h (inl g) = g
  there x xs h (inr same) = elem-In xs (subst (λ y. elem y xs ≡ true) same h)

  -- `set[x] = true` adds `x` and nothing else.
  add-In : (x : A) (xs : List A) → In (add x xs) ↔ ((In xs) ⊎ (x ≡ a))
  add-In x xs = elim (Bool-cases (elem x xs)) [
    | inl h ↦ rw h (inl, there x xs h)
    | inr h ↦ rw h (after_last x xs, before_last x xs)
  ]

-- The address ranges of `ips` are added.
add_cidrs-In :
    (c : Text) (ips : List Ip) (cs : List Text)
    → In c (add_cidrs ips cs) ↔ ((In c cs) ⊎ (Any (λ ip. cidr ip ≡ c) ips))
unfolding add_cidrs
add_cidrs-In c [] cs = (inl, λ h. elim h [ inl g ↦ g | inr g ↦ absurd g ])
add_cidrs-In c (ip ∷ ips) cs =
    let (out, into) = add_cidrs-In c ips (add (cidr ip) cs) in
    let (split, join) = add-In c (cidr ip) cs in
    (
      λ h. elim (out h) [
        | inl g ↦ elim (split g) [ inl q ↦ inl q | inr q ↦ inr (inl q) ]
        | inr g ↦ inr (inr g)
      ],
      λ h. elim h [
        | inl g ↦ into (inl (join (inl g)))
        | inr (inl g) ↦ into (inl (join (inr g)))
        | inr (inr g) ↦ into (inr g)
      ],
    )

module _ (net : Net) where
  -- The spoke is resolved, and `c` is the range of one of its addresses.
  abbrev pub ServesCidr : Text → Endpoint → Type 0
  ServesCidr c e =
      (n : ℕ) × (ips : List Ip) × (endpoint_of net e ≡ found (n, ips)) × Any (λ ip. cidr ip ≡ c) ips

  -- The spoke is resolved, and `p` is its port.
  abbrev pub ServesPort : ℕ → Endpoint → Type 0
  ServesPort p e = (ips : List Ip) × (endpoint_of net e ≡ found (p, ips))

  abbrev pub Resolved : Endpoint → Type 0
  Resolved e = (n : ℕ) × (ips : List Ip) × (endpoint_of net e ≡ found (n, ips))

  abbrev Collected : List Endpoint → Peers → Peers → Type 0
  Collected es old new =
      ((c : Text) → In c new.cidrs ↔ ((In c old.cidrs) ⊎ (Any (ServesCidr c) es)))
      × ((p : ℕ) → In p new.ports ↔ ((In p old.ports) ⊎ (Any (ServesPort p) es)))
      × All Resolved es

  found_in :
      (e : Endpoint) (a b : ℕ × List Ip)
      → endpoint_of net e ≡ found a
      → endpoint_of net e ≡ found b
      → a ≡ b
  found_in e a b h g = cc

  none_yet : (peers : Peers) → Collected [] peers peers
  none_yet peers = (
    λ c. (inl, λ h. elim h [ inl g ↦ g | inr g ↦ absurd g ]),
    λ p. (inl, λ h. elim h [ inl g ↦ g | inr g ↦ absurd g ]),
    tt,
  )

  -- The endpoint is resolved to `n` and `ips`, which are added first.
  abbrev extended : Peers → ℕ → List Ip → Peers
  extended old n ips = record { cidrs = add_cidrs ips old.cidrs; ports = add n old.ports }

  one_more :
      (e : Endpoint) (es : List Endpoint) (old new : Peers) (n : ℕ) (ips : List Ip)
      → endpoint_of net e ≡ found (n, ips)
      → Collected es (extended old n ips) new
      → Collected (e ∷ es) old new
  one_more e es old new n ips q (cidrs, ports, all) = (
    λ c. (
      λ h. elim ((cidrs c).0 h) [
        | inl g ↦ elim ((add_cidrs-In c ips old.cidrs).0 g) [
          | inl x ↦ inl x
          | inr x ↦ inr (inl (n, ips, q, x))
        ]
        | inr g ↦ inr (inr g)
      ],
      λ h. elim h [
        | inl g ↦ (cidrs c).1 (inl ((add_cidrs-In c ips old.cidrs).1 (inl g)))
        | inr (inl (m, is, r, x)) ↦
            let same : is ≡ ips = ap (λ a. a.1) (found_in e (m, is) (n, ips) r q) in
            (cidrs c).1 (
              inl ((add_cidrs-In c ips old.cidrs).1 (inr (subst (Any (λ ip. cidr ip ≡ c)) same x))))
        | inr (inr g) ↦ (cidrs c).1 (inr g)
      ],
    ),
    λ p. (
      λ h. elim ((ports p).0 h) [
        | inl g ↦ elim ((add-In p n old.ports).0 g) [
          | inl x ↦ inl x
          | inr x ↦ inr (inl (ips, subst (λ m. endpoint_of net e ≡ found (m, ips)) x q))
        ]
        | inr g ↦ inr (inr g)
      ],
      λ h. elim h [
        | inl g ↦ (ports p).1 (inl ((add-In p n old.ports).1 (inl g)))
        | inr (inl (is, r)) ↦
            let same : n ≡ p = ap (λ a. a.0) (found_in e (n, ips) (p, is) q r) in
            (ports p).1 (inl ((add-In p n old.ports).1 (inr same)))
        | inr (inr g) ↦ (ports p).1 (inr g)
      ],
    ),
    ((n, ips, q), all),
  )

  Found-cases :
      {A : Type 0} (x : Found A) → ((e : PeerError) × (x ≡ failed e)) ⊎ ((a : A) × (x ≡ found a))
  Found-cases (failed e) = inl (e, refl)
  Found-cases (found a) = inr (a, refl)

  failed-found : {A : Type 0} (e : PeerError) (a : A) → failed e ≢ found a
  failed-found e a h = absurd (ground arith)

  found-injective : {A : Type 0} (a b : A) → found a ≡ found b → a ≡ b
  found-injective a b h = cc

  collect_peers-failed :
      (e : Endpoint) (es : List Endpoint) (old : Peers) (x : PeerError)
      → endpoint_of net e ≡ failed x
      → collect_peers net (e ∷ es) old ≡ failed x
  unfolding collect_peers
  collect_peers-failed e es old x q = rw (q, collect_peers) refl

  collect_peers-found :
      (e : Endpoint) (es : List Endpoint) (old : Peers) (n : ℕ) (ips : List Ip)
      → endpoint_of net e ≡ found (n, ips)
      → collect_peers net (e ∷ es) old ≡ collect_peers net es (extended old n ips)
  unfolding collect_peers
  collect_peers-found e es old n ips q = rw (q, collect_peers) refl

  pub collect_peers-Collected :
      (es : List Endpoint) (old new : Peers)
      → collect_peers net es old ≡ found new
      → Collected es old new
  unfolding collect_peers
  collect_peers-Collected [] old new h =
      subst (Collected [] old) (found-injective old new h) (none_yet old)
  collect_peers-Collected (e ∷ es) old new h = elim (Found-cases (endpoint_of net e)) [
    | inl (x, q) ↦ absurd (failed-found x new (sym (collect_peers-failed e es old x q) ∙ h))
    | inr ((n, ips), q) ↦ one_more e es old new n ips q (
        collect_peers-Collected es (extended old n ips) new
          (sym (collect_peers-found e es old n ips q) ∙ h))
  ]
