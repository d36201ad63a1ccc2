-- ===== src/Kube/Laws.antt =====
-- What follows from the laws of a server for any object, named by the call or not.
use mathlib.Core.Path.{subst}
use mathlib.Core.Option.{some-injective, some-ne-none}
use release_tests_ginkgo.Prelude.{
  ◌≡◌, ◌≢◌, refl, sym, ◌∙◌, ◌⊎◌, inl, inr, false, some, none, [], ◌∷◌,
}
use release_tests_ginkgo.Kube.{Key, key_eq, namespace_of, Manifest, Object, Server}

module _ {W : Type 0} (server : Server W) (k j : Key) (w : W) where
  -- A creation leaves every object that is there as it is.
  pub create_stored :
      (m : Manifest) (o : Object)
      → server.stored k w ≡ some o
      → server.stored k (server.create j m w).1 ≡ some o
  create_stored m o h = elim (key_eq.dec k j) [
    | yes same ↦
        subst (λ i. server.stored i (server.create j m w).1 ≡ some o) (sym same)
          (server.create_keeps j m w o (subst (λ i. server.stored i w ≡ some o) same h))
    | no differ ↦ server.create_elsewhere j k m w differ ∙ h
  ]

-- A namespace lies in none.
namespace_of-namespace : (k n : Key) → namespace_of k ≡ some n → namespace_of n ≡ none
unfolding namespace_of
namespace_of-namespace (cluster ∷ resource ∷ (c ∷ cs) ∷ name ∷ []) n h =
    subst (λ m. namespace_of m ≡ none) (some-injective _ n h) refl
namespace_of-namespace [] n h = absurd (some-ne-none n (sym h))
namespace_of-namespace (a ∷ []) n h = absurd (some-ne-none n (sym h))
namespace_of-namespace (a ∷ b ∷ []) n h = absurd (some-ne-none n (sym h))
namespace_of-namespace (a ∷ b ∷ [] ∷ rest) n h = absurd (some-ne-none n (sym h))
namespace_of-namespace (a ∷ b ∷ (c ∷ cs) ∷ []) n h = absurd (some-ne-none n (sym h))
namespace_of-namespace (a ∷ b ∷ (c ∷ cs) ∷ d ∷ x ∷ rest) n h = absurd (some-ne-none n (sym h))

-- Where an object lies: it is cluster-wide, or in a namespace that nobody deletes.
pub data Home (A : Object → Type 0) (k : Key) : Type 0 where
  cluster_wide : namespace_of k ≡ none → Home A k
  inside : (n : Key) (p : Object) → namespace_of k ≡ some n → A p → p.deleting ≡ false → Home A k

module _ {W : Type 0} (server : Server W) {A : Object → Type 0} (k : Key) (o : Object) where
  -- The namespace is there.
  abbrev pub Housed : Home A k → W → Type 0
  Housed (cluster_wide e) w = Unit
  Housed (inside n p e a d) w = server.stored n w ≡ some p

  -- The object is there, and so is its namespace.
  abbrev pub Present : Home A k → W → Type 0
  Present home w = (server.stored k w ≡ some o) × Housed home w

  -- Another object than this one and than its namespace.
  abbrev pub Apart : Home A k → Key → Type 0
  Apart (cluster_wide e) j = k ≢ j
  Apart (inside n p e a d) j = (k ≢ j) × (n ≢ j)

  pub pause-Present :
      (home : Home A k) (w : W)
      → o.deleting ≡ false
      → Present home w
      → Present home (server.pause w)
  pause-Present (cluster_wide e) w alive (h, t) =
      (server.pause_keeps k w o h alive (λ n i. absurd (some-ne-none n (sym i ∙ e))), tt)
  pause-Present (inside n p e a d) w alive (h, g) = (
    server.pause_keeps k w o h alive (λ m i.
        let same : n ≡ m = some-injective n m (sym e ∙ i) in
        (p, subst (λ x. server.stored x w ≡ some p) same g, d)),
    server.pause_keeps n w p g d
        (λ m i. absurd (some-ne-none m (sym i ∙ namespace_of-namespace k n e))),
  )

  pub stored-Present :
      (home : Home A k) (v w : W)
      → ((i : Key) → server.stored i v ≡ server.stored i w)
      → Present home w
      → Present home v
  stored-Present (cluster_wide e) v w f (h, t) = (f k ∙ h, tt)
  stored-Present (inside n p e a d) v w f (h, g) = (f k ∙ h, f n ∙ g)

  pub create-Present :
      (home : Home A k) (j : Key) (m : Manifest) (w : W)
      → Present home w
      → Present home (server.create j m w).1
  create-Present (cluster_wide e) j m w (h, t) = (create_stored server k j w m o h, tt)
  create-Present (inside n p e a d) j m w (h, g) =
      (create_stored server k j w m o h, create_stored server n j w m p g)

  pub update-Present :
      (home : Home A k) (j : Key) (c : Object) (w : W)
      → Apart home j
      → Present home w
      → Present home (server.update j c w).1
  update-Present (cluster_wide e) j c w f (h, t) = (server.update_elsewhere j k c w f ∙ h, tt)
  update-Present (inside n p e a d) j c w (f, f') (h, g) =
      (server.update_elsewhere j k c w f ∙ h, server.update_elsewhere j n c w f' ∙ g)

  pub delete-Present :
      (home : Home A k) (j : Key) (w : W)
      → Apart home j
      → Present home w
      → Present home (server.delete j w).1
  delete-Present (cluster_wide e) j w f (h, t) =
      (server.delete_elsewhere j k w f (λ i. some-ne-none j (sym i ∙ e)) ∙ h, tt)
  delete-Present (inside n p e a d) j w (f, f') (h, g) = (
    server.delete_elsewhere j k w f (λ i. f' (some-injective n j (sym e ∙ i))) ∙ h,
    server.delete_elsewhere j n w f' (λ i. some-ne-none j (sym i ∙ namespace_of-namespace k n e))
        ∙ g,
  )

  -- What tells the object and its namespace from another one tells them apart.
  pub apart :
      (home : Home A k) (j : Key) (w : W)
      → ((i : Key) (q : Object) → (q ≡ o) ⊎ A q → server.stored i w ≡ some q → i ≢ j)
      → Present home w
      → Apart home j
  apart (cluster_wide e) j w f (h, t) = f k o (inl refl) h
  apart (inside n p e a d) j w f (h, g) = (f k o (inl refl) h, f n p (inr a) g)
