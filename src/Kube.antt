-- ===== src/Kube.antt =====
-- The API servers of the clusters, which the repository reaches through k8s.io/client-go and does
-- not contain. `Server` is a parameter; what is relied on are its laws: a call changes the object
-- that it names and no other, `Create` never replaces an object, and what `Delete` has accepted is
-- gone or waits for its finalizers. The deletion of a namespace may delete what lies in it, at once or
-- later. The cluster makes some objects by itself (`provided`), such as the ConfigMap of the root CA
-- in a new namespace. Otherwise nobody but the program changes the objects that the laws name.
pub mod Memory
pub mod Retry
pub mod Laws
use release_tests_ginkgo.Prelude.{
  ℕ, String, Bool, true, false, ◌≡◌, ◌≢◌, Option, none, some, List, [], ◌∷◌, refl, Eq,
  text_discrete,
}
use release_tests_ginkgo.Prelude.Texts.{Text, codes}

-- An untyped value of an object: strings, numbers, Booleans, and lists and maps by their entries.
pub data Value : Type 0 where
  text : Text → Value
  number : ℕ → Value
  -- a number below zero, by its distance from zero
  negative : ℕ → Value
  flag : Bool → Value
  empty : Value
  item : Value → Value → Value
  field : String → Value → Value → Value

-- `metadata.labels`
abbrev pub Labels : Type 0
Labels = List (String × Text)

-- Cluster, resource, namespace and name of an object.
abbrev pub Key : Type 0
Key = List Text

unfoldable pub key : String → String → Text → Text → Key
key cluster resource namespace name = codes cluster ∷ codes resource ∷ namespace ∷ name ∷ []

-- The namespace that an object lies in, if it is not cluster-wide.
unfoldable pub namespace_of : Key → Option Key
namespace_of (cluster ∷ resource ∷ (c ∷ cs) ∷ name ∷ []) =
    some (cluster ∷ codes "namespaces" ∷ [] ∷ (c ∷ cs) ∷ [])
namespace_of k = none

key_discrete : Discrete Key
key_discrete = hlevel text_discrete

instance unfoldable pub key_eq : Eq Key
unfolding key_discrete
key_eq = record { dec = key_discrete }

-- What a call of `Create` sends.
pub record Manifest : Type 0 where
  pub labels : Labels
  pub body : Value

-- What a server holds; `deleting` where a deletion timestamp is set.
pub record Object : Type 0 where
  pub labels : Labels
  pub uid : Text
  pub deleting : Bool
  pub body : Value

pub data ApiError : Type 0 where
  not_found : ApiError
  already_exists : ApiError
  conflict : ApiError
  other : String → ApiError

pub data Reply (A : Type 0) : Type 0 where
  reply : A → Reply A
  refused : ApiError → Reply A

-- There is no object, or its deletion has been accepted.
abbrev pub Gone : Option Object → Type 0
Gone none = Unit
Gone (some o) = o.deleting ≡ true

pub record Server (W : Type 0) : Type 0 where
  pub get : Key → W → Reply Object
  pub create : Key → Manifest → W → Reply Object × W
  pub update : Key → Object → W → Reply Object × W
  pub delete : Key → W → Option ApiError × W
  -- What happens between two evaluations of a poll.
  pub pause : W → W
  -- What the server holds, which the program learns only from replies.
  pub stored : Key → W → Option Object
  pub get_reply : (k : Key) (w : W) (o : Object) → get k w ≡ reply o → stored k w ≡ some o
  pub get_missing : (k : Key) (w : W) → get k w ≡ refused not_found → stored k w ≡ none
  pub create_elsewhere :
      (k j : Key) (m : Manifest) (w : W) → j ≢ k → stored j (create k m w).1 ≡ stored j w
  pub create_keeps :
      (k : Key) (m : Manifest) (w : W) (o : Object)
      → stored k w ≡ some o
      → stored k (create k m w).1 ≡ some o
  pub create_labels :
      (k : Key) (m : Manifest) (w : W) (o : Object)
      → stored k w ≡ none
      → stored k (create k m w).1 ≡ some o
      → o.labels ≡ m.labels
  pub update_elsewhere :
      (k j : Key) (o : Object) (w : W) → j ≢ k → stored j (update k o w).1 ≡ stored j w
  pub update_gone :
      (k : Key) (o : Object) (w : W) → Gone (stored k w) → Gone (stored k (update k o w).1)
  pub delete_elsewhere :
      (k j : Key) (w : W) → j ≢ k → namespace_of j ≢ some k → stored j (delete k w).1 ≡ stored j w
  pub delete_accepted : (k : Key) (w : W) → (delete k w).0 ≡ none → Gone (stored k (delete k w).1)
  pub delete_missing :
      (k : Key) (w : W) → (delete k w).0 ≡ some not_found → Gone (stored k (delete k w).1)
  pub delete_gone : (k j : Key) (w : W) → Gone (stored j w) → Gone (stored j (delete k w).1)
  -- an object stays unless it, or the namespace that it lies in, is being deleted
  pub pause_keeps :
      (k : Key) (w : W) (o : Object)
      → stored k w ≡ some o
      → o.deleting ≡ false
      → ((n : Key)
          → namespace_of k ≡ some n
          → (p : Object) × (stored n w ≡ some p) × (p.deleting ≡ false))
      → stored k (pause w) ≡ some o
  -- the objects that the cluster makes by itself
  pub provided : Key → Bool
  pub pause_gone :
      (k : Key) (w : W) → provided k ≡ false → Gone (stored k w) → Gone (stored k (pause w))
