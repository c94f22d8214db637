-- ===== src/Argo/Keys.antt =====
-- internal/argo/argo.go: the identity of an object, and maps from identities.
use dotvirt.Argo.{Fields, as_string}
use dotvirt.Prelude.{
  Bool, true, Option, none, some, List, [], arith, Bytes, bytes, bytes_eq, bytes_eq_iff,
  if◌then◌else◌, ◌≡◌, ◌↔◌, ◌&&◌, ◌∷◌,
}

pub record ResKey : Type 0 where
  pub group : Bytes
  pub kind : Bytes
  pub namespace : Bytes
  pub name : Bytes

unfoldable pub same_key : ResKey → ResKey → Bool
same_key a b =
    bytes_eq a.group b.group
    && (bytes_eq a.kind b.kind && (bytes_eq a.namespace b.namespace && bytes_eq a.name b.name))

unfoldable pub key_of : Fields → ResKey
key_of res = record {
  group = as_string res (bytes "group");
  kind = as_string res (bytes "kind");
  namespace = as_string res (bytes "namespace");
  name = as_string res (bytes "name");
}

pub same_key_iff : (a b : ResKey) → (same_key a b ≡ true) ↔ (a ≡ b)
unfolding same_key
same_key_iff a b = ground (
  arith,
  bytes_eq_iff a.group b.group,
  bytes_eq_iff a.kind b.kind,
  bytes_eq_iff a.namespace b.namespace,
  bytes_eq_iff a.name b.name,
)

module _ {V : Type 0} where
  unfoldable pub find_key : ResKey → List (ResKey × V) → Option V
  find_key k [] = none
  find_key k ((j, v) ∷ m) = if same_key j k then some v else find_key k m

  unfoldable pub drop_key : ResKey → List (ResKey × V) → List (ResKey × V)
  drop_key k [] = []
  drop_key k ((j, v) ∷ m) = let rest = drop_key k m in if same_key j k then rest else (j, v) ∷ rest

  unfoldable pub set_key : ResKey → V → List (ResKey × V) → List (ResKey × V)
  set_key k v m = (k, v) ∷ drop_key k m

  find_key-drop_key :
      (k j : ResKey) (m : List (ResKey × V))
      → find_key j (drop_key k m) ≡ (if same_key k j then none else find_key j m)
  unfolding find_key drop_key
  find_key-drop_key k j [] = ground arith
  find_key-drop_key k j ((i, v) ∷ m) =
      ground (arith, find_key-drop_key k j m, same_key_iff i k, same_key_iff i j, same_key_iff k j)

  pub find_key-set_key :
      (k j : ResKey) (v : V) (m : List (ResKey × V))
      → find_key j (set_key k v m) ≡ (if same_key k j then some v else find_key j m)
  unfolding find_key set_key
  find_key-set_key k j v m = ground (arith, find_key-drop_key k j m)
