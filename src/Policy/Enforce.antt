-- ===== src/Policy/Enforce.antt =====
-- `enforcePolicy`, `clearPolicyEnforcement` and `listManagedPolicyNamespaces`.
pub mod Store
pub mod Removal
pub mod Isolation
pub mod Steps
pub mod Apply
pub mod Succeeds
pub mod Settled
pub mod Stable
use mathlib.Core.List.{Perm}
use astradns_operator.Base.{
  ℕ, ◌+◌, String, Bool, true, false, not, ◌&&◌, ◌==◌, Option, none, some, List, [], ◌∷◌, any, map,
  Result, ok, err, map_err, ◌>>=◌, if◌then◌else◌,
}
use astradns_operator.Text.{trim_space}
use astradns_operator.Dict.{Dict}
use astradns_operator.Kube.{Fetched, fetched, absent, broken}
use astradns_operator.Policy.{Policy, Namespace}
use astradns_operator.Policy.Annotations.{
  UpdateError, owner_uid_annotation, read, update_annotations, remove_annotations,
}

-- The client's calls on namespaces, by name.
pub record Namespaces (E W : Type 0) : Type 0 where
  pub list : W → Result E (List Namespace)
  pub get_namespace : W → String → Fetched E Namespace
  pub patch : Namespace → W → Result E (Unit {0}) × W

-- `range` over a map: each key once, in an order that is not specified.
pub record MapRange : Type 0 where
  pub range : List String → List String
  pub range-perm : (keys : List String) → Perm (range keys) keys

-- `selectedNamespaces`: the keys of the map, each once.
unfoldable pub add_key : String → List String → List String
add_key key keys = if any (λ k. k == key) keys then keys else key ∷ keys

unfoldable pub selected_namespaces : List String → List String
unfolding add_key
selected_namespaces [] = []
selected_namespaces (namespace ∷ namespaces) =
    add_key (trim_space namespace) (selected_namespaces namespaces)

-- whether `listManagedPolicyNamespaces` takes a namespace
unfoldable pub is_managed_by : String → Namespace → Bool
unfolding read
is_managed_by uid namespace = elim namespace.annotations [
  | none ↦ false
  | some annotations ↦ read annotations owner_uid_annotation == uid
]

-- its loop
unfoldable pub managed_of : String → List Namespace → List Namespace
managed_of uid [] = []
managed_of uid (namespace ∷ namespaces) =
    let rest = managed_of uid namespaces in
    if is_managed_by uid namespace then namespace ∷ rest else rest

pub data EnforceError (E : Type 0) : Type 0 where
  list_failed : E → EnforceError E
  get_failed : String → E → EnforceError E
  update_failed : UpdateError E → EnforceError E

-- `if err != nil { return 0, err }`: the rest of the function, from the world that the call leaves
abbrev pub then_on :
    {E F W A B : Type 0} → Result E A × W → (E → F) → (A → W → Result F B × W) → Result F B × W
then_on (ok a, w) wrap rest = rest a w
then_on (err e, w) wrap rest = (err (wrap e), w)

module _ {E W : Type 0} (client : Namespaces E W) where
  -- `listManagedPolicyNamespaces`
  unfoldable pub list_managed : String → W → Result (EnforceError E) (List Namespace)
  unfolding managed_of
  list_managed uid w = elim (client.list w) [
    | ok namespaces ↦ ok (managed_of uid namespaces)
    | err e ↦ err (list_failed e)
  ]

  -- the loop over the managed namespaces; those that the test keeps are passed over
  unfoldable pub remove_each :
      (String → Bool) → List Namespace → W → Result (EnforceError E) (Unit {0}) × W
  remove_each keep [] w = (ok tt, w)
  remove_each keep (namespace ∷ namespaces) w =
      then_on
        (if keep namespace.name then (ok tt, w) else remove_annotations client.patch namespace w)
        update_failed (λ _. remove_each keep namespaces)

  -- one round of the loop over the selected namespaces: by how much the count grows
  unfoldable pub apply_to : Policy → String → W → Result (EnforceError E) ℕ × W
  apply_to policy name w = elim (client.get_namespace w name) [
    | absent ↦ (ok 0, w)
    | broken e ↦ (err (get_failed name e), w)
    | fetched namespace ↦
        then_on (update_annotations client.patch policy namespace w) update_failed
          (λ _ w'. (ok 1, w'))
  ]

  unfoldable pub apply_each : Policy → List String → ℕ → W → Result (EnforceError E) ℕ × W
  unfolding apply_to
  apply_each policy [] applied w = (ok applied, w)
  apply_each policy (name ∷ names) applied w =
      then_on (apply_to policy name w) (λ e. e) (λ n. apply_each policy names (applied + n))

  -- `enforcePolicy`
  unfoldable pub enforce_policy : MapRange → Policy → W → Result (EnforceError E) ℕ × W
  unfolding selected_namespaces list_managed remove_each apply_each
  enforce_policy order policy w =
      let selected = selected_namespaces policy.selector_namespaces in
      then_on (list_managed policy.uid w, w) (λ e. e)
        (λ managed w₁.
          then_on (remove_each (λ name. any (λ k. k == name) selected) managed w₁) (λ e. e)
            (λ _ w₂. apply_each policy (order.range selected) 0 w₂))

  -- `clearPolicyEnforcement`
  unfoldable pub clear_enforcement : Policy → W → Result (EnforceError E) (Unit {0}) × W
  unfolding list_managed remove_each
  clear_enforcement policy w =
      then_on (list_managed policy.uid w, w) (λ e. e) (remove_each (λ _. false))
