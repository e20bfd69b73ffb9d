-- ===== src/Tests/Policies.antt =====
-- The policies, their references and the namespaces that they mark.
use astradns_operator.Base.{
  some, none, [], ◌∷◌, ok, ◌≡◌, ◌≢◌, ◌↔◌, refl, any, String, Result, ℕ, ◌+◌, if◌then◌else◌,
}
use astradns_operator.Text.{trim_space, is_space}
use astradns_operator.Dict.{get}
use astradns_operator.Policy.{Policy, Namespace}
use astradns_operator.Policy.Annotations.{
  check_owner, policy_entries, remove_annotations, entries_of,
}
use astradns_operator.Policy.Annotations.Keys.{is_managed}
use astradns_operator.Policy.Annotations.Ownership.{patched, remove_annotations-releases}
use astradns_operator.Policy.References.{
  check_namespaces, check_namespace, validate_ref_name, validate_references,
}
use astradns_operator.Policy.References.Sound.{IsReferable, validate_references_iff}
use astradns_operator.Samples.{platform, edge, main_pool, no_profile}

references_accepted : validate_references platform main_pool no_profile (some edge) ≡ ok tt
unfolding validate_references check_namespaces check_namespace trim_space is_space any
    validate_ref_name
references_accepted = refl

validate_references_iff_example :
    (validate_references platform main_pool no_profile (some edge) ≡ ok tt)
    ↔ IsReferable platform main_pool no_profile edge
validate_references_iff_example = validate_references_iff platform main_pool no_profile edge

abbrev team : Namespace
team = record { name = "team-a"; annotations = some (("owner", "a") ∷ []) }

-- A patch that succeeds and is counted.
abbrev counted : Namespace → ℕ → Result String (Unit {0}) × ℕ
counted namespace n = (ok tt, n + 1)

edge_has_uid : edge.uid ≢ ""
edge_has_uid e = cc

remove_annotations-releases_example :
    (released : Namespace) × (let m = (policy_entries edge (entries_of team)).entries in
      remove_annotations counted (record team { annotations = some m }) 0
      ≡ patched counted released 0)
    × ((k : String)
        → get (entries_of released) k ≡ (if is_managed k then none else get (entries_of team) k))
    × ((other : Policy) → check_owner other released ≡ ok tt)
remove_annotations-releases_example = remove_annotations-releases counted edge team 0 edge_has_uid
