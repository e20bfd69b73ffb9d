-- ===== src/Tests/Settles.antt =====
-- A policy that is enforced on a cluster of two namespaces, and the requests of the watches.
use mathlib.Core.List.{Mem}
use astradns_operator.Base.{
  inl, inr, String, true, ◌&&◌, none, some, List, [], ◌∷◌, map, Result, ok, ◌≡◌, ◌↔◌, refl, subst,
  if◌then◌else◌, any,
}
use astradns_operator.Text.{trim_space, is_space}
use astradns_operator.Dict.{get, put, remove}
use astradns_operator.Kube.{Request}
use astradns_operator.Policy.{Policy, Namespace}
use astradns_operator.Policy.Annotations.{read, entries_of, owner_uid_annotation, policy_entries}
use astradns_operator.Policy.Annotations.Keys.{is_managed}
use astradns_operator.Policy.Annotations.Wanted.{wanted_entry}
use astradns_operator.Policy.Enforce.{is_managed_by, enforce_policy}
use astradns_operator.Policy.Enforce.Apply.{selects}
use astradns_operator.Policy.References.{
  check_namespaces, check_namespace, validate_ref_name, validate_references,
}
use astradns_operator.Policy.References.Sound.{IsReferable, validate_references_iff}
use astradns_operator.Policy.Reconcile.{policy_finalizer, with_finalizer, set_status, reconcile}
use astradns_operator.Policy.Enforce.Succeeds.{IsOpen}
use astradns_operator.Policy.Reconcile.Succeeds.{IsSmooth, distinct_names, reconcile-succeeds}
use astradns_operator.Base.Members.{sum_by}
use astradns_operator.Policy.Enforce.Settled.{counted}
use astradns_operator.Policy.Watch.{
  map_upstream_pool_to_policies, map_cache_profile_to_policies, map_namespace_to_policies,
}
use astradns_operator.Policy.Watch.Requests.{IsAsked, map_to_policies_iff}
use astradns_operator.Samples.{platform, edge, rival, main_pool, no_profile}
use astradns_operator.Tests.Cluster.{
  marked, owned, is_one_of, write-passes, reads_not_broken, stored, namespaces, client_of,
  client_of-IsPolicyStore, in_order, team,
}

-- A policy that has its finalizer.
abbrev pub settled : Policy
settled = record edge { finalizers = policy_finalizer ∷ [] }

settled_accepted : validate_references platform main_pool no_profile (some settled) ≡ ok tt
unfolding validate_references check_namespaces check_namespace trim_space is_space any
    validate_ref_name
settled_accepted = refl

pub settled-IsReferable : IsReferable platform main_pool no_profile settled
settled-IsReferable =
    (validate_references_iff platform main_pool no_profile settled).0 settled_accepted

pub settled_keeps_finalizer : with_finalizer (client_of settled) settled owned ≡ (ok settled, owned)
unfolding with_finalizer any
settled_keeps_finalizer = refl

edge_owns : read (entries_of (team "team-a" (marked edge))) owner_uid_annotation ≡ "u1"
unfolding policy_entries get put remove trim_space is_space
edge_owns = refl

second_is_free : read (entries_of (team "team-b" owned.second)) owner_uid_annotation ≡ ""
unfolding get read
second_is_free = refl

settled_smooth : IsSmooth (client_of settled) stored platform settled owned
settled_smooth = record {
  valid = settled-IsReferable;
  listed = team "team-a" owned.first ∷ team "team-b" owned.second ∷ [];
  listing = refl;
  unowned = λ n z selected there. elim (is_one_of owned n z there) [
    | inl (_, at) ↦ subst (IsOpen settled.uid) at (inr edge_owns)
    | inr (_, at) ↦ subst (IsOpen settled.uid) at (inl second_is_free)
  ];
}

reconcile-succeeds_example :
    let run = reconcile (client_of settled) platform in_order "dns" "edge" owned in
    let enforced = enforce_policy namespaces in_order settled owned in
    (run
      ≡ set_status
          (client_of settled)
          settled
          (record {
            is_valid = true;
            reason = "Enforced";
            applied_nodes =
                sum_by (λ n. counted (stored owned n)) (distinct_names settled.selector_namespaces);
          })
          none
          enforced.1)
    × ((n : String) (z : Namespace)
        → stored owned n ≡ some z
        → (y : Namespace) × (stored run.1 n ≡ some y)
          × ((k : String)
              → get (entries_of y) k ≡ (
                  if selects settled n
                  then wanted_entry settled k (get (entries_of z) k)
                  else if is_managed_by settled.uid z && is_managed k
                  then none
                  else get (entries_of z) k)))
reconcile-succeeds_example =
    reconcile-succeeds (client_of settled) stored (client_of-IsPolicyStore settled) platform
      in_order write-passes reads_not_broken "dns" "edge" owned owned settled settled refl refl
      settled_keeps_finalizer settled_smooth

-- The list call on a cluster with the two policies.
abbrev listing : String → Result String (List Policy)
listing namespace = ok (edge ∷ rival ∷ [])

map_to_policies_iff_example :
    let r : Request = record { namespace = "dns"; name = "edge" } in
    let policies = edge ∷ rival ∷ [] in
    (Mem r (map_upstream_pool_to_policies listing "dns" "main")
      ↔ IsAsked (λ policy. trim_space policy.upstream_pool_ref ≡ "main") policies r)
    × (Mem r (map_cache_profile_to_policies listing "dns" "main")
        ↔ IsAsked (λ policy. trim_space policy.cache_profile_ref ≡ "main") policies r)
    × (Mem r (map_namespace_to_policies (listing "dns") "main")
        ↔ IsAsked (λ policy. Mem "main" (map trim_space policy.selector_namespaces)) policies r)
map_to_policies_iff_example =
    map_to_policies_iff listing "dns" "main" (edge ∷ rival ∷ [])
      (record { namespace = "dns"; name = "edge" }) refl
