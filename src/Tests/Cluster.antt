-- ===== src/Tests/Cluster.antt =====
-- A cluster of two namespaces, for the tests of the policy controller.
use mathlib.Core.List.Perm
use astradns_operator.Base.{
  String, true, ◌==◌, Option, none, some, List, [], ◌∷◌, Result, ok, err, ◌≡◌, ◌≢◌, refl, sym, ap,
  eq_iff, arith, if◌then◌else◌, Bool-cases, inl, inr, any, All, subst, ◌⊎◌,
}
use astradns_operator.Dict.{Dict}
use astradns_operator.Kube.{Fetched, fetched, absent, broken}
use astradns_operator.Policy.{Policy, Namespace}
use astradns_operator.Policy.Annotations.{policy_entries}
use astradns_operator.Policy.Enforce.{Namespaces, MapRange}
use astradns_operator.Policy.Enforce.Store.{IsStore, HasDistinctNames, has_name}
use astradns_operator.Policy.Reconcile.{PolicyClient}
use astradns_operator.Policy.Reconcile.Laws.{IsPolicyStore}
use astradns_operator.Samples.{main_pool, no_profile, edge}

-- The annotations of the two.
pub record Cluster : Type 0 where
  pub first : Option (Dict String)
  pub second : Option (Dict String)

abbrev pub first_name : String
first_name = "team-a"

abbrev pub second_name : String
second_name = "team-b"

abbrev pub team : String → Option (Dict String) → Namespace
team name annotations = record { name = name; annotations = annotations }

abbrev pub stored : Cluster → String → Option Namespace
stored w n =
    if first_name == n
    then some (team n w.first)
    else if second_name == n
    then some (team n w.second)
    else none

abbrev fetch : Option Namespace → Fetched String Namespace
fetch none = absent
fetch (some x) = fetched x

abbrev write : Namespace → Cluster → Result String (Unit {0}) × Cluster
write x w =
    if first_name == x.name
    then (ok tt, record w { first = x.annotations })
    else if second_name == x.name
    then (ok tt, record w { second = x.annotations })
    else (err "not found", w)

abbrev both : Cluster → List Namespace
both w = team first_name w.first ∷ team second_name w.second ∷ []

abbrev pub namespaces : Namespaces String Cluster
namespaces = record {
  list = λ w. ok (both w);
  get_namespace = λ w n. fetch (stored w n);
  patch = write;
}

apart : first_name ≢ second_name
apart = ground (arith, eq_iff first_name second_name)

fetch-fetched : (o : Option Namespace) (x : Namespace) → fetch o ≡ fetched x → o ≡ some x
fetch-fetched none x h = absurd (ground (arith, h))
fetch-fetched (some y) x h = ap some (cc h)

fetch-absent : (o : Option Namespace) → fetch o ≡ absent → o ≡ none
fetch-absent none h = refl
fetch-absent (some y) h = absurd (ground (arith, h))

pub is_one_of :
    (w : Cluster) (n : String) (x : Namespace)
    → stored w n ≡ some x
    → ((first_name ≡ n) × (team n w.first ≡ x)) ⊎ ((second_name ≡ n) × (team n w.second ≡ x))
is_one_of w n x h = elim (Bool-cases (first_name == n)) [
  | inl same ↦
      let at : stored w n ≡ some (team n w.first) = rw same refl in
      inl (ground (arith, same, eq_iff first_name n), cc (at, h))
  | inr other ↦ elim (Bool-cases (second_name == n)) [
    | inl same ↦
        let at : stored w n ≡ some (team n w.second) = rw (other, same) refl in
        inr (ground (arith, same, eq_iff second_name n), cc (at, h))
    | inr neither ↦ absurd (ground (arith, other, neither, h))
  ]
]

stored-first : (w : Cluster) → stored w first_name ≡ some (team first_name w.first)
stored-first w = refl

stored-second : (w : Cluster) → stored w second_name ≡ some (team second_name w.second)
stored-second w = refl

listed_both : (w : Cluster) (l : List Namespace) → namespaces.list w ≡ ok l → both w ≡ l
listed_both w l h = cc h

pub cluster-IsStore : IsStore namespaces stored
unfolding any
cluster-IsStore = record {
  named = λ w n x h. elim (is_one_of w n x h) [
    | inl (_, at) ↦ ap (λ y. y.name) (sym at)
    | inr (_, at) ↦ ap (λ y. y.name) (sym at)
  ];
  listed = λ w l h.
      subst (λ k. All (λ x. stored w x.name ≡ some x) k) (listed_both w l h) (refl, (refl, tt));
  complete = λ w l n x h there.
      subst (λ k. has_name n k ≡ true) (listed_both w l h)
        (elim (is_one_of w n x there) [
          | inl (at, _) ↦ ground (arith, at, eq_iff first_name n)
          | inr (at, _) ↦ ground (arith, at, eq_iff second_name n)
        ]);
  distinct = λ w l h. subst HasDistinctNames (listed_both w l h) ((apart, tt), (tt, tt));
  found = λ w n x h. fetch-fetched (stored w n) x h;
  missing = λ w n h. fetch-absent (stored w n) h;
  written = λ w x h. elim (Bool-cases (first_name == x.name)) [
    | inl same ↦ ground (arith, same)
    | inr other ↦ elim (Bool-cases (second_name == x.name)) [
      | inl same ↦ ground (arith, same, other)
      | inr neither ↦ absurd (ground (arith, other, neither, h))
    ]
  ];
  others = λ w x n h. ground (
    arith,
    eq_iff first_name x.name,
    eq_iff second_name x.name,
    eq_iff first_name n,
    eq_iff second_name n,
    apart,
  );
}

pub write-passes :
    (x : Namespace) (w : Cluster) (z : Namespace)
    → stored w x.name ≡ some z
    → (namespaces.patch x w).0 ≡ ok tt
write-passes x w z there = elim (is_one_of w x.name z there) [
  | inl (at, _) ↦ ground (arith, at, eq_iff first_name x.name)
  | inr (at, _) ↦ ground (arith, at, eq_iff second_name x.name, Bool-cases (first_name == x.name))
]

fetch_not_broken : (o : Option Namespace) (e : String) → ¬ (fetch o ≡ broken e)
fetch_not_broken none e h = ground (arith, h)
fetch_not_broken (some x) e h = ground (arith, h)

pub reads_not_broken : (w : Cluster) (n e : String) → ¬ (namespaces.get_namespace w n ≡ broken e)
reads_not_broken w n e = fetch_not_broken (stored w n) e

-- The controller's client on the cluster, where there is one policy.
abbrev pub client_of : Policy → PolicyClient String Cluster
client_of policy = record {
  get_policy = λ w namespace name. if policy.name == name then fetched policy else absent;
  get_pool = λ w. main_pool;
  get_profile = λ w. no_profile;
  namespaces = namespaces;
  patch_policy = λ q w. (ok q, w);
  patch_status = λ q status w. (ok tt, w);
}

pub client_of-IsPolicyStore : (policy : Policy) → IsPolicyStore (client_of policy) stored
client_of-IsPolicyStore policy = record {
  namespaces = cluster-IsStore;
  policy_kept = λ q w n. refl;
  status_kept = λ q status w n. refl;
  same_uid = λ p q w h. let alike : p ≡ q = cc h in ap (λ x. x.uid) (sym alike);
}

abbrev pub in_order : MapRange
in_order = record { range = λ keys. keys; range-perm = λ keys. Perm.refl keys }

-- what a policy writes on a namespace without annotations
abbrev pub marked : Policy → Option (Dict String)
marked policy = some (policy_entries policy []).entries

-- The first namespace is edge's, the second has an annotation of its own.
abbrev pub owned : Cluster
owned = record { first = marked edge; second = some (("owner", "b") ∷ []) }
