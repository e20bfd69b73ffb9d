-- ===== src/Policy/Watch/Complete.antt =====
-- What a policy's run depends on is watched.
use mathlib.Core.List.{Mem}
use astradns_operator.Base.{
  String, Bool, true, false, ◌&&◌, ◌==◌, Option, some, List, Result, ok, ◌≡◌, refl, sym, ap, subst,
  eq_iff, arith, Bool-cases, Result-cases, inl, inr,
}
use astradns_operator.Text.{trim_space}
use astradns_operator.Platform.{Platform}
use astradns_operator.Api.{Pool, Profile}
use astradns_operator.Kube.{
  Fetched, Change, pool_changed, profile_changed, policy_changed, namespace_changed,
}
use astradns_operator.Policy.{Policy, Namespace}
use astradns_operator.Policy.Enforce.Apply.{selects}
use astradns_operator.Policy.References.{validate_ref_name, validate_references}
use astradns_operator.Policy.Watch.{
  request_of, on_list, map_upstream_pool_to_policies, map_cache_profile_to_policies,
  map_namespace_to_policies, names_pool, names_profile, names_namespace, requests_on,
}
use astradns_operator.Policy.Watch.Requests.{mem-requests_of}

-- What runs for policies read: the pools, the profiles and the namespaces.
pub record Objects (E : Type 0) : Type 0 where
  pub pools : String → String → Fetched E Pool
  pub profiles : String → String → Fetched E Profile
  pub namespaces : String → Option Namespace

-- The two differ in the object of a change at most.
pub data Differ {E : Type 0} (a b : Objects E) : Change → Type 0 where
  of_policy : (n m : String) → a ≡ b → Differ a b (policy_changed n m)
  of_pool :
      (n m : String)
      → a.profiles ≡ b.profiles
      → a.namespaces ≡ b.namespaces
      → ((i j : String) → (i == n && j == m) ≡ false → a.pools i j ≡ b.pools i j)
      → Differ a b (pool_changed n m)
  of_profile :
      (n m : String)
      → a.pools ≡ b.pools
      → a.namespaces ≡ b.namespaces
      → ((i j : String) → (i == n && j == m) ≡ false → a.profiles i j ≡ b.profiles i j)
      → Differ a b (profile_changed n m)
  of_namespace :
      (m : String)
      → a.pools ≡ b.pools
      → a.profiles ≡ b.profiles
      → ((j : String) → (j == m) ≡ false → a.namespaces j ≡ b.namespaces j)
      → Differ a b (namespace_changed m)

module _ (p : Platform) where
  ref_name_trimmed :
      (raw name : String) (required : Bool)
      → validate_ref_name p raw required ≡ ok name
      → name ≡ trim_space raw
  unfolding validate_ref_name
  ref_name_trimmed raw name required h = ground (arith, h, eq_iff (trim_space raw) "")

  -- The validation looks one pool and one profile up, by the trimmed names.
  validate_references-ext :
      {E : Type 0} (a b : Objects E) (policy : Policy)
      → a.pools policy.namespace (trim_space policy.upstream_pool_ref)
        ≡ b.pools policy.namespace (trim_space policy.upstream_pool_ref)
      → a.profiles policy.namespace (trim_space policy.cache_profile_ref)
        ≡ b.profiles policy.namespace (trim_space policy.cache_profile_ref)
      → validate_references p a.pools a.profiles (some policy)
        ≡ validate_references p b.pools b.profiles (some policy)
  unfolding validate_references
  validate_references-ext a b policy pools profiles =
      elim (Result-cases (validate_ref_name p policy.upstream_pool_ref true)) [
        | inr (e, bad) ↦ rw bad refl
        | inl (name, good) ↦
            let at = ref_name_trimmed policy.upstream_pool_ref name true good in
            elim (Result-cases (validate_ref_name p policy.cache_profile_ref false)) [
              | inr (e, bad) ↦ rw (good, bad, at, pools) refl
              | inl (other, fine) ↦
                  let there = ref_name_trimmed policy.cache_profile_ref other false fine in
                  rw (good, fine, at, there, pools, profiles) refl
            ]
      ]

  -- Two lookups that agree but at one namespace and name agree where those are not the two.
  agree_elsewhere :
      {A : Type 0} (f g : String → String → A) (n m i j : String)
      → ((i j : String) → (i == n && j == m) ≡ false → f i j ≡ g i j)
      → ¬ ((i ≡ n) × (j ≡ m))
      → f i j ≡ g i j
  agree_elsewhere f g n m i j agree away = agree i j (elim (Bool-cases (i == n && j == m)) [
    | inr other ↦ other
    | inl here ↦ absurd (away (ground (arith, here, eq_iff i n), ground (arith, here, eq_iff j m)))
  ])

  module _ {E : Type 0} (list : String → Result E (List Policy)) (policy : Policy)
      (policies : List Policy) (listing : list policy.namespace ≡ ok policies)
      (member : Mem policy policies) where
    asked :
        (test : Policy → Bool) (n : String)
        → policy.namespace ≡ n
        → test policy ≡ true
        → Mem (request_of policy) (on_list test (list n))
    asked test n at taken =
        subst (λ i. Mem (request_of policy) (on_list test (list i))) at
          (subst (λ r. Mem (request_of policy) (on_list test r)) (sym listing)
            (mem-requests_of test policies policy member taken))

    -- Where the list calls return the policy, and its namespace's and the cluster's policies: a change
    -- of an object that makes no request for the policy changes neither the result of validating the
    -- policy's references nor any namespace that its selector names.
    pub unasked-unchanged :
        (everything : List Policy) (change : Change) (a b : Objects E)
        → Mem policy everything
        → Differ a b change
        → ¬ Mem (request_of policy) (requests_on list (ok everything) change)
        → (validate_references p a.pools a.profiles (some policy)
            ≡ validate_references p b.pools b.profiles (some policy))
          × ((n : String) → selects policy n ≡ true → a.namespaces n ≡ b.namespaces n)
    unfolding requests_on map_upstream_pool_to_policies map_cache_profile_to_policies
        map_namespace_to_policies names_pool names_profile names_namespace
    unasked-unchanged everything _ a b there (Differ.of_policy n m same) unasked = (
      ap (λ (o : Objects E). validate_references p o.pools o.profiles (some policy)) same,
      λ j _. ap (λ (o : Objects E). o.namespaces j) same,
    )
    unasked-unchanged everything _ a b there (Differ.of_pool n m profiles namespaces agree)
          unasked =
        let reference = trim_space policy.upstream_pool_ref in
        (
          validate_references-ext a b policy
              (agree_elsewhere a.pools b.pools n m policy.namespace reference agree
                (λ (at, name). unasked (asked (names_pool m) n at ((eq_iff reference m).1 name))))
              (ap (λ f. f policy.namespace (trim_space policy.cache_profile_ref)) profiles),
          λ j _. ap (λ f. f j) namespaces,
        )
    unasked-unchanged everything _ a b there (Differ.of_profile n m pools namespaces agree)
          unasked =
        let reference = trim_space policy.cache_profile_ref in
        (
          validate_references-ext a b policy
              (ap (λ f. f policy.namespace (trim_space policy.upstream_pool_ref)) pools)
              (agree_elsewhere a.profiles b.profiles n m policy.namespace reference agree
                (λ (at, name).
                  unasked (asked (names_profile m) n at ((eq_iff reference m).1 name)))),
          λ j _. ap (λ f. f j) namespaces,
        )
    unasked-unchanged everything _ a b there (Differ.of_namespace m pools profiles agree) unasked =
        (
          validate_references-ext a b policy
              (ap (λ f. f policy.namespace (trim_space policy.upstream_pool_ref)) pools)
              (ap (λ f. f policy.namespace (trim_space policy.cache_profile_ref)) profiles),
          λ j selected. agree j (elim (Bool-cases (j == m)) [
            | inr other ↦ other
            | inl here ↦
                let at : j ≡ m = (eq_iff j m).0 here in
                absurd (
                  unasked (
                    mem-requests_of (names_namespace m) everything policy there
                      (subst (λ i. selects policy i ≡ true) at selected)))
          ]),
        )
