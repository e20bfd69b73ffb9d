-- ===== src/Policy/Watch/Requests.antt =====
-- Which requests a change makes.
use mathlib.Core.Logic.{∥∥₁_elim, ∥∥₁_prop}
use mathlib.Core.List.{Mem, mem-cons, mem-cons_self, mem-cons_of_mem, not-mem-nil, Mem-prop}
use mathlib.Core.Logic.Or
use mathlib.Core.Bool.{Bool-set}
use astradns_operator.Base.{
  String, Bool, true, ◌==◌, any, map, List, [], ◌∷◌, Result, ok, ◌≡◌, ◌↔◌, refl, Bool-cases, inl,
  inr, arith, eq_iff, sym, subst, ◌∙◌, ap,
}
use astradns_operator.Text.{trim_space}
use astradns_operator.Kube.{Request}
use astradns_operator.Policy.{Policy}
use astradns_operator.Policy.Watch.{
  request_of, requests_of, on_list, map_upstream_pool_to_policies, map_cache_profile_to_policies,
  map_namespace_to_policies, names_pool, names_profile, names_namespace,
}

-- One of the policies has the property and the request's name.
abbrev pub IsAsked : (Policy → Type 0) → List Policy → Request → Type 0
IsAsked P policies r =
    ∥ ((policy : Policy) × Mem policy policies × P policy × (r ≡ request_of policy)) ∥₁

pub mem-requests_of :
    (test : Policy → Bool) (policies : List Policy) (policy : Policy)
    → Mem policy policies
    → test policy ≡ true
    → Mem (request_of policy) (requests_of test policies)
unfolding requests_of
mem-requests_of test [] policy h taken = absurd (not-mem-nil h)
mem-requests_of test (x ∷ xs) policy h taken =
    Or.elim Mem-prop (mem-cons.0 h)
      (λ e.
        let first : request_of policy ≡ request_of x = ap request_of e in
        rw (ap test (sym e) ∙ taken)
          (subst (λ r. Mem (request_of policy) (r ∷ requests_of test xs)) first mem-cons_self))
      (λ i.
        let rest = mem-requests_of test xs policy i taken in
        elim (Bool-cases (test x)) [
          | inr left ↦ rw left rest
          | inl here ↦ rw here (mem-cons_of_mem _ rest)
        ])

module _ (P : Policy → Type 0) (test : Policy → Bool)
    (decides : (policy : Policy) → (test policy ≡ true) ↔ P policy) where
  requests_of-IsAsked :
      (policies : List Policy) (r : Request)
      → Mem r (requests_of test policies)
      → IsAsked P policies r
  unfolding requests_of
  requests_of-IsAsked [] r h = absurd (not-mem-nil h)
  requests_of-IsAsked (policy ∷ policies) r h =
      let later = λ (i : Mem r (requests_of test policies)).
        ∥∥₁_elim (requests_of-IsAsked policies r i) ∥∥₁_prop
          (λ x. ∣ (x.0, mem-cons_of_mem _ x.1, x.2, x.3) ∣₁) in
      elim (Bool-cases (test policy)) [
        | inr left ↦ later (subst (Mem r) (rw left refl) h)
        | inl taken ↦
            Or.elim ∥∥₁_prop (mem-cons.0 (subst (Mem r) (rw taken refl) h))
              (λ e. ∣ (policy, mem-cons_self, (decides policy).0 taken, e) ∣₁) later
      ]

  requests_of_iff :
      (policies : List Policy) (r : Request)
      → Mem r (requests_of test policies) ↔ IsAsked P policies r
  requests_of_iff policies r = (
    requests_of-IsAsked policies r,
    λ asked. ∥∥₁_elim asked Mem-prop (λ x.
        subst (λ q. Mem q (requests_of test policies)) (sym x.3)
          (mem-requests_of test policies x.0 x.1 ((decides x.0).1 x.2))),
  )

any_trimmed_iff :
    (name : String) (l : List String)
    → (any (λ n. trim_space n == name) l ≡ true) ↔ Mem name (map trim_space l)
unfolding any
any_trimmed_iff name [] = (λ h. absurd (ground (arith, h)), λ h. absurd (not-mem-nil h))
any_trimmed_iff name (x ∷ xs) =
    let (to, from) = any_trimmed_iff name xs in
    (
      λ h. elim (Bool-cases (trim_space x == name)) [
        | inl here ↦
            let at : trim_space x ≡ name = ground (arith, here, eq_iff (trim_space x) name) in
            subst (λ n. Mem n (trim_space x ∷ map trim_space xs)) at mem-cons_self
        | inr other ↦ mem-cons_of_mem _ (to (ground (arith, other, h)))
      ],
      λ h.
          Or.elim (Bool-set _ _) (mem-cons.0 h) (λ e. ground (arith, e, eq_iff (trim_space x) name))
            (λ i. ground (arith, from i)),
    )

-- Where the list call returns policies, a change of a pool asks exactly for the policies whose
-- trimmed pool reference is its name, a change of a profile exactly for those whose trimmed profile
-- reference is its name, and a change of a namespace exactly for those whose selector lists its name,
-- trimmed.
pub map_to_policies_iff :
    {E : Type 0} (list : String → Result E (List Policy)) (namespace name : String)
    (policies : List Policy) (r : Request)
    → list namespace ≡ ok policies
    → (Mem r (map_upstream_pool_to_policies list namespace name)
        ↔ IsAsked (λ policy. trim_space policy.upstream_pool_ref ≡ name) policies r)
      × (Mem r (map_cache_profile_to_policies list namespace name)
          ↔ IsAsked (λ policy. trim_space policy.cache_profile_ref ≡ name) policies r)
      × (Mem r (map_namespace_to_policies (list namespace) name)
          ↔ IsAsked (λ policy. Mem name (map trim_space policy.selector_namespaces)) policies r)
unfolding map_upstream_pool_to_policies map_cache_profile_to_policies map_namespace_to_policies
    names_pool names_profile names_namespace
map_to_policies_iff list namespace name policies r listing =
    let asks =
      λ (P : Policy → Type 0) (test : Policy → Bool)
          (decides : (p : Policy) → (test p ≡ true) ↔ P p).
        subst (λ l. Mem r (on_list test l) ↔ IsAsked P policies r) (sym listing)
          (requests_of_iff P test decides policies r) in
    (
      asks _ (names_pool name) (λ policy. eq_iff (trim_space policy.upstream_pool_ref) name),
      asks _ (names_profile name) (λ policy. eq_iff (trim_space policy.cache_profile_ref) name),
      asks _ (names_namespace name) (λ policy. any_trimmed_iff name policy.selector_namespaces),
    )
