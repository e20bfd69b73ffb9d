-- ===== src/Policy/References/Sound.antt =====
-- `validateReferences` accepts exactly the policies that meet the rules of its messages.
use astradns_operator.Base.{
  inl, inr, ap, err, Result-cases, Bool, ℕ, suc, String, true, false, ◌==◌, some, List, [], ◌∷◌,
  any, ok, >>=-eq-ok, ◌≡◌, ◌≢◌, ◌↔◌, ◌⊎◌, refl, sym, ◌∙◌, subst, eq_iff, All, All-imp, All-zip,
  arith,
}
use astradns_operator.Text.{trim_space}
use astradns_operator.Platform.{Platform}
use astradns_operator.Kube.{Fetched, is_fetched}
use astradns_operator.Api.{Pool, Profile}
use astradns_operator.Policy.{Policy}
use astradns_operator.Policy.References.{
  RefNameError, validate_ref_name, check_namespace, check_namespaces, validate_references,
}

-- No two texts of the list are equal.
abbrev pub IsDistinct : List String → Type 0
IsDistinct [] = Unit
IsDistinct (x ∷ xs) = All (λ y. x ≢ y) xs × IsDistinct xs

any-eq_iff : (x : String) (xs : List String) → (any (λ s. s == x) xs ≡ false) ↔ All (λ y. x ≢ y) xs
unfolding any
any-eq_iff x [] = ground arith
any-eq_iff x (y ∷ ys) = ground (arith, eq_iff y x, any-eq_iff x ys)

abbrev IsApart : List String → List String → Type 0
IsApart seen xs = All (λ x. All (λ y. x ≢ y) seen) xs

IsApart-nil : (xs : List String) → IsApart [] xs
IsApart-nil [] = tt
IsApart-nil (x ∷ xs) = (tt, IsApart-nil xs)

module _ (p : Platform) where
  -- The rules on a name of the selector.
  pub record IsNamespaceName (name : String) : Type 0 where
    pub unspaced : name ≡ trim_space name
    pub filled : name ≢ ""
    pub label : p.is_label name ≡ true

  -- The rules on the name of a reference.
  pub record IsRefName (name : String) : Type 0 where
    pub unspaced : name ≡ trim_space name
    pub filled : name ≢ ""
    pub subdomain : p.is_subdomain name ≡ true

  -- What a policy needs to pass, where the two functions look an object up by namespace and name.
  pub record IsReferable {E : Type 0} (get_pool : String → String → Fetched E Pool)
      (get_profile : String → String → Fetched E Profile) (policy : Policy) : Type 0 where
    pub some_namespace : policy.selector_namespaces ≢ []
    pub each : All IsNamespaceName policy.selector_namespaces
    pub distinct : IsDistinct policy.selector_namespaces
    pub pool_name : IsRefName policy.upstream_pool_ref
    pub pool : is_fetched (get_pool policy.namespace policy.upstream_pool_ref) ≡ true
    pub profile :
        (policy.cache_profile_ref ≡ "")
        ⊎ (IsRefName policy.cache_profile_ref
            × (is_fetched (get_profile policy.namespace policy.cache_profile_ref) ≡ true))

  validate_ref_name_sound :
      (raw name : String) (required : Bool)
      → validate_ref_name p raw required ≡ ok name
      → (name ≡ raw) × ((IsRefName raw) ⊎ ((required ≡ false) × (raw ≡ "")))
  unfolding validate_ref_name
  validate_ref_name_sound raw name required h =
      ground (arith, eq_iff raw (trim_space raw), eq_iff (trim_space raw) "", eq_iff raw "")

  validate_ref_name_cases :
      (raw : String) (required : Bool)
      → ((validate_ref_name p raw required ≡ ok raw)
          × ((IsRefName raw) ⊎ ((required ≡ false) × (raw ≡ ""))))
        ⊎ ((e : RefNameError) × (validate_ref_name p raw required ≡ err e))
  validate_ref_name_cases raw required = elim (Result-cases (validate_ref_name p raw required)) [
    | inl (name, h) ↦
        let (same, rules) = validate_ref_name_sound raw name required h in
        inl (h ∙ ap (λ n. ok n) same, rules)
    | inr failure ↦ inr failure
  ]

  validate_ref_name_complete :
      (raw : String) (required : Bool) → IsRefName raw → validate_ref_name p raw required ≡ ok raw
  unfolding validate_ref_name
  validate_ref_name_complete raw required r =
      ground (arith, eq_iff raw (trim_space raw), eq_iff (trim_space raw) "")

  validate_ref_name_empty : validate_ref_name p "" false ≡ ok ""
  unfolding validate_ref_name trim_space
  validate_ref_name_empty = refl

  module _ {E : Type 0} where
    check_namespace_sound :
        (i : ℕ) (seen : List String) (name trimmed : String)
        → check_namespace p {E = E} i seen name ≡ ok trimmed
        → IsNamespaceName name × (trimmed ≡ name) × All (λ y. name ≢ y) seen
    unfolding check_namespace
    check_namespace_sound i seen name trimmed h = ground (
      arith,
      eq_iff name (trim_space name),
      eq_iff (trim_space name) "",
      eq_iff name "",
      any-eq_iff (trim_space name) seen,
      any-eq_iff name seen,
    )

    check_namespace_complete :
        (i : ℕ) (seen : List String) (name : String)
        → IsNamespaceName name
        → All (λ y. name ≢ y) seen
        → check_namespace p {E = E} i seen name ≡ ok name
    unfolding check_namespace
    check_namespace_complete i seen name n a =
        let fresh = (any-eq_iff name seen).1 a in
        ground (
          arith,
          eq_iff name (trim_space name),
          eq_iff (trim_space name) "",
          fresh,
          subst (λ t. any (λ s. s == t) seen ≡ false) n.unspaced fresh,
          subst (λ t. p.is_label t ≡ true) n.unspaced n.label,
        )

    check_namespaces_sound :
        (i : ℕ) (seen names : List String)
        → check_namespaces p {E = E} i seen names ≡ ok tt
        → All IsNamespaceName names × IsDistinct names × IsApart seen names
    unfolding check_namespaces
    check_namespaces_sound i seen [] h = (tt, tt, tt)
    check_namespaces_sound i seen (x ∷ xs) h =
        let (trimmed, checked, rest) = >>=-eq-ok (check_namespace p i seen x) _ h in
        let (valid, same, fresh) = check_namespace_sound i seen x trimmed checked in
        let (vs, ds, apart) = check_namespaces_sound (suc i) (trimmed ∷ seen) xs rest in
        (
          (valid, vs),
          (All-imp xs (λ y a e. a.0 (sym e ∙ sym same)) apart, ds),
          (fresh, All-imp xs (λ y a. a.1) apart),
        )

    check_namespaces_complete :
        (i : ℕ) (seen names : List String)
        → All IsNamespaceName names
        → IsDistinct names
        → IsApart seen names
        → check_namespaces p {E = E} i seen names ≡ ok tt
    unfolding check_namespaces
    check_namespaces_complete i seen [] v d a = refl
    check_namespaces_complete i seen (x ∷ xs) (v, vs) (d, ds) (a, as') =
        rw (check_namespace_complete i seen x v a) (
          check_namespaces_complete (suc i) (x ∷ seen) xs vs ds
            (All-zip _ _ xs (All-imp xs (λ y ne e. ne (sym e)) d) as'))

  module _ {E : Type 0} (get_pool : String → String → Fetched E Pool)
      (get_profile : String → String → Fetched E Profile) where
    -- A policy is accepted exactly when it selects a namespace, its selected names are labels
    -- without outer spaces and distinct, it names a pool by a subdomain without outer spaces that
    -- is found in its namespace, and so a profile or none.
    pub validate_references_iff :
        (policy : Policy)
        → (validate_references p get_pool get_profile (some policy) ≡ ok tt)
          ↔ IsReferable get_pool get_profile policy
    unfolding validate_references
    validate_references_iff policy =
        let names = policy.selector_namespaces in
        let pool = policy.upstream_pool_ref in
        let profile = policy.cache_profile_ref in
        (
          λ h. ground (
            arith,
            check_namespaces_sound {E = E} 0 [] names,
            validate_ref_name_cases pool true,
            validate_ref_name_cases profile false,
            eq_iff profile "",
          ),
          λ r. ground (
            arith,
            check_namespaces_complete {E = E} 0 [] names r.each r.distinct (IsApart-nil names),
            validate_ref_name_complete pool true r.pool_name,
            validate_ref_name_complete profile false,
            validate_ref_name_empty,
            eq_iff profile "",
          ),
        )
