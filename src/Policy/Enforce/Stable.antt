-- ===== src/Policy/Enforce/Stable.antt =====
-- A second enforcement of a policy finds nothing to do.
use astradns_operator.Base.{
  ℕ, ◌+◌, String, Bool, true, ◌==◌, Option, some, List, [], ◌∷◌, any, ok, ◌≡◌, ◌≢◌, refl, sym, ◌∙◌,
  ap, subst, All, All-imp, eq_iff, eq_refl, arith, Bool-cases, Result-cases, Option-cases, inl, inr,
}
use astradns_operator.Base.Members.{any-perm, sum_by, sum_by-perm, sum_by-ext}
use astradns_operator.Kube.{broken, Fetched-cases}
use astradns_operator.Dict.{get}
use astradns_operator.Policy.{Policy, Namespace}
use astradns_operator.Policy.Annotations.{owner_uid_annotation, read, entries_of}
use astradns_operator.Policy.Annotations.Ownership.{update_annotations-rests}
use astradns_operator.Policy.Enforce.{
  Namespaces, MapRange, is_managed_by, managed_of, selected_namespaces, then_on, list_managed,
  remove_each, apply_to, apply_each, enforce_policy,
}
use astradns_operator.Policy.Enforce.Store.{IsStore}
use astradns_operator.Policy.Enforce.Removal.{
  then_on-ok, remove_managed-Leaves, remove_managed-none,
}
use astradns_operator.Policy.Enforce.Apply.{
  selects, any-selected_namespaces, enforce_policy-applies,
}
use astradns_operator.Policy.Enforce.Settled.{counted, SettledAt, apply_each-SettledAt}

owner_of_managed :
    (uid : String) (x : Namespace)
    → is_managed_by uid x ≡ true
    → read (entries_of x) owner_uid_annotation ≡ uid
unfolding is_managed_by read
owner_of_managed uid x h = ground (arith, h, eq_iff (read (entries_of x) owner_uid_annotation) uid)

managed_of_owner :
    (uid : String) (x : Namespace)
    → uid ≢ ""
    → read (entries_of x) owner_uid_annotation ≡ uid
    → is_managed_by uid x ≡ true
unfolding is_managed_by read get
managed_of_owner uid x blank h = elim (Option-cases x.annotations) [
  | inl unset ↦ ground (arith, unset)
  | inr (m, set) ↦ ground (arith, set, eq_iff uid uid)
]

managed_of_sound :
    (Q : Namespace → Type 0) (uid : String) (l : List Namespace)
    → All (λ x. is_managed_by uid x ≡ true → Q x) l
    → All Q (managed_of uid l)
unfolding managed_of
managed_of_sound Q uid [] h = tt
managed_of_sound Q uid (x ∷ xs) (p, ps) = elim (Bool-cases (is_managed_by uid x)) [
  | inl managed ↦ rw managed (p managed, managed_of_sound Q uid xs ps)
  | inr left ↦ rw left (managed_of_sound Q uid xs ps)
]

module _ {E W : Type 0} (client : Namespaces E W) (stored : W → String → Option Namespace)
    (store : IsStore client stored) (policy : Policy) where
  -- The removals and the loop of an enforcement that succeeds.
  enforce_policy-runs :
      (order : MapRange) (w : W) (c : ℕ)
      → (enforce_policy client order policy w).0 ≡ ok c
      → let selected = selected_namespaces policy.selector_namespaces in
        (w₂ : W) × ((n : String) → counted (stored w₂ n) ≡ counted (stored w n))
        × ((apply_each client policy (order.range selected) 0 w₂).0 ≡ ok c)
        × (enforce_policy client order policy w
            ≡ apply_each client policy (order.range selected) 0 w₂)
  unfolding enforce_policy list_managed
  enforce_policy-runs order w c done =
      let selected = selected_namespaces policy.selector_namespaces in
      let keep = λ (name : String). any (λ k. k == name) selected in
      elim (Result-cases (client.list w)) [
        | inr (e, failed) ↦ absurd (ground (arith, failed, done))
        | inl (l, listing) ↦
            let removal = remove_each client keep (managed_of policy.uid l) w in
            let apply =
              λ (_ : Unit {0}) (w₂ : W). apply_each client policy (order.range selected) 0 w₂ in
            let run : enforce_policy client order policy w ≡ then_on removal (λ e. e) apply =
              ground (arith, listing) in
            let (_, removed, follows) =
              then_on-ok removal (λ e. e) apply (sym (ap (λ r. r.0) run) ∙ done) in
            let counts : (n : String) → counted (stored removal.1 n) ≡ counted (stored w n) = λ n.
              elim (Option-cases (stored w n)) [
                | inl gone ↦ ap counted (
                    remove_managed-none client stored store keep policy.uid l w n listing gone
                    ∙ sym gone)
                | inr (z, there) ↦
                    let (y, stays, _) =
                      remove_managed-Leaves client stored store keep policy.uid l w n z listing
                        removed there in
                    ap counted stays ∙ ap counted (sym there)
              ] in
            (removal.1, counts, sym (ap (λ r. r.0) (run ∙ follows)) ∙ done, run ∙ follows)
      ]

  module _ (order : MapRange) (w : W) (c : ℕ)
      (done : (enforce_policy client order policy w).0 ≡ ok c) where
    -- What an enforcement that succeeds leaves: settled entries where the selector names a namespace, and
    -- the namespaces that were there.
    enforce_policy-SettledAt :
        ((n : String)
          → selects policy n ≡ true
          → SettledAt client stored store policy (enforce_policy client order policy w).1 n)
        × ((n : String)
            → counted (stored (enforce_policy client order policy w).1 n) ≡ counted (stored w n))
    enforce_policy-SettledAt =
        let selected = selected_namespaces policy.selector_namespaces in
        let (w₂, before, applied, run) = enforce_policy-runs order w c done in
        let (settles, _, _, counts) =
          apply_each-SettledAt client stored store policy (order.range selected) 0 w₂ c applied in
        (
          λ n named.
              let visited : any (λ m. m == n) (order.range selected) ≡ true =
                any-perm (λ m. m == n) (order.range-perm selected)
                ∙ any-selected_namespaces n policy.selector_namespaces
                ∙ named in
              subst (λ r. SettledAt client stored store policy r.1 n) (sym run) (settles n visited),
          λ n. ap (λ r. counted (stored r.1 n)) run ∙ counts n ∙ before n,
        )

    -- It returns the number of namespaces that the selector names and the cluster has.
    pub enforce_policy-counts :
        c ≡ sum_by (λ n. counted (stored w n)) (selected_namespaces policy.selector_namespaces)
    enforce_policy-counts =
        let selected = selected_namespaces policy.selector_namespaces in
        let (w₂, before, applied, run) = enforce_policy-runs order w c done in
        let (_, _, count, _) =
          apply_each-SettledAt client stored store policy (order.range selected) 0 w₂ c applied in
        let total : c ≡ sum_by (λ n. counted (stored w₂ n)) (order.range selected) =
          ground (arith, count) in
        total
        ∙ sum_by-ext _ _ (order.range selected) before
        ∙ sum_by-perm (λ n. counted (stored w n)) (order.range-perm selected)

    -- The policy owns no namespace that its selector does not name.
    enforce_policy-drops :
        (n : String) (y : Namespace)
        → policy.uid ≢ ""
        → stored (enforce_policy client order policy w).1 n ≡ some y
        → is_managed_by policy.uid y ≡ true
        → selects policy n ≡ true
    unfolding read
    enforce_policy-drops n y blank there managed = elim (Bool-cases (selects policy n)) [
      | inl named ↦ named
      | inr unnamed ↦ elim (Option-cases (stored w n)) [
        | inl gone ↦
            absurd (ground (arith, ap counted gone, ap counted there, enforce_policy-SettledAt.1 n))
        | inr (z, before) ↦
            let (u, last, reads) =
              enforce_policy-applies client stored store policy order w c n z done before in
            let alike : u ≡ y = cc (last, there) in
            let owner : read (entries_of u) owner_uid_annotation ≡ policy.uid =
              ap (λ x. read (entries_of x) owner_uid_annotation) alike
              ∙ owner_of_managed policy.uid y managed in
            absurd (
              ground (
                arith,
                owner,
                unnamed,
                blank,
                reads owner_uid_annotation,
                managed_of_owner policy.uid z blank,
              ))
      ]
    ]

  -- A namespace that is settled is counted and left as it is.
  apply_to-rests :
      (name : String) (v : W)
      → SettledAt client stored store policy v name
      → ((e : E) → ¬ (client.get_namespace v name ≡ broken e))
      → apply_to client policy name v ≡ (ok (counted (stored v name)), v)
  unfolding apply_to
  apply_to-rests name v settled reads = elim (Fetched-cases (client.get_namespace v name)) [
    | inr (inl (e, failed)) ↦ absurd (reads e failed)
    | inl missing ↦ ground (arith, missing, store.missing v name missing)
    | inr (inr (x, got)) ↦
        let here = store.found v name x got in
        ground (arith, got, here, update_annotations-rests client.patch policy x v (settled x here))
  ]

  apply_each-rests :
      (names : List String) (applied : ℕ) (v : W)
      → ((n : String) → any (λ m. m == n) names ≡ true → SettledAt client stored store policy v n)
      → ((n : String) (e : E) → ¬ (client.get_namespace v n ≡ broken e))
      → apply_each client policy names applied v
        ≡ (ok (applied + sum_by (λ n. counted (stored v n)) names), v)
  unfolding apply_each any
  apply_each-rests [] applied v settled reads = ground arith
  apply_each-rests (name ∷ names) applied v settled reads =
      let first =
        apply_to-rests name v (settled name (ground (arith, eq_refl name))) (reads name) in
      ap (λ r. then_on r (λ e. e) (λ n. apply_each client policy names (applied + n))) first
      ∙ apply_each-rests names (applied + counted (stored v name)) v
          (λ n listed. settled n (ground (arith, listed))) reads
      ∙ ground arith

  remove_each-rests :
      (keep : String → Bool) (l : List Namespace) (v : W)
      → All (λ x. keep x.name ≡ true) l
      → remove_each client keep l v ≡ (ok tt, v)
  unfolding remove_each
  remove_each-rests keep [] v h = refl
  remove_each-rests keep (x ∷ xs) v (kept, later) = rw kept (remove_each-rests keep xs v later)

  -- Under the client's documentation: in a world whose namespaces are those that an enforcement of the
  -- policy that succeeded has left, where they can be listed and read, another enforcement, in any order
  -- of its map, writes nothing and returns the same count.
  pub enforce_policy-rests :
      (order again : MapRange) (w v : W) (c : ℕ) (l : List Namespace)
      → policy.uid ≢ ""
      → (enforce_policy client order policy w).0 ≡ ok c
      → ((n : String) → stored v n ≡ stored (enforce_policy client order policy w).1 n)
      → client.list v ≡ ok l
      → ((n : String) (e : E) → ¬ (client.get_namespace v n ≡ broken e))
      → enforce_policy client again policy v ≡ (ok c, v)
  unfolding enforce_policy list_managed
  enforce_policy-rests order again w v c l blank done same listing reads =
      let selected = selected_namespaces policy.selector_namespaces in
      let keep = λ (name : String). any (λ k. k == name) selected in
      let (settles, counts) = enforce_policy-SettledAt order w c done in
      let kept : All (λ x. keep x.name ≡ true) (managed_of policy.uid l) =
        managed_of_sound (λ x. keep x.name ≡ true) policy.uid l
          (All-imp l
            (λ x there managed.
              any-selected_namespaces x.name policy.selector_namespaces
              ∙ enforce_policy-drops order w c done x.name x blank (sym (same x.name) ∙ there)
                  managed)
            (store.listed v l listing)) in
      let removed = remove_each-rests keep (managed_of policy.uid l) v kept in
      let applied =
        apply_each-rests (again.range selected) 0 v
          (λ n visited z there.
            settles n
              (sym (
                  any-perm (λ m. m == n) (again.range-perm selected)
                  ∙ any-selected_namespaces n policy.selector_namespaces)
                ∙ visited)
              z (sym (same n) ∙ there))
          reads in
      let count : sum_by (λ n. counted (stored v n)) (again.range selected) ≡ c =
        sum_by-perm (λ n. counted (stored v n)) (again.range-perm selected)
        ∙ sum_by-ext _ _ selected (λ n. ap counted (same n) ∙ counts n)
        ∙ sym (enforce_policy-counts order w c done) in
      ground (arith, listing, removed, applied, count)
