-- ===== src/Policy/Enforce/Apply.antt =====
-- What enforcing a policy leaves on every namespace of the cluster.
use astradns_operator.Base.{
  ℕ, ◌+◌, String, Bool, true, false, ◌&&◌, ◌||◌, ◌==◌, Option, none, some, List, [], ◌∷◌, any, ok,
  ◌≡◌, refl, sym, ◌∙◌, ap, subst, eq_iff, arith, if◌then◌else◌, Bool-cases, Result-cases, inl, inr,
}
use astradns_operator.Base.Members.{any-perm}
use astradns_operator.Text.{trim_space}
use astradns_operator.Dict.{get}
use astradns_operator.Kube.{Fetched-cases}
use astradns_operator.Policy.{Policy, Namespace}
use astradns_operator.Policy.Annotations.{entries_of, update_annotations}
use astradns_operator.Policy.Annotations.Keys.{is_managed}
use astradns_operator.Policy.Annotations.Wanted.{wanted_entry}
use astradns_operator.Policy.Enforce.{
  Namespaces, MapRange, update_failed, is_managed_by, managed_of, add_key, selected_namespaces,
  then_on, list_managed, remove_each, apply_to, apply_each, enforce_policy,
}
use astradns_operator.Policy.Enforce.Store.{IsStore}
use astradns_operator.Policy.Enforce.Steps.{Applied, update_annotations-Applied}
use astradns_operator.Policy.Enforce.Removal.{then_on-ok, remove_managed-Leaves}

-- The selector names the namespace.
abbrev pub selects : Policy → String → Bool
selects policy n = any (λ m. trim_space m == n) policy.selector_namespaces

any-add_key :
    (n key : String) (keys : List String)
    → any (λ k. k == n) (add_key key keys) ≡ ((key == n) || any (λ k. k == n) keys)
unfolding add_key any
any-add_key n key keys = elim (Bool-cases (any (λ k. k == key) keys)) [
  | inr fresh ↦ rw fresh refl
  | inl there ↦ rw there (elim (Bool-cases (key == n)) [
    | inr other ↦ rw other refl
    | inl same ↦
        let at : key ≡ n = ground (arith, same, eq_iff key n) in
        rw same (subst (λ m. any (λ k. k == m) keys ≡ true) at there)
  ])
]

pub any-selected_namespaces :
    (n : String) (l : List String)
    → any (λ k. k == n) (selected_namespaces l) ≡ any (λ m. trim_space m == n) l
unfolding selected_namespaces any
any-selected_namespaces n [] = refl
any-selected_namespaces n (x ∷ xs) =
    any-add_key n (trim_space x) (selected_namespaces xs)
    ∙ ap (λ b. (trim_space x == n) || b) (any-selected_namespaces n xs)

module _ {E W : Type 0} (client : Namespaces E W) (stored : W → String → Option Namespace)
    (store : IsStore client stored) (policy : Policy) where
  pub apply_to-Applied :
      (name : String) (w : W) (c : ℕ) (n : String) (z : Namespace)
      → (apply_to client policy name w).0 ≡ ok c
      → stored w n ≡ some z
      → Applied policy (name == n) z (stored (apply_to client policy name w).1 n)
  unfolding apply_to
  apply_to-Applied name w c n z done there = elim (Fetched-cases (client.get_namespace w name)) [
    | inr (inl (e, failed)) ↦ absurd (ground (arith, failed, done))
    | inl missing ↦
        let apart : (name == n) ≡ false = elim (Bool-cases (name == n)) [
          | inr other ↦ other
          | inl same ↦
              let at : name ≡ n = ground (arith, same, eq_iff name n) in
              cc (subst (λ m. stored w m ≡ none) at (store.missing w name missing), there)
        ] in
        let run : apply_to client policy name w ≡ (ok 0, w) = ground (arith, missing) in
        (z, ap (λ r. stored r.1 n) run ∙ there, λ k. rw apart refl)
    | inr (inr (x, got)) ↦
        let here = store.found w name x got in
        let named = store.named w name x here in
        let run : apply_to client policy name w
            ≡ then_on (update_annotations client.patch policy x w) update_failed
                (λ _ w'. (ok 1, w')) =
          ground (arith, got) in
        let (_, updated, follows) =
          then_on-ok (update_annotations client.patch policy x w) update_failed (λ _ w'. (ok 1, w'))
            (sym (ap (λ r. r.0) run) ∙ done) in
        let (y, stays, reads) =
          update_annotations-Applied client stored store policy x w n z
            (subst (λ m. stored w m ≡ some x) (sym named) here) updated there in
        (
          y,
          ap (λ r. stored r.1 n) (run ∙ follows) ∙ stays,
          subst
              (λ m.
                (k : String)
                → get (entries_of y) k ≡ (
                    if m == n
                    then wanted_entry policy k (get (entries_of z) k)
                    else get (entries_of z) k))
              named reads,
        )
  ]

  apply_each-Applied :
      (names : List String) (applied : ℕ) (w : W) (c : ℕ) (n : String) (z : Namespace)
      → (apply_each client policy names applied w).0 ≡ ok c
      → stored w n ≡ some z
      → Applied policy
          (any (λ m. m == n) names)
          z
          (stored (apply_each client policy names applied w).1 n)
  unfolding apply_each any
  apply_each-Applied [] applied w c n z done there = (z, there, λ k. refl)
  apply_each-Applied (name ∷ names) applied w c n z done there =
      let (count, stepped, follows) =
        then_on-ok (apply_to client policy name w) (λ e. e)
          (λ i. apply_each client policy names (applied + i)) done in
      let (x, between, first) = apply_to-Applied name w count n z stepped there in
      let (y, last, reads) =
        apply_each-Applied names (applied + count) (apply_to client policy name w).1 c n x
          (sym (ap (λ r. r.0) follows) ∙ done) between in
      (y, ap (λ r. stored r.1 n) follows ∙ last, λ k. ground (arith, first k, reads k))

  -- Under the client's documentation: enforcing that returns no error leaves a namespace of the cluster
  -- as the policy wants it if the selector names it, without the four keys if not and the policy was
  -- its owner, and otherwise as it was.
  pub enforce_policy-applies :
      (order : MapRange) (w : W) (c : ℕ) (n : String) (z : Namespace)
      → (enforce_policy client order policy w).0 ≡ ok c
      → stored w n ≡ some z
      → (y : Namespace) × (stored (enforce_policy client order policy w).1 n ≡ some y)
        × ((k : String)
            → get (entries_of y) k ≡ (
                if selects policy n
                then wanted_entry policy k (get (entries_of z) k)
                else if is_managed_by policy.uid z && is_managed k
                then none
                else get (entries_of z) k))
  unfolding enforce_policy list_managed
  enforce_policy-applies order w c n z done there =
      let selected = selected_namespaces policy.selector_namespaces in
      let keep = λ (name : String). any (λ k. k == name) selected in
      elim (Result-cases (client.list w)) [
        | inr (e, failed) ↦ absurd (ground (arith, failed, done))
        | inl (l, listing) ↦
            let removal = remove_each client keep (managed_of policy.uid l) w in
            let apply =
              λ (_ : Unit {0}) (w₂ : W). apply_each client policy (order.range selected) 0 w₂ in
            let run : enforce_policy client order policy w ≡ then_on removal (λ e. e) apply =
              ground (arith, listing) in
            let (_, removed, follows) =
              then_on-ok removal (λ e. e) apply (sym (ap (λ r. r.0) run) ∙ done) in
            let (x, between, keys) =
              remove_managed-Leaves client stored store keep policy.uid l w n z listing removed
                there in
            let (y, last, reads) =
              apply_each-Applied (order.range selected) 0 removal.1 c n x
                (sym (ap (λ r. r.0) (run ∙ follows)) ∙ done) between in
            let visited : any (λ m. m == n) (order.range selected) ≡ selects policy n =
              any-perm (λ m. m == n) (order.range-perm selected)
              ∙ any-selected_namespaces n policy.selector_namespaces in
            let kept : keep n ≡ selects policy n =
              any-selected_namespaces n policy.selector_namespaces in
            (
              y,
              ap (λ r. stored r.1 n) (run ∙ follows) ∙ last,
              λ k. ground (arith, keys k, reads k, visited, kept),
            )
      ]
