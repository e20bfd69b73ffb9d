-- ===== src/Policy/Enforce/Isolation.antt =====
-- A namespace that another policy owns is left alone, whatever becomes of the run.
use astradns_operator.Base.{
  ℕ, ◌+◌, String, Bool, true, false, ◌==◌, Option, some, List, [], ◌∷◌, any, ok, err, ◌≡◌, ◌≢◌, sym,
  ◌∙◌, ap, subst, All, eq_iff, arith, if◌then◌else◌, Bool-cases, Result-cases, inl, inr,
}
use astradns_operator.Kube.{Fetched-cases}
use astradns_operator.Policy.{Policy, Namespace}
use astradns_operator.Policy.Annotations.{
  Conflict, name_annotation, owner_uid_annotation, read, entries_of, check_owner,
  update_annotations,
}
use astradns_operator.Policy.Annotations.Ownership.{update_annotations-refused}
use astradns_operator.Policy.Enforce.{
  Namespaces, MapRange, update_failed, is_managed_by, managed_of, selected_namespaces, then_on,
  list_managed, remove_each, apply_to, apply_each, enforce_policy, clear_enforcement,
}
use astradns_operator.Policy.Enforce.Store.{IsStore}
use astradns_operator.Policy.Enforce.Steps.{update_annotations-others}
use astradns_operator.Policy.Enforce.Removal.{then_on_keeps, remove_each_others}

-- Some policy with another UID owns it.
pub record IsForeign (uid : String) (x : Namespace) : Type 0 where
  pub claimed : read (entries_of x) owner_uid_annotation ≢ ""
  pub foreign : read (entries_of x) owner_uid_annotation ≢ uid

check_owner_foreign :
    (policy : Policy) (x : Namespace)
    → IsForeign policy.uid x
    → (c : Conflict) × (check_owner policy x ≡ err c)
unfolding check_owner
check_owner_foreign policy x f =
    let owner = read (entries_of x) owner_uid_annotation in
    let by = read (entries_of x) name_annotation in
    (
      record { namespace = x.name; policy = if by == "" then owner else by },
      ground (arith, f.claimed, f.foreign, eq_iff owner "", eq_iff owner policy.uid),
    )

not_managed_of_IsForeign :
    (uid : String) (x : Namespace) → IsForeign uid x → is_managed_by uid x ≡ false
unfolding is_managed_by
not_managed_of_IsForeign uid x f =
    let owner = read (entries_of x) owner_uid_annotation in
    ground (arith, f.foreign, eq_iff owner uid)

module _ {E W : Type 0} (client : Namespaces E W) (stored : W → String → Option Namespace)
    (store : IsStore client stored) (n : String) (x : Namespace) where
  abbrev Held : W → Type 0
  Held w = stored w n ≡ some x

  remove_each-Held :
      (keep : String → Bool) (l : List Namespace) (w : W)
      → All (λ y. y.name ≢ n) l
      → Held w
      → Held (remove_each client keep l w).1
  remove_each-Held keep l w a h = remove_each_others client stored store n keep l w a ∙ h

  apart_of_managed :
      (uid : String) (l : List Namespace) (w : W)
      → IsForeign uid x
      → All (λ y. stored w y.name ≡ some y) l
      → Held w
      → All (λ y. y.name ≢ n) (managed_of uid l)
  unfolding managed_of
  apart_of_managed uid [] w f s h = tt
  apart_of_managed uid (y ∷ ys) w f (here, s) h =
      let rest = apart_of_managed uid ys w f s h in
      elim (Bool-cases (is_managed_by uid y)) [
        | inr left ↦ rw left rest
        | inl managed ↦ rw managed (
          λ at.
              let same : y ≡ x = cc (subst (λ m. stored w m ≡ some y) at here, h) in
              cc (
                subst (λ z. is_managed_by uid z ≡ true) same managed,
                not_managed_of_IsForeign uid x f,
              ),
          rest,
        )
      ]

  apply_to-Held :
      (policy : Policy) (name : String) (w : W)
      → IsForeign policy.uid x
      → Held w
      → Held (apply_to client policy name w).1
  unfolding apply_to
  apply_to-Held policy name w f h = elim (Fetched-cases (client.get_namespace w name)) [
    | inl missing ↦ ground (arith, missing, h)
    | inr (inl (e, failed)) ↦ ground (arith, failed, h)
    | inr (inr (y, got)) ↦
        let there = store.found w name y got in
        let run : apply_to client policy name w
            ≡ then_on (update_annotations client.patch policy y w) update_failed
                (λ _ w'. (ok 1, w')) =
          ground (arith, got) in
        let kept : stored (update_annotations client.patch policy y w).1 n ≡ some x =
          elim (Bool-cases (y.name == n)) [
            | inr other ↦
                update_annotations-others client stored store policy y w n
                  (ground (arith, other, eq_iff y.name n))
                ∙ h
            | inl same ↦
                let at : y.name ≡ n = ground (arith, same, eq_iff y.name n) in
                let here : stored w n ≡ some y =
                  subst (λ m. stored w m ≡ some y) (sym (store.named w name y there) ∙ at) there in
                let alike : y ≡ x = cc (here, h) in
                let (c, refused) =
                  check_owner_foreign policy y (subst (IsForeign policy.uid) (sym alike) f) in
                ap (λ r. stored r.1 n)
                  (update_annotations-refused client.patch policy y w c refused)
                ∙ h
          ] in
        subst (λ r. Held r.1) (sym run)
          (then_on_keeps Held (update_annotations client.patch policy y w) update_failed
            (λ _ w'. (ok 1, w')) kept (λ _ w' k. k))
  ]

  apply_each-Held :
      (policy : Policy) (names : List String) (applied : ℕ) (w : W)
      → IsForeign policy.uid x
      → Held w
      → Held (apply_each client policy names applied w).1
  unfolding apply_each
  apply_each-Held policy [] applied w f h = h
  apply_each-Held policy (name ∷ names) applied w f h =
      then_on_keeps Held (apply_to client policy name w) (λ e. e)
        (λ c. apply_each client policy names (applied + c)) (apply_to-Held policy name w f h)
        (λ c w'. apply_each-Held policy names (applied + c) w' f)

  -- Under the client's documentation: enforcing a policy, whether it succeeds or fails and wherever it
  -- stops, leaves a namespace that names a policy of another UID as its owner as it was.
  pub enforce_policy-isolates :
      (order : MapRange) (policy : Policy) (w : W)
      → IsForeign policy.uid x
      → stored w n ≡ some x
      → stored (enforce_policy client order policy w).1 n ≡ some x
  unfolding enforce_policy list_managed
  enforce_policy-isolates order policy w f h =
      let selected = selected_namespaces policy.selector_namespaces in
      elim (Result-cases (client.list w)) [
        | inr (e, failed) ↦ ground (arith, failed, h)
        | inl (l, listing) ↦
            let managed = managed_of policy.uid l in
            let removal = remove_each client (λ name. any (λ k. k == name) selected) managed w in
            let run : enforce_policy client order policy w
                ≡ then_on removal (λ e. e)
                    (λ _ w₂. apply_each client policy (order.range selected) 0 w₂) =
              ground (arith, listing) in
            subst (λ r. Held r.1) (sym run)
              (then_on_keeps Held removal (λ e. e)
                (λ _ w₂. apply_each client policy (order.range selected) 0 w₂)
                (remove_each-Held (λ name. any (λ k. k == name) selected) managed w
                  (apart_of_managed policy.uid l w f (store.listed w l listing) h) h)
                (λ _ w₂. apply_each-Held policy (order.range selected) 0 w₂ f))
      ]

  -- So does clearing.
  pub clear_enforcement-isolates :
      (policy : Policy) (w : W)
      → IsForeign policy.uid x
      → stored w n ≡ some x
      → stored (clear_enforcement client policy w).1 n ≡ some x
  unfolding clear_enforcement list_managed
  clear_enforcement-isolates policy w f h = elim (Result-cases (client.list w)) [
    | inr (e, failed) ↦ ground (arith, failed, h)
    | inl (l, listing) ↦
        let kept =
          remove_each-Held (λ _. false) (managed_of policy.uid l) w
            (apart_of_managed policy.uid l w f (store.listed w l listing) h) h in
        ground (arith, listing, kept)
  ]
