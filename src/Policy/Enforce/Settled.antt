-- ===== src/Policy/Enforce/Settled.antt =====
-- What the loop over the selected namespaces leaves: settled entries, and a count of what is there.
use astradns_operator.Base.{
  ℕ, ◌+◌, String, ◌==◌, Option, none, some, List, [], ◌∷◌, any, ok, ◌≡◌, ◌≢◌, refl, sym, ◌∙◌, ap,
  subst, eq_iff, arith, Bool-cases, Result-cases, inl, inr, true,
}
use astradns_operator.Base.Members.{sum_by, sum_by-ext}
use astradns_operator.Kube.{Fetched-cases}
use astradns_operator.Policy.{Policy, Namespace}
use astradns_operator.Policy.Annotations.{
  entries_of, check_owner, policy_entries, update_annotations,
}
use astradns_operator.Policy.Annotations.Entries.{IsSettled}
use astradns_operator.Policy.Annotations.Ownership.{
  update_annotations-IsSettled, update_annotations-refused,
}
use astradns_operator.Policy.Enforce.{Namespaces, update_failed, then_on, apply_to, apply_each}
use astradns_operator.Policy.Enforce.Store.{IsStore, patch_ok}
use astradns_operator.Policy.Enforce.Steps.{update_annotations-others}
use astradns_operator.Policy.Enforce.Removal.{then_on-ok, then_on_keeps}
use astradns_operator.Policy.Enforce.Apply.{apply_to-Applied}

-- by how much a namespace that is stored adds to the count
abbrev pub counted : Option Namespace → ℕ
counted none = 0
counted (some _) = 1

module _ {E W : Type 0} (client : Namespaces E W) (stored : W → String → Option Namespace)
    (store : IsStore client stored) (policy : Policy) where
  -- The namespace of this name, if there is one, has the entries that the policy wants.
  abbrev pub SettledAt : W → String → Type 0
  SettledAt w n = (z : Namespace) → stored w n ≡ some z → IsSettled policy (entries_of z)

  update_annotations-SettledAt :
      (x : Namespace) (w : W)
      → stored w x.name ≡ some x
      → (update_annotations client.patch policy x w).0 ≡ ok tt
      → SettledAt (update_annotations client.patch policy x w).1 x.name
  update_annotations-SettledAt x w here done z there = elim (Result-cases (check_owner policy x)) [
    | inr (c, refused) ↦
        absurd (ground (arith, done, update_annotations-refused client.patch policy x w c refused))
    | inl (_, passed) ↦
        let m = (policy_entries policy (entries_of x)).entries in
        let (settled, did) = update_annotations-IsSettled client.patch policy x w passed in
        elim did [
          | inr (unchanged, nothing) ↦
              let alike : x ≡ z = cc (sym (ap (λ r. stored r.1 x.name) nothing ∙ here), there) in
              subst (λ u. IsSettled policy (entries_of u)) alike
                (subst (IsSettled policy) unchanged settled)
          | inl wrote ↦
              let updated : Namespace = record x { annotations = some m } in
              let last : stored (update_annotations client.patch policy x w).1 x.name
                  ≡ some updated =
                ap (λ r. stored r.1 x.name) wrote
                ∙ store.written w updated
                    (patch_ok (client.patch updated w).0 (sym (ap (λ r. r.0) wrote) ∙ done)) in
              let alike : updated ≡ z = cc (last, there) in
              subst (λ u. IsSettled policy (entries_of u)) alike settled
        ]
  ]

  -- One round touches no namespace of another name.
  pub apply_to-others :
      (name : String) (w : W) (n : String)
      → name ≢ n
      → stored (apply_to client policy name w).1 n ≡ stored w n
  unfolding apply_to
  apply_to-others name w n apart = elim (Fetched-cases (client.get_namespace w name)) [
    | inl missing ↦ ground (arith, missing)
    | inr (inl (e, failed)) ↦ ground (arith, failed)
    | inr (inr (x, got)) ↦
        let at = store.named w name x (store.found w name x got) in
        let kept =
          update_annotations-others client stored store policy x w n (λ e. apart (sym at ∙ e)) in
        let run : apply_to client policy name w
            ≡ then_on (update_annotations client.patch policy x w) update_failed
                (λ _ w'. (ok 1, w')) =
          ground (arith, got) in
        ap (λ r. stored r.1 n) run
        ∙ then_on_keeps (λ v. stored v n ≡ stored w n) (update_annotations client.patch policy x w)
            update_failed (λ _ w'. (ok 1, w')) kept (λ _ v h. h)
  ]

  -- One round makes no namespace.
  pub apply_to-none :
      (name : String) (w : W) (n : String)
      → stored w n ≡ none
      → stored (apply_to client policy name w).1 n ≡ none
  unfolding apply_to
  apply_to-none name w n gone = elim (Bool-cases (name == n)) [
    | inr other ↦ apply_to-others name w n (ground (arith, other, eq_iff name n)) ∙ gone
    | inl here ↦
        let at : name ≡ n = ground (arith, here, eq_iff name n) in
        elim (Fetched-cases (client.get_namespace w name)) [
          | inl missing ↦ ground (arith, missing, gone)
          | inr (inl (e, failed)) ↦ ground (arith, failed, gone)
          | inr (inr (x, got)) ↦
              let both = subst (λ m. stored w m ≡ some x) at (store.found w name x got) in
              absurd (ground (arith, both, gone))
        ]
  ]

  -- A round that succeeds settles its namespace, and counts it if it is there.
  apply_to-SettledAt :
      (name : String) (w : W) (c : ℕ)
      → (apply_to client policy name w).0 ≡ ok c
      → SettledAt (apply_to client policy name w).1 name
        × (c ≡ counted (stored w name))
        × (counted (stored (apply_to client policy name w).1 name) ≡ counted (stored w name))
  unfolding apply_to
  apply_to-SettledAt name w c done = elim (Fetched-cases (client.get_namespace w name)) [
    | inr (inl (e, failed)) ↦ absurd (ground (arith, failed, done))
    | inl missing ↦
        let gone = store.missing w name missing in
        let run : apply_to client policy name w ≡ (ok 0, w) = ground (arith, missing) in
        let count : c ≡ 0 = ground (arith, run, done) in
        (
          λ z there. absurd (ground (arith, ap (λ r. stored r.1 name) run, gone, there)),
          count ∙ ap counted (sym gone),
          ap (λ r. counted (stored r.1 name)) run,
        )
    | inr (inr (x, got)) ↦
        let here = store.found w name x got in
        let named = store.named w name x here in
        let run : apply_to client policy name w
            ≡ then_on (update_annotations client.patch policy x w) update_failed
                (λ _ w'. (ok 1, w')) =
          ground (arith, got) in
        let (_, updated, follows) =
          then_on-ok (update_annotations client.patch policy x w) update_failed (λ _ w'. (ok 1, w'))
            (sym (ap (λ r. r.0) run) ∙ done) in
        let settled =
          update_annotations-SettledAt x w (subst (λ m. stored w m ≡ some x) (sym named) here)
            updated in
        let (y, stays, _) = apply_to-Applied client stored store policy name w c name x done here in
        let count : c ≡ 1 = ground (arith, sym (ap (λ r. r.0) (run ∙ follows)) ∙ done) in
        (
          subst (λ r. SettledAt r.1 name) (sym (run ∙ follows))
              (subst (SettledAt (update_annotations client.patch policy x w).1) named settled),
          count ∙ ap counted (sym here),
          ap counted stays ∙ ap counted (sym here),
        )
  ]

  apply_to-keeps :
      (name : String) (w : W) (c : ℕ) (n : String)
      → (apply_to client policy name w).0 ≡ ok c
      → (SettledAt w n → SettledAt (apply_to client policy name w).1 n)
        × (counted (stored (apply_to client policy name w).1 n) ≡ counted (stored w n))
  apply_to-keeps name w c n done = elim (Bool-cases (name == n)) [
    | inr other ↦
        let same = apply_to-others name w n (ground (arith, other, eq_iff name n)) in
        (λ settled z there. settled z (sym same ∙ there), ap counted same)
    | inl here ↦
        let at : name ≡ n = ground (arith, here, eq_iff name n) in
        let (settled, _, count) = apply_to-SettledAt name w c done in
        (
          λ _. subst (SettledAt (apply_to client policy name w).1) at settled,
          subst (λ m. counted (stored (apply_to client policy name w).1 m) ≡ counted (stored w m))
              at count,
        )
  ]

  -- The loop that succeeds settles every namespace of its list, unsettles none, and returns how many of
  -- the list there are.
  pub apply_each-SettledAt :
      (names : List String) (applied : ℕ) (w : W) (c : ℕ)
      → (apply_each client policy names applied w).0 ≡ ok c
      → ((n : String)
          → (any (λ m. m == n) names ≡ true)
          → SettledAt (apply_each client policy names applied w).1 n)
        × ((n : String) → SettledAt w n → SettledAt (apply_each client policy names applied w).1 n)
        × (c ≡ applied + sum_by (λ n. counted (stored w n)) names)
        × ((n : String)
            → counted (stored (apply_each client policy names applied w).1 n)
              ≡ counted (stored w n))
  unfolding apply_each any
  apply_each-SettledAt [] applied w c done =
      (λ n h. absurd (ground (arith, h)), λ n settled. settled, ground (arith, done), λ n. refl)
  apply_each-SettledAt (name ∷ names) applied w c done =
      let (i, stepped, follows) =
        then_on-ok (apply_to client policy name w) (λ e. e)
          (λ j. apply_each client policy names (applied + j)) done in
      let w₁ = (apply_to client policy name w).1 in
      let (settles, keeps, count, stays) =
        apply_each-SettledAt names (applied + i) w₁ c (sym (ap (λ r. r.0) follows) ∙ done) in
      let (first, one, _) = apply_to-SettledAt name w i stepped in
      let before = λ (n : String). (apply_to-keeps name w i n stepped).1 in
      let rest : sum_by (λ n. counted (stored w₁ n)) names
          ≡ sum_by (λ n. counted (stored w n)) names =
        sum_by-ext _ _ names before in
      (
        λ n listed.
            subst (λ r. SettledAt r.1 n) (sym follows)
              (elim (Bool-cases (name == n)) [
                | inl here ↦
                    let at : name ≡ n = ground (arith, here, eq_iff name n) in
                    keeps n (subst (SettledAt w₁) at first)
                | inr other ↦ settles n (ground (arith, other, listed))
              ]),
        λ n settled.
            subst (λ r. SettledAt r.1 n) (sym follows)
              (keeps n ((apply_to-keeps name w i n stepped).0 settled)),
        ground (arith, count, one, rest),
        λ n. ap (λ r. counted (stored r.1 n)) follows ∙ stays n ∙ before n,
      )
