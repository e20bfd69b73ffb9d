-- ===== src/Policy/Enforce/Succeeds.antt =====
-- Where the client's calls succeed and no other policy owns a selected namespace, enforcing succeeds.
use astradns_operator.Base.{
  ℕ, ◌+◌, String, Bool, true, ◌&&◌, ◌==◌, Option, none, some, List, [], ◌∷◌, any, Result, ok, err,
  ◌≡◌, ◌≢◌, ◌⊎◌, refl, sym, ◌∙◌, ap, subst, All, All-imp, All-zip, eq_iff, eq_refl, arith,
  if◌then◌else◌, Bool-cases, Option-cases, inl, inr,
}
use astradns_operator.Base.Members.{any-perm}
use astradns_operator.Dict.{Dict, get}
use astradns_operator.Kube.{broken, Fetched-cases}
use astradns_operator.Policy.{Policy, Namespace}
use astradns_operator.Policy.Annotations.{
  owner_uid_annotation, read, entries_of, check_owner, update_annotations, remove_annotations,
}
use astradns_operator.Policy.Annotations.Wanted.{read_of_wanted_entry}
use astradns_operator.Policy.Annotations.Keys.{is_managed}
use astradns_operator.Policy.Annotations.Ownership.{
  update_annotations-settles, remove_annotations-cases,
}
use astradns_operator.Policy.Enforce.{
  Namespaces, MapRange, update_failed, managed_of, selected_namespaces, then_on, list_managed,
  remove_each, apply_to, apply_each, enforce_policy,
}
use astradns_operator.Policy.Enforce.Store.{IsStore, HasDistinctNames}
use astradns_operator.Policy.Enforce.Removal.{
  managed_of-HasDistinctNames, remove_step_others, managed_of-All, remove_managed-Leaves,
  remove_managed-none,
}
use astradns_operator.Policy.Enforce.Settled.{apply_to-none}
use astradns_operator.Policy.Enforce.Apply.{selects, any-selected_namespaces, apply_to-Applied}

then_on-passes :
    {E F W A B : Type 0} (x : Result E A × W) (wrap : E → F) (rest : A → W → Result F B × W) (a : A)
    → x.0 ≡ ok a
    → then_on x wrap rest ≡ rest a x.1
then_on-passes (ok b, w) wrap rest a h = let same : b ≡ a = cc h in ap (λ c. rest c w) same
then_on-passes (err e, w) wrap rest a h = absurd (ground (arith, h))

read-ap : (m d : Dict String) (k : String) → get m k ≡ get d k → read m k ≡ read d k
unfolding read
read-ap m d k same = ground (arith, same)

-- No other policy owns it.
abbrev pub IsOpen : String → Namespace → Type 0
IsOpen uid z =
    (read (entries_of z) owner_uid_annotation ≡ "")
    ⊎ (read (entries_of z) owner_uid_annotation ≡ uid)

check_owner-IsOpen :
    (policy : Policy) (z : Namespace) → IsOpen policy.uid z → check_owner policy z ≡ ok tt
unfolding check_owner
check_owner-IsOpen policy z free =
    let owner = read (entries_of z) owner_uid_annotation in
    ground (arith, free, eq_iff owner "", eq_iff owner policy.uid)

module _ {E W : Type 0} (client : Namespaces E W) (stored : W → String → Option Namespace)
    (store : IsStore client stored) (policy : Policy)
    (patches : (x : Namespace) (w : W) (z : Namespace)
      → stored w x.name ≡ some z
      → (client.patch x w).0 ≡ ok tt)
    (reads : (w : W) (n : String) (e : E) → ¬ (client.get_namespace w n ≡ broken e)) where
  -- The namespace of this name, if there is one, is owned by no other policy.
  abbrev IsOpenAt : W → String → Type 0
  IsOpenAt w n = (z : Namespace) → stored w n ≡ some z → IsOpen policy.uid z

  remove_annotations-passes :
      (x : Namespace) (w : W)
      → stored w x.name ≡ some x
      → (remove_annotations client.patch x w).0 ≡ ok tt
  remove_annotations-passes x w here =
      let (cleared, same_name, _, did) = remove_annotations-cases client.patch x w in
      elim did [
        | inl (nothing, _) ↦ ap (λ r. r.0) nothing
        | inr wrote ↦
            let passed = patches cleared w x (ap (stored w) same_name ∙ here) in
            ap (λ r. r.0) wrote ∙ ground (arith, passed)
      ]

  remove_each-passes :
      (keep : String → Bool) (l : List Namespace) (w : W)
      → HasDistinctNames l
      → All (λ x. stored w x.name ≡ some x) l
      → (remove_each client keep l w).0 ≡ ok tt
  unfolding remove_each
  remove_each-passes keep [] w d s = refl
  remove_each-passes keep (x ∷ xs) w (apart, d) (here, s) =
      let step = if keep x.name then (ok tt, w) else remove_annotations client.patch x w in
      let stepped : step.0 ≡ ok tt = ground (arith, remove_annotations-passes x w here) in
      let still =
        All-imp xs
          (λ y (f : (x.name ≢ y.name) × (stored w y.name ≡ some y)).
            remove_step_others client stored store keep x w y.name f.0 ∙ f.1)
          (All-zip _ _ xs apart s) in
      ap (λ r. r.0) (then_on-passes step update_failed (λ _. remove_each client keep xs) tt stepped)
      ∙ remove_each-passes keep xs step.1 d still

  remove_managed-passes :
      (keep : String → Bool) (l : List Namespace) (w : W)
      → client.list w ≡ ok l
      → (remove_each client keep (managed_of policy.uid l) w).0 ≡ ok tt
  remove_managed-passes keep l w listing =
      remove_each-passes keep (managed_of policy.uid l) w
        (managed_of-HasDistinctNames policy.uid l (store.distinct w l listing))
        (managed_of-All (λ y. stored w y.name ≡ some y) policy.uid l (store.listed w l listing))

  update_annotations-passes :
      (x : Namespace) (w : W)
      → stored w x.name ≡ some x
      → IsOpen policy.uid x
      → (update_annotations client.patch policy x w).0 ≡ ok tt
  update_annotations-passes x w here free =
      let (m, _, did, _) =
        update_annotations-settles client.patch policy x w (check_owner-IsOpen policy x free) in
      elim did [
        | inl wrote ↦
            ap (λ r. r.0) wrote
            ∙ ground (arith, patches (record x { annotations = some m }) w x here)
        | inr (_, nothing) ↦ ap (λ r. r.0) nothing
      ]

  apply_to-passes :
      (name : String) (w : W)
      → IsOpenAt w name
      → (c : ℕ) × ((apply_to client policy name w).0 ≡ ok c)
  unfolding apply_to
  apply_to-passes name w free = elim (Fetched-cases (client.get_namespace w name)) [
    | inl missing ↦ (0, ground (arith, missing))
    | inr (inl (e, failed)) ↦ absurd (reads w name e failed)
    | inr (inr (x, got)) ↦
        let there = store.found w name x got in
        let here = subst (λ m. stored w m ≡ some x) (sym (store.named w name x there)) there in
        (1, ground (arith, got, update_annotations-passes x w here (free x there)))
  ]

  apply_to-IsOpenAt :
      (name : String) (w : W) (c : ℕ) (n : String)
      → (apply_to client policy name w).0 ≡ ok c
      → IsOpenAt w n
      → IsOpenAt (apply_to client policy name w).1 n
  apply_to-IsOpenAt name w c n done free z there = elim (Option-cases (stored w n)) [
    | inl gone ↦
        absurd (ground (arith, apply_to-none client stored store policy name w n gone, there))
    | inr (x, before) ↦
        let (y, last, keys) =
          apply_to-Applied client stored store policy name w c n x done before in
        let same : y ≡ z = cc (last, there) in
        let key = keys owner_uid_annotation in
        subst (IsOpen policy.uid) same (elim (Bool-cases (name == n)) [
          | inl here ↦ inr (
              read_of_wanted_entry policy (entries_of y) (entries_of x) owner_uid_annotation
                (key ∙ rw here refl))
          | inr away ↦
              let kept : read (entries_of y) owner_uid_annotation
                  ≡ read (entries_of x) owner_uid_annotation =
                read-ap (entries_of y) (entries_of x) owner_uid_annotation (key ∙ rw away refl) in
              elim (free x before) [ inl e ↦ inl (kept ∙ e) | inr e ↦ inr (kept ∙ e) ]
        ])
  ]

  apply_each-passes :
      (names : List String) (applied : ℕ) (w : W)
      → ((n : String) → any (λ m. m == n) names ≡ true → IsOpenAt w n)
      → (c : ℕ) × ((apply_each client policy names applied w).0 ≡ ok c)
  unfolding apply_each any
  apply_each-passes [] applied w free = (applied, refl)
  apply_each-passes (name ∷ names) applied w free =
      let (i, stepped) = apply_to-passes name w (free name (ground (arith, eq_refl name))) in
      let w₁ = (apply_to client policy name w).1 in
      let (c, done) =
        apply_each-passes names (applied + i) w₁
          (λ n listed. apply_to-IsOpenAt name w i n stepped (free n (ground (arith, listed)))) in
      (
        c,
        ap (λ r. r.0)
              (then_on-passes (apply_to client policy name w) (λ e. e)
                (λ j. apply_each client policy names (applied + j)) i stepped)
            ∙ done,
      )

  Leaves-IsOpen :
      (b : Bool) (x y : Namespace)
      → ((k : String)
          → get (entries_of y) k ≡ (if b && is_managed k then none else get (entries_of x) k))
      → IsOpen policy.uid x
      → IsOpen policy.uid y
  unfolding read
  Leaves-IsOpen b x y keys free = ground (arith, free, keys owner_uid_annotation)

  remove_each-IsOpenAt :
      (keep : String → Bool) (l : List Namespace) (w : W) (n : String)
      → client.list w ≡ ok l
      → IsOpenAt w n
      → IsOpenAt (remove_each client keep (managed_of policy.uid l) w).1 n
  remove_each-IsOpenAt keep l w n listing free z there =
      let managed = managed_of policy.uid l in
      elim (Option-cases (stored w n)) [
        | inl gone ↦
            let kept = remove_managed-none client stored store keep policy.uid l w n listing gone in
            absurd (ground (arith, kept, there))
        | inr (x, before) ↦
            let (y, last, keys) =
              remove_managed-Leaves client stored store keep policy.uid l w n x listing
                (remove_managed-passes keep l w listing) before in
            let same : y ≡ z = cc (last, there) in
            subst (IsOpen policy.uid) same (Leaves-IsOpen _ x y keys (free x before))
      ]

  -- Under the client's documentation: where the namespaces can be listed and no other policy owns one
  -- that the selector names, enforcing the policy returns no error.
  pub enforce_policy-succeeds :
      (order : MapRange) (w : W) (l : List Namespace)
      → client.list w ≡ ok l
      → ((n : String) (z : Namespace)
          → selects policy n ≡ true
          → stored w n ≡ some z
          → IsOpen policy.uid z)
      → (c : ℕ) × ((enforce_policy client order policy w).0 ≡ ok c)
  unfolding enforce_policy list_managed
  enforce_policy-succeeds order w l listing free =
      let selected = selected_namespaces policy.selector_namespaces in
      let keep = λ (name : String). any (λ k. k == name) selected in
      let removal = remove_each client keep (managed_of policy.uid l) w in
      let apply = λ (_ : Unit {0}) (w₂ : W). apply_each client policy (order.range selected) 0 w₂ in
      let run : enforce_policy client order policy w ≡ then_on removal (λ e. e) apply =
        ground (arith, listing) in
      let (c, done) = apply_each-passes (order.range selected) 0 removal.1 (λ n listed.
        let named : selects policy n ≡ true =
          sym (
            any-perm (λ m. m == n) (order.range-perm selected)
            ∙ any-selected_namespaces n policy.selector_namespaces)
          ∙ listed in
        remove_each-IsOpenAt keep l w n listing (λ z. free n z named)) in
      (
        c,
        ap (λ r. r.0)
              (run
                ∙ then_on-passes removal (λ e. e) apply tt (remove_managed-passes keep l w listing))
            ∙ done,
      )
