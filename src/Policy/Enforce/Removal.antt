-- ===== src/Policy/Enforce/Removal.antt =====
-- The loop that takes a policy's annotations off the namespaces that it manages.
use astradns_operator.Base.{
  String, Bool, false, not, ◌&&◌, ◌==◌, Option, none, some, List, [], ◌∷◌, any, Result, ok, err,
  ◌≡◌, ◌≢◌, refl, sym, ◌∙◌, ap, subst, All, All-imp, All-zip, eq_iff, arith, if◌then◌else◌,
  Option-cases, Bool-cases, Result-cases, inl, inr,
}
use astradns_operator.Policy.{Policy, Namespace}
use astradns_operator.Policy.Annotations.{remove_annotations}
use astradns_operator.Policy.Enforce.{
  Namespaces, update_failed, is_managed_by, managed_of, then_on, list_managed, remove_each,
  clear_enforcement,
}
use astradns_operator.Policy.Enforce.Store.{
  IsStore, HasDistinctNames, has_name, Leaves, remove_annotations-others, remove_annotations-Leaves,
}

-- What a chain that succeeds has gone through.
pub then_on-ok :
    {E F W A B : Type 0} (x : Result E A × W) (wrap : E → F) (rest : A → W → Result F B × W) {b : B}
    → (then_on x wrap rest).0 ≡ ok b
    → (a : A) × (x.0 ≡ ok a) × (then_on x wrap rest ≡ rest a x.1)
then_on-ok (ok a, w) wrap rest h = (a, refl, refl)
then_on-ok (err e, w) wrap rest h = absurd (ground arith)

-- What the first call and the rest keep, the chain keeps.
pub then_on_keeps :
    {E F W A B : Type 0} (P : W → Type 0) (x : Result E A × W) (wrap : E → F)
    (rest : A → W → Result F B × W)
    → P x.1
    → ((a : A) (w : W) → P w → P (rest a w).1)
    → P (then_on x wrap rest).1
then_on_keeps P (ok a, w) wrap rest h f = f a w h
then_on_keeps P (err e, w) wrap rest h f = h

-- The policy of a UID owns the namespace.
abbrev pub owned : String → Option Namespace → Bool
owned uid none = false
owned uid (some x) = is_managed_by uid x

-- Whether the loop takes the annotations off the namespace `n`.
abbrev pub takes : (String → Bool) → String → List Namespace → Bool
takes keep n l = any (λ x. x.name == n && not (keep x.name)) l

takes-managed_of :
    (keep : String → Bool) (uid n : String) (o : Option Namespace) (l : List Namespace)
    → All (λ x. x.name ≡ n → o ≡ some x) l
    → takes keep n (managed_of uid l) ≡ (has_name n l && (owned uid o && not (keep n)))
unfolding managed_of any
takes-managed_of keep uid n o [] h = refl
takes-managed_of keep uid n o (x ∷ xs) (here, later) =
    let rest = takes-managed_of keep uid n o xs later in
    elim (Bool-cases (x.name == n)) [
      | inr other ↦ ground (arith, other, rest)
      | inl same ↦
          let at : x.name ≡ n = ground (arith, eq_iff x.name n, same) in
          let whole = here at in rw (at, eq_iff n n) (ground (arith, rest, same, whole))
    ]

pub managed_of-All :
    (P : Namespace → Type 0) (uid : String) (l : List Namespace)
    → All P l
    → All P (managed_of uid l)
unfolding managed_of
managed_of-All P uid [] h = tt
managed_of-All P uid (x ∷ xs) (p, ps) = elim (Bool-cases (is_managed_by uid x)) [
  | inl managed ↦ rw managed (p, managed_of-All P uid xs ps)
  | inr left ↦ rw left (managed_of-All P uid xs ps)
]

pub managed_of-HasDistinctNames :
    (uid : String) (l : List Namespace) → HasDistinctNames l → HasDistinctNames (managed_of uid l)
unfolding managed_of
managed_of-HasDistinctNames uid [] h = tt
managed_of-HasDistinctNames uid (x ∷ xs) (apart, d) =
    let rest = managed_of-HasDistinctNames uid xs d in
    elim (Bool-cases (is_managed_by uid x)) [
      | inl managed ↦ rw managed (managed_of-All (λ y. x.name ≢ y.name) uid xs apart, rest)
      | inr left ↦ rw left rest
    ]

module _ {E W : Type 0} (client : Namespaces E W) (stored : W → String → Option Namespace)
    (store : IsStore client stored) where
  remove_step-Leaves :
      (keep : String → Bool) (x : Namespace) (w : W) (n : String) (z : Namespace)
      → stored w x.name ≡ some x
      → let step = if keep x.name then (ok tt, w) else remove_annotations client.patch x w in
        step.0 ≡ ok tt
        → stored w n ≡ some z
        → Leaves (x.name == n && not (keep x.name)) z (stored step.1 n)
  remove_step-Leaves keep x w n z here done there = elim (Bool-cases (keep x.name)) [
    | inl kept ↦ rw kept (z, there, λ k. ground arith)
    | inr removed ↦
        let (y, stays, keys) =
          remove_annotations-Leaves client stored store x w n z here
            (subst (λ b. (if b then (ok tt, w) else remove_annotations client.patch x w).0 ≡ ok tt)
              removed done)
            there in
        rw removed (y, stays, λ k. ground (arith, keys k))
  ]

  pub remove_step_others :
      (keep : String → Bool) (x : Namespace) (w : W) (n : String)
      → x.name ≢ n
      → stored (if keep x.name then (ok tt, w) else remove_annotations client.patch x w).1 n
        ≡ stored w n
  remove_step_others keep x w n other = elim (Bool-cases (keep x.name)) [
    | inl kept ↦ rw kept refl
    | inr removed ↦ rw removed (remove_annotations-others client stored store x w n other)
  ]

  -- The loop touches no namespace of another name than those of the list.
  pub remove_each_others :
      (n : String) (keep : String → Bool) (l : List Namespace) (w : W)
      → All (λ x. x.name ≢ n) l
      → stored (remove_each client keep l w).1 n ≡ stored w n
  unfolding remove_each
  remove_each_others n keep [] w a = refl
  remove_each_others n keep (x ∷ xs) w (apart, later) =
      then_on_keeps (λ v. stored v n ≡ stored w n)
        (if keep x.name then (ok tt, w) else remove_annotations client.patch x w) update_failed
        (λ _. remove_each client keep xs) (remove_step_others keep x w n apart)
        (λ _ v h. remove_each_others n keep xs v later ∙ h)

  -- The loop that succeeds has taken the four keys off the namespaces of the list that are not kept,
  -- and nothing else.
  pub remove_each-Leaves :
      (keep : String → Bool) (l : List Namespace) (w : W) (n : String) (z : Namespace)
      → HasDistinctNames l
      → All (λ x. stored w x.name ≡ some x) l
      → (remove_each client keep l w).0 ≡ ok tt
      → stored w n ≡ some z
      → Leaves (takes keep n l) z (stored (remove_each client keep l w).1 n)
  unfolding remove_each any
  remove_each-Leaves keep [] w n z d s done there = (z, there, λ k. refl)
  remove_each-Leaves keep (x ∷ xs) w n z (apart, d) (here, s) done there =
      let step = if keep x.name then (ok tt, w) else remove_annotations client.patch x w in
      let (_, stepped, follows) =
        then_on-ok step update_failed (λ _. remove_each client keep xs) done in
      let still =
        All-imp xs
          (λ y (f : (x.name ≢ y.name) × (stored w y.name ≡ some y)).
            remove_step_others keep x w y.name f.0 ∙ f.1)
          (All-zip _ _ xs apart s) in
      let (y, between, first_keys) = remove_step-Leaves keep x w n z here stepped there in
      let (u, last, keys) =
        remove_each-Leaves keep xs step.1 n y d still (sym (ap (λ r. r.0) follows) ∙ done)
          between in
      (u, ap (λ r. stored r.1 n) follows ∙ last, λ k. ground (arith, first_keys k, keys k))

  -- The managed namespaces of a listing are those of the cluster that the policy owns.
  pub takes-owned :
      (keep : String → Bool) (uid n : String) (w : W) (l : List Namespace)
      → client.list w ≡ ok l
      → takes keep n (managed_of uid l) ≡ (owned uid (stored w n) && not (keep n))
  takes-owned keep uid n w l listing =
      let all_stored = store.listed w l listing in
      let named : All (λ x. x.name ≡ n → stored w n ≡ some x) l =
        All-imp l (λ x e at. subst (λ m. stored w m ≡ some x) at e) all_stored in
      let taken = takes-managed_of keep uid n (stored w n) l named in
      elim (Option-cases (stored w n)) [
        | inl gone ↦ ground (arith, taken, gone)
        | inr (x, there) ↦ ground (arith, taken, there, store.complete w l n x listing there)
      ]

  -- The loop over the managed namespaces of a listing.
  pub remove_managed-Leaves :
      (keep : String → Bool) (uid : String) (l : List Namespace) (w : W) (n : String)
      (z : Namespace)
      → client.list w ≡ ok l
      → (remove_each client keep (managed_of uid l) w).0 ≡ ok tt
      → stored w n ≡ some z
      → Leaves
          (is_managed_by uid z && not (keep n))
          z
          (stored (remove_each client keep (managed_of uid l) w).1 n)
  remove_managed-Leaves keep uid l w n z listing done there =
      let taken : takes keep n (managed_of uid l) ≡ (is_managed_by uid z && not (keep n)) =
        ground (arith, takes-owned keep uid n w l listing, there) in
      subst (λ b. Leaves b z (stored (remove_each client keep (managed_of uid l) w).1 n)) taken
        (remove_each-Leaves keep (managed_of uid l) w n z
          (managed_of-HasDistinctNames uid l (store.distinct w l listing))
          (managed_of-All (λ x. stored w x.name ≡ some x) uid l (store.listed w l listing)) done
          there)

  -- The loop makes no namespace.
  pub remove_managed-none :
      (keep : String → Bool) (uid : String) (l : List Namespace) (w : W) (n : String)
      → client.list w ≡ ok l
      → stored w n ≡ none
      → stored (remove_each client keep (managed_of uid l) w).1 n ≡ none
  remove_managed-none keep uid l w n listing gone =
      let apart : All (λ y. y.name ≢ n) (managed_of uid l) =
        managed_of-All (λ y. y.name ≢ n) uid l
          (All-imp l (λ y s e. let both = subst (λ m. stored w m ≡ some y) e s in cc (both, gone))
            (store.listed w l listing)) in
      remove_each_others n keep (managed_of uid l) w apart ∙ gone

  -- Under the client's documentation: clearing that returns no error has taken the four keys off every
  -- namespace whose owner is the policy, and has left every other entry of every namespace as it was.
  pub clear_enforcement-releases :
      (policy : Policy) (w : W) (n : String) (z : Namespace)
      → (clear_enforcement client policy w).0 ≡ ok tt
      → stored w n ≡ some z
      → Leaves (is_managed_by policy.uid z) z (stored (clear_enforcement client policy w).1 n)
  unfolding clear_enforcement list_managed
  clear_enforcement-releases policy w n z done there = elim (Result-cases (client.list w)) [
    | inr (e, failed) ↦ absurd (ground (arith, failed, done))
    | inl (l, listing) ↦
        let run : clear_enforcement client policy w
            ≡ remove_each client (λ _. false) (managed_of policy.uid l) w =
          ground (arith, listing) in
        let (y, stays, keys) =
          remove_managed-Leaves (λ _. false) policy.uid l w n z listing
            (sym (ap (λ r. r.0) run) ∙ done) there in
        (y, ap (λ r. stored r.1 n) run ∙ stays, λ k. ground (arith, keys k))
  ]
