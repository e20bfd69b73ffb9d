-- ===== src/Policy/Reconcile/Succeeds.antt =====
-- A run that meets no error marks its policy enforced, with the number of its namespaces.
use astradns_operator.Base.{
  ℕ, String, Option, none, some, List, Result, ok, err, ◌≡◌, ◌∙◌, ap, arith, true, false,
}
use astradns_operator.Platform.{Platform}
use astradns_operator.Kube.{fetched, broken}
use astradns_operator.Policy.{Policy, Namespace}
use astradns_operator.Policy.Enforce.{MapRange, EnforceError, enforce_policy}
use astradns_operator.Policy.Enforce.Apply.{selects}
use astradns_operator.Policy.Enforce.Succeeds.{IsOpen, enforce_policy-succeeds}
use astradns_operator.Policy.References.Sound.{IsReferable, validate_references_iff}
use astradns_operator.Policy.Reconcile.{
  PolicyClient, with_finalizer, set_status, report_enforcement, reconcile_validated, reconcile,
}
use astradns_operator.Policy.Reconcile.Enforced.{run_validated, stored_between}
use astradns_operator.Policy.Reconcile.Laws.{IsPolicyStore, set_status_kept}
use astradns_operator.Base.{any, ◌==◌, ◌&&◌, [], ◌∷◌, if◌then◌else◌, refl}
use astradns_operator.Base.Members.{sum_by}
use astradns_operator.Dict.{get}
use astradns_operator.Text.{trim_space}
use astradns_operator.Policy.Annotations.{entries_of}
use astradns_operator.Policy.Annotations.Keys.{is_managed}
use astradns_operator.Policy.Annotations.Wanted.{wanted_entry}
use astradns_operator.Policy.Enforce.{selected_namespaces, add_key, is_managed_by}
use astradns_operator.Policy.Enforce.Apply.{enforce_policy-applies}
use astradns_operator.Policy.Enforce.Settled.{counted}
use astradns_operator.Policy.Enforce.Stable.{enforce_policy-counts}

pub report_enforcement-ok :
    {E W : Type 0} (client : PolicyClient E W) (policy : Policy) (r : Result (EnforceError E) ℕ × W)
    (c : ℕ)
    → r.0 ≡ ok c
    → report_enforcement client policy r
      ≡ set_status client policy
          (record { is_valid = true; reason = "Enforced"; applied_nodes = c })
          none
          r.1
unfolding report_enforcement
report_enforcement-ok client policy (ok d, w) c h =
    let same : d ≡ c = cc h in
    ap
      (λ x.
        set_status client policy
          (record { is_valid = true; reason = "Enforced"; applied_nodes = x }) none w)
      same
report_enforcement-ok client policy (err e, w) c h = absurd (ground (arith, h))

-- What a run for a policy meets after the finalizer, where nothing fails: the references are valid,
-- the namespaces can be listed, and each one that the selector names, if there is one, is owned by
-- no other policy.
pub record IsSmooth {E W : Type 0} (client : PolicyClient E W)
    (stored : W → String → Option Namespace) (p : Platform) (policy : Policy) (w : W) : Type 0 where
  pub valid : IsReferable p (client.get_pool w) (client.get_profile w) policy
  pub listed : List Namespace
  pub listing : client.namespaces.list w ≡ ok listed
  pub unowned :
      (n : String) (z : Namespace)
      → selects policy n ≡ true
      → stored w n ≡ some z
      → IsOpen policy.uid z

-- The trimmed names, each once.
abbrev pub distinct_names : List String → List String
distinct_names [] = []
distinct_names (name ∷ names) =
    let rest = distinct_names names in
    if any (λ k. k == trim_space name) rest then rest else trim_space name ∷ rest

selected_namespaces-distinct_names :
    (names : List String) → selected_namespaces names ≡ distinct_names names
unfolding selected_namespaces add_key
selected_namespaces-distinct_names [] = refl
selected_namespaces-distinct_names (name ∷ names) =
    ap (λ rest. if any (λ k. k == trim_space name) rest then rest else trim_space name ∷ rest)
      (selected_namespaces-distinct_names names)

module _ {E W : Type 0} (client : PolicyClient E W) (stored : W → String → Option Namespace)
    (store : IsPolicyStore client stored) (p : Platform) (order : MapRange) where
  -- Under the client's documentation, where patches of namespaces that are stored succeed and reads fail
  -- for missing ones only: a run for a live policy whose references are valid after the finalizer,
  -- where the namespaces can be listed and no other policy owns one that the selector names, ends with
  -- the patch that marks it enforced, with the number of distinct names of the selector that the cluster
  -- has a namespace of; and it leaves the entries that the policy wants on each of these, on every other
  -- namespace that it owned the entries without the four keys, and on the rest those that were there.
  pub reconcile-succeeds :
      (patches : (x : Namespace) (w : W) (z : Namespace)
        → stored w x.name ≡ some z
        → (client.namespaces.patch x w).0 ≡ ok tt)
      (reads : (w : W) (n : String) (e : E) → ¬ (client.namespaces.get_namespace w n ≡ broken e))
      (namespace name : String) (w w₁ : W) (policy q : Policy)
      → client.get_policy w namespace name ≡ fetched policy
      → policy.is_deleted ≡ false
      → with_finalizer client policy w ≡ (ok q, w₁)
      → IsSmooth client stored p q w₁
      → (reconcile client p order namespace name w
          ≡ set_status client q
              (record {
                is_valid = true;
                reason = "Enforced";
                applied_nodes =
                    sum_by (λ n. counted (stored w₁ n)) (distinct_names q.selector_namespaces);
              })
              none
              (enforce_policy client.namespaces order q w₁).1)
        × ((n : String) (z : Namespace)
            → stored w n ≡ some z
            → (y : Namespace) × (stored (reconcile client p order namespace name w).1 n ≡ some y)
              × ((k : String)
                  → get (entries_of y) k ≡ (
                      if selects q n
                      then wanted_entry q k (get (entries_of z) k)
                      else if is_managed_by q.uid z && is_managed k
                      then none
                      else get (entries_of z) k)))
  unfolding reconcile_validated
  reconcile-succeeds patches reads namespace name w w₁ policy q got live kept smooth =
      let enforced = enforce_policy client.namespaces order q w₁ in
      let (c, done) =
        enforce_policy-succeeds client.namespaces stored store.namespaces q patches reads order w₁
          smooth.listed smooth.listing smooth.unowned in
      let valid =
        (validate_references_iff p (client.get_pool w₁) (client.get_profile w₁) q).1 smooth.valid in
      let count : c ≡ sum_by (λ n. counted (stored w₁ n)) (distinct_names q.selector_namespaces) =
        enforce_policy-counts client.namespaces stored store.namespaces q order w₁ c done
        ∙ ap (sum_by (λ n. counted (stored w₁ n)))
            (selected_namespaces-distinct_names q.selector_namespaces) in
      let run =
        run_validated client p order namespace name w w₁ policy q got live kept (ok tt) valid
        ∙ report_enforcement-ok client q enforced _ (done ∙ ap ok count) in
      (
        run,
        λ n z there.
            let before =
              stored_between client p order namespace name w w₁ policy q got live kept stored store
                n
              ∙ there in
            let (y, last, reads) =
              enforce_policy-applies client.namespaces stored store.namespaces q order w₁ c n z done
                before in
            (
              y,
              ap (λ r. stored r.1 n) run
                  ∙ set_status_kept client stored store q _ none enforced.1 n
                  ∙ last,
              reads,
            ),
      )
