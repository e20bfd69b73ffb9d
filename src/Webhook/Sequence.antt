-- ===== src/Webhook/Sequence.antt =====
-- The pools that the cluster comes to have where every creation asks the webhook.
use astradns_operator.Base.{
  String, ◌==◌, some, List, Result, [], ◌∷◌, ◌++◌, ok, ◌≡◌, ◌≢◌, sym, subst, All, eq_iff, arith,
  inl, inr, Bool-cases,
}
use astradns_operator.Base.Sort.{select}
use astradns_operator.Api.{Pool}
use astradns_operator.Webhook.{allowed, Request, request_namespace, handle}
use astradns_operator.Webhook.Admission.{handle-allowed_iff}

-- What the list call returns for a namespace.
abbrev pub in_namespace : List Pool → String → List Pool
in_namespace pools n = select (λ (q : Pool). q.namespace == n) pools

-- One change of the pools of the cluster: a creation that the webhook has let through, which was
-- shown the pools that there are, and which the server stores in the namespace that the webhook read;
-- an update, which keeps the namespace; or a deletion.
pub data Step : List Pool → List Pool → Type 0 where
  create :
      (pools : List Pool) (req : Request) (m : String) (pool stored : Pool)
      → req.operation ≡ "CREATE"
      → req.object ≡ some pool
      → handle {E = String} (some (λ n. ok (in_namespace pools n))) req ≡ allowed m
      → stored.namespace ≡ request_namespace req pool
      → Step pools (stored ∷ pools)
  update :
      (before after : List Pool) (old new : Pool)
      → new.namespace ≡ old.namespace
      → Step (before ++ (old ∷ after)) (before ++ (new ∷ after))
  delete :
      (before after : List Pool) (old : Pool) → Step (before ++ (old ∷ after)) (before ++ after)

-- The pools that a cluster without pools can come to have.
pub data Reached : List Pool → Type 0 where
  start : Reached []
  then : (pools pools' : List Pool) → Reached pools → Step pools pools' → Reached pools'

-- No two pools are of one namespace.
abbrev pub IsAlone : List Pool → Type 0
IsAlone [] = Unit
IsAlone (x ∷ xs) = All (λ y. x.namespace ≢ y.namespace) xs × IsAlone xs

none_of_select :
    (n : String) (pools : List Pool)
    → in_namespace pools n ≡ []
    → All (λ (q : Pool). n ≢ q.namespace) pools
unfolding select
none_of_select n [] h = tt
none_of_select n (x ∷ xs) h = elim (Bool-cases (x.namespace == n)) [
  | inl here ↦ absurd (ground (arith, h, here))
  | inr other ↦ (
    λ e. ground (arith, eq_iff x.namespace n, other, e),
    none_of_select n xs (ground (arith, h, other)),
  )
]

All-update :
    (P : Pool → Type 0) (before after : List Pool) (old new : Pool)
    → (P old → P new)
    → All P (before ++ (old ∷ after))
    → All P (before ++ (new ∷ after))
All-update P [] after old new f (h, hs) = (f h, hs)
All-update P (x ∷ before) after old new f (h, hs) = (h, All-update P before after old new f hs)

All-delete :
    (P : Pool → Type 0) (before after : List Pool) (old : Pool)
    → All P (before ++ (old ∷ after))
    → All P (before ++ after)
All-delete P [] after old (h, hs) = hs
All-delete P (x ∷ before) after old (h, hs) = (h, All-delete P before after old hs)

update-IsAlone :
    (before after : List Pool) (old new : Pool)
    → new.namespace ≡ old.namespace
    → IsAlone (before ++ (old ∷ after))
    → IsAlone (before ++ (new ∷ after))
update-IsAlone [] after old new same (h, hs) =
    (subst (λ n. All (λ (y : Pool). n ≢ y.namespace) after) (sym same) h, hs)
update-IsAlone (x ∷ before) after old new same (h, hs) = (
  All-update (λ y. x.namespace ≢ y.namespace) before after old new
      (λ apart. subst (λ n. x.namespace ≢ n) (sym same) apart) h,
  update-IsAlone before after old new same hs,
)

delete-IsAlone :
    (before after : List Pool) (old : Pool)
    → IsAlone (before ++ (old ∷ after))
    → IsAlone (before ++ after)
delete-IsAlone [] after old (h, hs) = hs
delete-IsAlone (x ∷ before) after old (h, hs) = (
  All-delete (λ y. x.namespace ≢ y.namespace) before after old h,
  delete-IsAlone before after old hs,
)

create-IsAlone :
    (pools : List Pool) (req : Request) (m : String) (pool stored : Pool)
    → req.operation ≡ "CREATE"
    → req.object ≡ some pool
    → handle {E = String} (some (λ n. ok (in_namespace pools n))) req ≡ allowed m
    → stored.namespace ≡ request_namespace req pool
    → IsAlone pools
    → IsAlone (stored ∷ pools)
create-IsAlone pools req m pool stored creates decoded passed at alone =
    let list : String → Result String (List Pool) = λ n. ok (in_namespace pools n) in
    elim ((handle-allowed_iff list req).0 (m, passed)) [
      | inl other ↦ absurd (other creates)
      | inr first ↦
          let same : first.pool ≡ pool = cc (first.decoded, decoded) in
          let empty : in_namespace pools (request_namespace req first.pool) ≡ [] =
            cc first.listed in
          let there : in_namespace pools stored.namespace ≡ [] =
            subst (λ n. in_namespace pools n ≡ []) (sym at)
              (subst (λ q. in_namespace pools (request_namespace req q) ≡ []) same empty) in
          (none_of_select stored.namespace pools there, alone)
    ]

Step-IsAlone : {pools pools' : List Pool} → Step pools pools' → IsAlone pools → IsAlone pools'
Step-IsAlone (Step.create pools req m pool stored creates decoded passed at) alone =
    create-IsAlone pools req m pool stored creates decoded passed at alone
Step-IsAlone (Step.update before after old new same) alone =
    update-IsAlone before after old new same alone
Step-IsAlone (Step.delete before after old) alone = delete-IsAlone before after old alone

-- Where every creation of a pool asks the webhook, which is shown the pools that there are, whatever
-- pools are created, updated and deleted in whatever order: no two pools are of one namespace.
pub Reached-IsAlone : (pools : List Pool) → Reached pools → IsAlone pools
Reached-IsAlone [] Reached.start = tt
Reached-IsAlone pools' (Reached.then pools _ before step) =
    Step-IsAlone step (Reached-IsAlone pools before)
