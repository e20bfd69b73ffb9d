-- ===== src/Pool/Entry/Steady.antt =====
-- The text that runs converge to while the pools of a namespace and its profile stay as they are.
use mathlib.Core.List.{Mem, Perm, mem-cons_self, not-mem-nil}
use mathlib.Core.List.Perm
use mathlib.Core.Logic.Or
use mathlib.Core.List.{mem-cons}
use mathlib.Core.Bool.{Bool-set}
use astradns_operator.Base.{
  String, inl, inr, true, Option, none, some, List, [], ◌∷◌, any, Result, ◌≡◌, ◌⊎◌, ok, refl, sym,
  ◌∙◌, ap, subst, All, eq_refl, arith,
}
use astradns_operator.Base.Members.{All-mem, All-perm}
use astradns_operator.Platform.{Platform}
use astradns_operator.Text.{parse_int64}
use astradns_operator.Kube.{fetched}
use astradns_operator.Api.{Pool, Profile}
use astradns_operator.Pool.Select.{PoolSort, pool_less, select_active, initial_rv}
use astradns_operator.Pool.Select.Order.{
  IsStamped, IsStamped-prop, select_active-perm, cons_not-perm-nil,
}
use astradns_operator.Pool.Stamp.{ensure_initial_rv}
use astradns_operator.Pool.ConfigMap.{operator_namespace}
use astradns_operator.Pool.Reconcile.{
  Client, Pipeline, Environment, run_pipeline, default_cache_profile,
}
use astradns_operator.Pool.Reconcile.Writer.{has_pool, selected_is_active}
use astradns_operator.Pool.Entry.Spec.{View, Stays, Sets, SpecStep}

blank_is_no_number : parse_int64 "" ≡ none
unfolding parse_int64
blank_is_no_number = refl

-- A pool that has an initial resource version is not patched.
pub ensure_initial_rv-IsStamped :
    {E W : Type 0} (patch : Pool → W → Result E Pool × W) (q : Pool) (w : W)
    → IsStamped q
    → ensure_initial_rv patch q w ≡ (ok q, w)
unfolding ensure_initial_rv initial_rv
ensure_initial_rv-IsStamped patch q w stamped = ground (arith, stamped.1, blank_is_no_number)

has_pool-mem : (q : Pool) (l : List Pool) → Mem q l → has_pool q.name l ≡ true
unfolding any
has_pool-mem q [] member = absurd (not-mem-nil member)
has_pool-mem q (x ∷ l) member =
    Or.elim (Bool-set (has_pool q.name (x ∷ l)) true) (mem-cons.0 member)
      (λ e. ground (arith, eq_refl q.name, ap (λ (y : Pool). y.name) e))
      (λ later. ground (arith, has_pool-mem q l later))

sorted_is_active :
    (s : PoolSort) (l : List Pool) (q : Pool) (rest : List Pool)
    → s.sort pool_less l ≡ q ∷ rest
    → Mem q l × (q.name ≡ (select_active s l).name)
unfolding select_active
sorted_is_active s [] q rest sorted =
    absurd (cons_not-perm-nil (subst (λ k. Perm k []) sorted (s.sort-perm pool_less [])))
sorted_is_active s (x ∷ l) q rest sorted = (
  (Perm.mem_iff (s.sort-perm pool_less (x ∷ l))).0 (subst (Mem q) (sym sorted) mem-cons_self),
  rw sorted refl,
)

-- No two pools have one name.
abbrev pub IsNamed : List Pool → Type 0
IsNamed l = (a b : Pool) → Mem a l → Mem b l → a.name ≡ b.name → a ≡ b

module _ {E W : Type 0} (client : Client E W) (p : Platform) (sorter : PoolSort)
    (pipeline : Pipeline) (env : Environment) (namespace : String) (pools : List Pool)
    (profile : Option Profile) where
  -- What a world answers, where it does, is the pools, in some order, and the profile.
  pub record IsSteady (w : W) : Type 0 where
    pub listed : (l : List Pool) → client.list_pools w namespace ≡ ok l → Perm l pools
    pub got :
        (n : String) (q : Pool)
        → client.get_pool w namespace n ≡ fetched q
        → Mem q pools × (q.namespace ≡ namespace)
    pub looked_up :
        (g : Option Profile) → default_cache_profile client w namespace ≡ ok g → g ≡ profile

  module _ (stamped : All IsStamped pools) (named : IsNamed pools) (active : Pool)
      (member : Mem active pools) (selected : active.name ≡ (select_active sorter pools).name)
      (text : String) (made : run_pipeline pipeline active profile ≡ ok text) where
    -- A pool of a list of the pools that has the name of the selected one is the active pool.
    listed_is_active :
        (l : List Pool) (q : Pool)
        → Perm l pools
        → Mem q l
        → q.name ≡ (select_active sorter l).name
        → q ≡ active
    listed_is_active l q same there name =
        let one =
          select_active-perm sorter l pools (All-perm IsStamped-prop (Perm.symm same) stamped)
            same in
        named q active ((Perm.mem_iff same).0 there) member
          (name ∙ ap (λ r. r.name) one ∙ sym selected)

    made_of :
        (q : Pool) (g : Option Profile) (t : String)
        → q ≡ active
        → g ≡ profile
        → run_pipeline pipeline q g ≡ ok t
        → t ≡ text
    made_of q g t same given ran = cc

    pub SpecStep-settles :
        (n : String) (w : W) (before after : View)
        → IsSteady w
        → SpecStep client p sorter env pipeline
            (record { namespace = namespace; name = n })
            w
            before
            after
        → Stays before after
          ⊎ Sets env (operator_namespace env.pod_namespace namespace) (some text) before after
    SpecStep-settles n w before after steady (SpecStep.stay stays) = inl stays
    SpecStep-settles n w before after steady
          (SpecStep.publish found q w' l g t read stamps valid listed alone looked_up ran sets) =
        let (there, at) = steady.got n found read in
        let kept =
          ensure_initial_rv-IsStamped client.patch_pool found w
            (All-mem IsStamped-prop pools stamped there) in
        let same : found ≡ q = cc (sym kept ∙ stamps) in
        let still : w' ≡ w = cc (sym kept ∙ stamps) in
        let here : q.namespace ≡ namespace = ap (λ (x : Pool). x.namespace) (sym same) ∙ at in
        let shown : client.list_pools w namespace ≡ ok l = cc in
        let given : default_cache_profile client w namespace ≡ ok g = cc in
        let alike = steady.listed l shown in
        let within : Mem q l = (Perm.mem_iff alike).1 (subst (λ x. Mem x pools) same there) in
        let name =
          selected_is_active sorter l q.name (All-perm IsStamped-prop (Perm.symm alike) stamped)
            (has_pool-mem q l within) alone in
        let written =
          made_of q g t (listed_is_active l q alike within name) (steady.looked_up g given) ran in
        inr (
          subst
            (λ x. Sets env (operator_namespace env.pod_namespace namespace) (some x) before after)
            written
            (subst (λ m. Sets env (operator_namespace env.pod_namespace m) (some t) before after)
              here sets))
    SpecStep-settles n w before after steady
          (SpecStep.take_over l rest q g t gone listed sorted looked_up ran sets) =
        let (there, name) = sorted_is_active sorter l q rest sorted in
        let same = listed_is_active l q (steady.listed l listed) there name in
        let written = made_of q g t same (steady.looked_up g looked_up) ran in
        inr (
          subst
            (λ x. Sets env (operator_namespace env.pod_namespace namespace) (some x) before after)
            written sets)
    SpecStep-settles n w before after steady (SpecStep.withdraw gone listed sets) =
        absurd (not-mem-nil ((Perm.mem_iff (steady.listed [] listed)).1 member))
