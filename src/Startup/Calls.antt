-- ===== src/Startup/Calls.antt =====
-- Which calls a start makes, in which order, and where it ends.
use astradns_operator.Base.{
  String, Bool, false, ◌==◌, Option, none, some, List, [], ◌∷◌, ◌++◌, any, Result, ok, err, ◌≡◌,
  ◌⊎◌, refl, sym, ap, subst, inl, inr, arith, if◌then◌else◌, Result-cases, Bool-cases, eq_iff,
}
use astradns_operator.Text.{trim_space}
use astradns_operator.Startup.{
  Flags, Call, get_config, new_manager, new_renderer, set_up_pools, set_up_profiles,
  set_up_policies, set_up_webhook, add_healthz_check, add_readyz_check, start, Variables,
  manager_options, engine_type, parse_bool, is_pool_uniqueness_webhook_enabled, attempt,
  set_up_webhook_if, main,
}

-- The spellings that turn the webhook on.
abbrev pub is_true : String → Bool
is_true text = any (λ t. text == t) ("1" ∷ "t" ∷ "T" ∷ "true" ∷ "TRUE" ∷ "True" ∷ [])

-- The calls of a start that meets no error, in their order.
abbrev pub calls : String → Flags → Variables → List Call
calls unbound flags variables =
    (get_config
      ∷ new_manager (manager_options flags)
      ∷ new_renderer (if variables.engine == "" then unbound else variables.engine)
      ∷ set_up_pools
      ∷ set_up_profiles
      ∷ set_up_policies
      ∷ [])
    ++ (if is_true (trim_space variables.webhook) then set_up_webhook ∷ [] else [])
    ++ (add_healthz_check ∷ add_readyz_check ∷ start ∷ [])

enabled-is_true :
    (variable : String)
    → is_pool_uniqueness_webhook_enabled variable ≡ is_true (trim_space variable)
unfolding is_pool_uniqueness_webhook_enabled parse_bool any
enabled-is_true variable =
    let value = trim_space variable in
    elim (Bool-cases (value == "")) [
      | inl blank ↦
          let at : value ≡ "" = ground (arith, blank, eq_iff value "") in
          let none_true : is_true value ≡ false = subst (λ v. is_true v ≡ false) (sym at) refl in
          ground (arith, blank, none_true)
      | inr given ↦ ground (arith, given, Bool-cases (is_true value))
    ]

module _ {E W : Type 0} (perform : Call → W → Result E (Unit {0}) × W) where
  -- The calls succeed one after the other, from the first world to the second.
  abbrev pub Passes : List Call → W → W → Type 0
  Passes [] w w' = w ≡ w'
  Passes (call ∷ rest) w w' = ((perform call w).0 ≡ ok tt) × Passes rest (perform call w).1 w'

  -- One call after the other until one fails.
  abbrev run_calls : List Call → W → Option Call × W
  run_calls [] w = (none, w)
  run_calls (call ∷ rest) w = attempt perform call (run_calls rest) w

  -- Either all calls succeeded, or the process ended at a call that failed after those before it
  -- succeeded.
  abbrev pub Ends : List Call → W → Option Call × W → Type 0
  Ends list w (stopped, w') =
      ((stopped ≡ none) × Passes list w w')
      ⊎ ((before : List Call) × (call : Call) × (after : List Call) × (list
            ≡ before ++ (call ∷ after))
          × (stopped ≡ some call)
          × (between : W) × Passes before w between
          × (e : E) × (perform call between ≡ (err e, w')))

  run_calls-Ends : (list : List Call) (w : W) → Ends list w (run_calls list w)
  unfolding attempt
  run_calls-Ends [] w = inl (refl, refl)
  run_calls-Ends (call ∷ rest) w = elim (Result-cases (perform call w).0) [
    | inr (e, failed) ↦
        let ends : run_calls (call ∷ rest) w ≡ (some call, (perform call w).1) =
          ground (arith, failed) in
        subst (Ends (call ∷ rest) w) (sym ends)
          (inr ([], call, rest, refl, refl, w, refl, e, ap (λ r. (r, (perform call w).1)) failed))
    | inl (u, passed) ↦
        let goes : run_calls (call ∷ rest) w ≡ run_calls rest (perform call w).1 =
          ground (arith, passed) in
        subst (Ends (call ∷ rest) w) (sym goes) (elim (run_calls-Ends rest (perform call w).1) [
          | inl (finished, passes) ↦ inl (finished, (passed, passes))
          | inr (before, c, after, split, stopped, between, passes, e, failed) ↦ inr (
            call ∷ before,
            c,
            after,
            ap (λ l. call ∷ l) split,
            stopped,
            between,
            (passed, passes),
            e,
            failed,
          )
        ])
  ]

  main-run_calls :
      (unbound : String) (flags : Flags) (variables : Variables) (w : W)
      → main perform unbound flags variables w ≡ run_calls (calls unbound flags variables) w
  unfolding main engine_type set_up_webhook_if
  main-run_calls unbound flags variables w =
      let same = enabled-is_true variables.webhook in
      elim (Bool-cases (is_true (trim_space variables.webhook))) [
        | inl on ↦ rw (main, same, on) refl
        | inr off ↦ rw (main, same, off) refl
      ]

  -- A start makes its calls in their order, the registration of the webhook among them exactly if
  -- the variable, trimmed, is one of the six spellings of true, and it ends with the manager's
  -- return after all calls succeeded, or at the first that fails, without a further call.
  pub main-Ends :
      (unbound : String) (flags : Flags) (variables : Variables) (w : W)
      → Ends (calls unbound flags variables) w (main perform unbound flags variables w)
  main-Ends unbound flags variables w =
      subst (Ends (calls unbound flags variables) w)
        (sym (main-run_calls unbound flags variables w))
        (run_calls-Ends (calls unbound flags variables) w)
