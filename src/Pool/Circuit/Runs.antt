-- ===== src/Pool/Circuit/Runs.antt =====
-- What the circuit breaker does over several calls for one namespace.
use astradns_operator.Base.{
  ℕ, ◌+◌, ◌≤◌, ◌<◌, String, Bool, true, false, none, some, List, [], ◌∷◌, Result, err, ◌≡◌, arith,
  ◌∙◌, ap, subst, sym,
}
use astradns_operator.Pool.Circuit.{threshold, open_interval, Circuit, circuit_open, Clock, upsert}
use astradns_operator.Pool.Circuit.Phase.{Phase, phase, next_phase, is_ok, upsert-phase}

module _ {E W : Type 0} (write : W → Result E (Unit {0}) × W) (namespace : String) where
  -- Calls at the given times, one after the other.
  abbrev pub calls : List Clock → W → Circuit → W × Circuit
  calls [] w c = (w, c)
  calls (t ∷ ts) w c = let (_, w', c') = upsert write namespace t w c in calls ts w' c'

  pub next_phase_bound :
      (t : Clock) (b : Bool) (ph : Phase)
      → ph.failures < threshold
      → (next_phase t b ph).failures < threshold
  next_phase_bound t true ph h = ground arith
  next_phase_bound t false ph h = ground arith

  -- Where fewer than three failures are on the count of a namespace, so it is after any calls.
  pub calls_bound :
      (ts : List Clock) (w : W) (c : Circuit)
      → (phase c namespace).failures < threshold
      → (phase (calls ts w c).1 namespace).failures < threshold
  calls_bound [] w c h = h
  calls_bound (t ∷ ts) w c h =
      let step = (upsert-phase write namespace t w c).0 in
      calls_bound ts (upsert write namespace t w c).1 (upsert write namespace t w c).2 (
        subst (λ ph. ph.failures < threshold) (sym step)
          (next_phase_bound t (is_ok (write w).0) (phase c namespace) h))

  failing_step :
      (t : Clock) (w : W) (c : Circuit) (ph : Phase)
      → is_ok (write w).0 ≡ false
      → phase c namespace ≡ ph
      → phase (upsert write namespace t w c).2 namespace ≡ next_phase t false ph
  failing_step t w c ph fails start =
      (upsert-phase write namespace t w c).0
      ∙ ap (λ b. next_phase t b (phase c namespace)) fails
      ∙ ap (next_phase t false) start

  refused_step :
      (t : Clock) (w : W) (c : Circuit) (deadline : ℕ)
      → t.asked ≤ deadline
      → (phase c namespace).deadline ≡ some deadline
      → ((upsert write namespace t w c).0 ≡ err (circuit_open deadline))
        × ((upsert write namespace t w c).1 ≡ w)
  refused_step t w c deadline h e = ground (arith, upsert-phase write namespace t w c)

  -- Where every write fails and the circuit is closed with no failure on its count, it is closed
  -- with two failures after two calls, and after the third, until thirty seconds have passed, a
  -- further call is refused with that deadline and writes nothing.
  pub third_failure_opens :
      (s t u v : Clock) (w : W) (c : Circuit)
      → ((x : W) → is_ok (write x).0 ≡ false)
      → phase c namespace ≡ record { failures = 0; deadline = none }
      → v.asked ≤ u.opened + open_interval
      → let (w', c') = calls (s ∷ t ∷ u ∷ []) w c in
        ((upsert write namespace v w' c').0 ≡ err (circuit_open (u.opened + open_interval)))
        × ((upsert write namespace v w' c').1 ≡ w')
        × (phase (calls (s ∷ t ∷ []) w c).1 namespace ≡ record { failures = 2; deadline = none })
  third_failure_opens s t u v w c fails start h =
      let (w₁, c₁) = calls (s ∷ []) w c in
      let (w₂, c₂) = calls (s ∷ t ∷ []) w c in
      let (w₃, c₃) = calls (s ∷ t ∷ u ∷ []) w c in
      let one = failing_step s w c _ (fails w) start in
      let two = failing_step t w₁ c₁ _ (fails w₁) one in
      let three = failing_step u w₂ c₂ _ (fails w₂) two in
      let (refused, unwritten) =
        refused_step v w₃ c₃ _ h (ap (λ (ph : Phase). ph.deadline) three) in
      (refused, unwritten, two)
