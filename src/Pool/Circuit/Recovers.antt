-- ===== src/Pool/Circuit/Recovers.antt =====
-- An open circuit lets a write through again.
use astradns_operator.Base.{
  ℕ, ◌+◌, ◌≤◌, ◌<◌, String, Bool, true, false, Option, none, some, List, [], ◌∷◌, Result, map_err,
  ◌≡◌, refl, sym, ◌∙◌, ap, subst, All, arith, if◌then◌else◌,
}
use astradns_operator.Pool.Circuit.{open_interval, Circuit, write_failed, Clock, upsert}
use astradns_operator.Pool.Circuit.Phase.{
  Phase, phase, holds_at, reply, next_phase, is_ok, upsert-phase,
}
use astradns_operator.Pool.Circuit.Runs.{calls}

-- The circuit is closed, or open for no longer than the interval from a time on.
abbrev pub IsSoon : ℕ → Option ℕ → Type 0
IsSoon now none = Unit
IsSoon now (some deadline) = deadline ≤ now + open_interval

next_phase-IsSoon :
    (now : ℕ) (t : Clock) (b : Bool) (ph : Phase)
    → t.opened ≤ now
    → IsSoon now ph.deadline
    → IsSoon now (next_phase t b ph).deadline
next_phase-IsSoon now t true ph past soon = ground (arith, past, soon)
next_phase-IsSoon now t false ph past soon = ground (arith, past, soon)

not_held :
    (now asked : ℕ) (o : Option ℕ)
    → now + open_interval < asked
    → IsSoon now o
    → holds_at asked o ≡ false
not_held now asked none later soon = refl
not_held now asked (some deadline) later soon = ground (arith, later, soon)

reply_free :
    {E : Type 0} (t : Clock) (o : Option ℕ) (r : Result E (Unit {0}))
    → holds_at t.asked o ≡ false
    → reply t o r ≡ map_err write_failed r
reply_free t none r free = refl
reply_free t (some deadline) r free = rw free refl

module _ {E W : Type 0} (write : W → Result E (Unit {0}) × W) (namespace : String) where
  calls-IsSoon :
      (now : ℕ) (ts : List Clock) (w : W) (c : Circuit)
      → All (λ (t : Clock). t.opened ≤ now) ts
      → IsSoon now (phase c namespace).deadline
      → IsSoon now (phase (calls write namespace ts w c).1 namespace).deadline
  calls-IsSoon now [] w c past soon = soon
  calls-IsSoon now (t ∷ ts) w c (past, later) soon =
      let step = (upsert-phase write namespace t w c).0 in
      calls-IsSoon now ts (upsert write namespace t w c).1 (upsert write namespace t w c).2 later (
        subst (λ (ph : Phase). IsSoon now ph.deadline) (sym step)
          (next_phase-IsSoon now t (is_ok (write w).0) (phase c namespace) past soon))

  -- Where the circuit of a namespace is closed, or opened no later than `now`, and calls follow with
  -- whatever results, of which none opens it later than `now` either: a call that asks more than thirty
  -- seconds after `now` makes its write, whose result and world it returns.
  pub calls-attempted :
      (now : ℕ) (ts : List Clock) (u : Clock) (w : W) (c : Circuit)
      → IsSoon now (phase c namespace).deadline
      → All (λ (t : Clock). t.opened ≤ now) ts
      → now + open_interval < u.asked
      → let (w', c') = calls write namespace ts w c in
        ((upsert write namespace u w' c').0 ≡ map_err write_failed (write w').0)
        × ((upsert write namespace u w' c').1 ≡ (write w').1)
  calls-attempted now ts u w c soon past later =
      let (w', c') = calls write namespace ts w c in
      let free =
        not_held now u.asked (phase c' namespace).deadline later
          (calls-IsSoon now ts w c past soon) in
      let (_, result, world) = upsert-phase write namespace u w' c' in
      (
        result ∙ reply_free u (phase c' namespace).deadline (write w').0 free,
        world ∙ ap (λ b. if b then w' else (write w').1) free,
      )
