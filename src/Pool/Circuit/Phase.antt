-- ===== src/Pool/Circuit/Phase.antt =====
-- The circuit breaker of one namespace as a machine of its own.
use astradns_operator.Base.{
  ℕ, ◌+◌, String, Bool, true, false, Option, none, some, leb, ltb, Result, ok, err, map_err, ◌≡◌,
  ◌≢◌, refl, eq_iff, eq_refl, arith, if◌then◌else◌, Bool-cases, Option-cases, inl, inr,
}
use astradns_operator.Dict.{get, remove, get-remove, get-put}
use astradns_operator.Pool.Circuit.{
  threshold, open_interval, Circuit, count_of, count_failure, UpsertError, circuit_open,
  write_failed, Clock, finish, upsert,
}

-- The failures in a row, and the deadline of an open circuit.
pub record Phase : Type 0 where
  pub failures : ℕ
  pub deadline : Option ℕ

abbrev pub phase : Circuit → String → Phase
phase c namespace = record {
  failures = count_of (get c.failure_counts namespace);
  deadline = get c.open_until namespace;
}

-- The deadline holds at this time.
abbrev pub holds_at : ℕ → Option ℕ → Bool
holds_at now none = false
holds_at now (some deadline) = leb now deadline

-- What an attempted write makes of the failures: success clears them, the third failure opens the
-- circuit and starts the count again.
abbrev pub after_write : ℕ → Bool → ℕ → Phase
after_write opened true failures = record { failures = 0; deadline = none }
after_write opened false failures =
    if leb threshold (failures + 1)
    then record { failures = 0; deadline = some (opened + open_interval) }
    else record { failures = failures + 1; deadline = none }

-- One call: nothing happens while the deadline holds, else the write is made.
abbrev pub next_phase : Clock → Bool → Phase → Phase
next_phase t succeeds ph =
    if holds_at t.asked ph.deadline then ph else after_write t.opened succeeds ph.failures

abbrev pub is_ok {ℓ κ} : {E : Type ℓ} {A : Type κ} → Result E A → Bool
is_ok (ok a) = true
is_ok (err e) = false

-- What the client of one call sees, from the machine's side.
abbrev pub reply {ℓ} :
    {E : Type ℓ} → Clock → Option ℕ → Result E (Unit {0}) → Result (UpsertError E) (Unit {0})
reply t none r = map_err write_failed r
reply t (some deadline) r =
    if leb t.asked deadline then err (circuit_open deadline) else map_err write_failed r

phase-finish :
    {E W : Type 0} (namespace : String) (t : Clock) (r : Result E (Unit {0})) (w : W) (c : Circuit)
    → get c.open_until namespace ≡ none
    → phase (finish namespace t (r, w) c).2 namespace
      ≡ after_write t.opened (is_ok r) (count_of (get c.failure_counts namespace))
unfolding finish
phase-finish namespace t (ok _) w c h = ground (
  arith,
  eq_refl namespace,
  get-remove c.open_until namespace namespace,
  get-remove c.failure_counts namespace namespace,
)
phase-finish namespace t (err e) w c h = ground (
  arith,
  eq_refl namespace,
  get-put c.open_until namespace namespace (t.opened + open_interval),
  get-put c.failure_counts namespace namespace 0,
  get-put c.failure_counts namespace namespace (count_of (get c.failure_counts namespace) + 1),
)

finish_reply :
    {E W : Type 0} (namespace : String) (t : Clock) (r : Result E (Unit {0})) (w : W) (c : Circuit)
    → ((finish namespace t (r, w) c).0 ≡ map_err write_failed r)
      × ((finish namespace t (r, w) c).1 ≡ w)
unfolding finish
finish_reply namespace t (ok _) w c = (refl, refl)
finish_reply namespace t (err e) w c = (refl, refl)

count_failure_other :
    (namespace other : String) (now : ℕ) (c : Circuit)
    → namespace ≢ other
    → phase (count_failure namespace now c) other ≡ phase c other
unfolding count_failure
count_failure_other namespace other now c h = ground (
  arith,
  eq_iff namespace other,
  get-put c.open_until namespace other (now + open_interval),
  get-put c.failure_counts namespace other 0,
  get-put c.failure_counts namespace other (count_of (get c.failure_counts namespace) + 1),
)

finish_other :
    {E W : Type 0} (namespace other : String) (t : Clock) (r : Result E (Unit {0})) (w : W)
    (c : Circuit)
    → namespace ≢ other
    → phase (finish namespace t (r, w) c).2 other ≡ phase c other
unfolding finish
finish_other namespace other t (ok _) w c h = ground (
  arith,
  eq_iff namespace other,
  get-remove c.open_until namespace other,
  get-remove c.failure_counts namespace other,
)
finish_other namespace other t (err e) w c h =
    let c' : Circuit = record c { open_until = remove c.open_until namespace } in
    ground (
      arith,
      eq_iff namespace other,
      get-remove c.open_until namespace other,
      count_failure_other namespace other t.opened c,
      count_failure_other namespace other t.opened c',
    )

module _ {E W : Type 0} (write : W → Result E (Unit {0}) × W) (namespace : String) (t : Clock)
    (w : W) (c : Circuit) where
  -- A call acts on its namespace as a machine of failures in a row and a deadline: while the
  -- deadline holds it is refused with that and nothing is written, else its result is the write's,
  -- a success clears the machine, and the third failure sets a deadline thirty seconds on.
  pub upsert-phase :
      (phase (upsert write namespace t w c).2 namespace
        ≡ next_phase t (is_ok (write w).0) (phase c namespace))
      × ((upsert write namespace t w c).0 ≡ reply t (phase c namespace).deadline (write w).0)
      × ((upsert write namespace t w c).1
          ≡ (if holds_at t.asked (phase c namespace).deadline then w else (write w).1))
  unfolding upsert
  upsert-phase = elim (Option-cases (get c.open_until namespace)) [
    | inl closed ↦ ground (
      arith,
      closed,
      phase-finish namespace t (write w).0 (write w).1 c closed,
      finish_reply namespace t (write w).0 (write w).1 c,
    )
    | inr (deadline, opened) ↦ elim (Bool-cases (ltb deadline t.asked)) [
      | inl expired ↦
          let c' : Circuit = record c { open_until = remove c.open_until namespace } in
          let closed : get c'.open_until namespace ≡ none =
            rw get-remove (rw (eq_refl namespace)) in
          ground (
            arith,
            opened,
            expired,
            phase-finish namespace t (write w).0 (write w).1 c' closed,
            finish_reply namespace t (write w).0 (write w).1 c',
          )
      | inr holding ↦ ground (arith, opened, holding)
    ]
  ]

  -- A call leaves the phase of every other namespace as it was.
  pub upsert_other :
      (other : String)
      → namespace ≢ other
      → phase (upsert write namespace t w c).2 other ≡ phase c other
  unfolding upsert
  upsert_other other h = elim (Option-cases (get c.open_until namespace)) [
    | inl closed ↦ ground (arith, closed, finish_other namespace other t (write w).0 (write w).1 c)
    | inr (deadline, opened) ↦
        let c' : Circuit = record c { open_until = remove c.open_until namespace } in
        ground (
          arith,
          opened,
          eq_iff namespace other,
          get-remove c.open_until namespace other,
          finish_other namespace other t (write w).0 (write w).1 c',
        )
  ]
