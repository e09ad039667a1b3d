-- ===== src/Mavlink/Drone/Prearm.antt =====
-- run_prearm_checks.
use dankong.Prelude.{
  ℕ, zero, suc, ◌<◌, ◌≡◌, ◌⊎◌, inl, inr, refl, Bool, true, false, ◌||◌, List, ◌++◌, arith,
  replicate, Bool-cases,
}
use dankong.Prelude.Double.{Double}
use dankong.Core.{Mode, mode_eq}
use dankong.Mavlink.Sdk.{Call, Sdk}
use dankong.Mavlink.Drone.{
  VehicleType, set_mode, send_message, confirm_guided, prearm_command, trigger_checks, checks_of,
  run_prearm_checks,
}

-- None of the first n queries sees GUIDED.
unfoldable pub NeverGuided : (ℕ → Mode) → ℕ → Type 0
NeverGuided modes n = (j : ℕ) → j < n → mode_eq (modes j) Mode.offboard ≡ false

-- The first query that sees GUIDED is the one with index k, below n.
unfoldable pub IsFirst : (ℕ → Mode) → ℕ → ℕ → Type 0
IsFirst modes n k = (k < n) × (mode_eq (modes k) Mode.offboard ≡ true) × NeverGuided modes k

-- To put a query before those of a shifted telemetry.
before :
    (modes : ℕ → Mode) (n : ℕ)
    → mode_eq (modes 0) Mode.offboard ≡ false
    → NeverGuided (λ j. modes (suc j)) n
    → NeverGuided modes (suc n)
unfolding NeverGuided
before modes n g never zero lt = g
before modes n g never (suc j) lt = never j (omega arith)

module _ {F : Type 0} ⦃d : Double F⦄ where
  abbrev pub waits : ℕ → List (Call F)
  waits k = replicate k (Call.sleep_ms 100)

  -- A run is one of three: armed or in the air, the checks alone; else, behind the switch to GUIDED,
  -- the checks once the mode is seen, or none of them after 20 queries.
  unfoldable pub IsGuarded : Sdk F → VehicleType → Bool × List (Call F) → Type 0
  IsGuarded sdk v r =
      let switch = (set_mode sdk v Mode.offboard).1 in
      let checks = send_message sdk (prearm_command sdk) in
      (((sdk.armed || sdk.in_air) ≡ true) × (r ≡ checks))
      ⊎ (((sdk.armed || sdk.in_air) ≡ false)
          × (((k : ℕ) × IsFirst sdk.flight_mode 20 k
                × (r ≡ (checks.0, (switch ++ waits k) ++ checks.1)))
              ⊎ (NeverGuided sdk.flight_mode 20 × (r ≡ (false, switch ++ waits 20)))))

  confirm_guided-outcome :
      (n : ℕ) (modes : ℕ → Mode)
      → ((k : ℕ) × IsFirst modes n k × (confirm_guided n modes ≡ (true, waits k)))
        ⊎ (NeverGuided modes n × (confirm_guided n modes ≡ (false, waits n)))
  unfolding confirm_guided IsFirst NeverGuided
  confirm_guided-outcome zero modes = inr (λ j lt. absurd (omega arith), refl)
  confirm_guided-outcome (suc n) modes = elim (Bool-cases (mode_eq (modes 0) Mode.offboard)) [
    | inl g ↦ inl (0, (omega arith, g, λ j lt. absurd (omega arith)), rw g refl)
    | inr g ↦ elim (confirm_guided-outcome n (λ j. modes (suc j))) [
      | inl (k, (lt, seen, none_before), h) ↦
          inl (suc k, (omega arith, seen, before modes k g none_before), rw (g, h) refl)
      | inr (never, h) ↦ inr (before modes n g never, rw (g, h) refl)
    ]
  ]

  checks_of-IsGuarded :
      (sdk : Sdk F) (v : VehicleType) (b : Bool)
      → (sdk.armed || sdk.in_air) ≡ b
      → IsGuarded sdk v (checks_of b sdk v)
  unfolding checks_of IsGuarded trigger_checks
  checks_of-IsGuarded sdk v true h = inl (h, refl)
  checks_of-IsGuarded sdk v false h = elim (confirm_guided-outcome 20 sdk.flight_mode) [
    | inl (k, first, c) ↦ inr (h, inl (k, first, rw c refl))
    | inr (never, c) ↦ inr (h, inr (never, rw c refl))
  ]

  -- run_prearm_checks switches to GUIDED only on the ground and disarmed: armed or in the air its one
  -- call is the command that runs the checks. On the ground the checks are run behind as many pauses
  -- of 100 ms as there were queries before the first that saw GUIDED, and where none of 20 queries
  -- sees it, the function returns false and does not run them.
  pub run_prearm_checks-IsGuarded :
      (sdk : Sdk F) (v : VehicleType) → IsGuarded sdk v (run_prearm_checks sdk v)
  unfolding run_prearm_checks
  run_prearm_checks-IsGuarded sdk v = checks_of-IsGuarded sdk v (sdk.armed || sdk.in_air) refl
