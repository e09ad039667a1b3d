-- ===== src/Features/Pland/Controller/Lost.antt =====
-- on_step without fresh observations: the target is lost from the 21st step on.
use dankong.Prelude.{
  suc, ◌+◌, ◌≤◌, ◌≡◌, ◌∙◌, refl, true, false, none, some, Option, List, [], ◌∷◌, map, arith,
  if◌then◌else◌, ltb, length, Bool,
}
use dankong.Prelude.Double.{Double}
use dankong.Features.Pland.Types.{DetectorResult, PlandTarget, PlandConfig, PlandSensed, Output}
use dankong.Features.Pland.Controller.{
  PlandController, height, on_start, is_unset, is_stale, count_stale, lost_enu, lost_visual,
  lost_step, servo_step, land_phase, land_step, guided_step, on_step,
}

-- The time that has passed, and what is sensed.
abbrev pub Tick : Type 0 → Type 0
Tick F = F × PlandSensed F

module _ {F : Type 0} ⦃d : Double F⦄ where
  unfoldable pub fly : PlandConfig F → List (Tick F) → PlandController F → PlandController F
  fly cfg [] c = c
  fly cfg ((dt, s) ∷ ts) c = fly cfg ts (on_step cfg dt s c).0

  -- The calls of each step.
  unfoldable pub outputs :
      PlandConfig F → List (Tick F) → PlandController F → List (List (Output F))
  outputs cfg [] c = []
  outputs cfg ((dt, s) ∷ ts) c = let (c', calls) = on_step cfg dt s c in calls ∷ outputs cfg ts c'

  -- In no step is the observation fresh, and no target is injected.
  unfoldable pub AllStale : DetectorResult F → List (Tick F) → Type 0
  AllStale obs [] = Unit
  AllStale obs ((dt, s) ∷ ts) = (is_stale s obs ≡ true) × (s.pland_target ≡ none) × AllStale obs ts

  -- The calls for a lost target, in a blind drop or not.
  unfoldable pub lost_calls : PlandConfig F → Bool → Tick F → List (Output F)
  lost_calls cfg blind (dt, s) =
      if cfg.pure_vision then lost_visual cfg (height cfg s) blind else lost_enu cfg s blind

  -- One step with a stale observation.
  record IsCounted (c c' : PlandController F) : Type 0 where
    counted : c'.invalid_time ≡ suc c.invalid_time
    seen : c'.latest_obs ≡ c.latest_obs

  servo_step-kept :
      (cfg : PlandConfig F) (dt : F) (s : PlandSensed F) (z dz : F) (c : PlandController F)
      (p : Bool)
      → (let (c', _) = servo_step cfg dt s z dz c p in
          (c'.invalid_time ≡ c.invalid_time) × (c'.latest_obs ≡ c.latest_obs))
  unfolding servo_step
  servo_step-kept cfg dt s z dz c true = (refl, refl)
  servo_step-kept cfg dt s z dz c false = (refl, refl)

  lost_step-kept :
      (cfg : PlandConfig F) (s : PlandSensed F) (z : F) (c : PlandController F) (p : Bool)
      → (let (c', calls) = lost_step cfg s z c p in
          (c'.invalid_time ≡ c.invalid_time)
          × (c'.latest_obs ≡ c.latest_obs)
          × (c'.is_blind_drop ≡ c.is_blind_drop)
          × (calls
              ≡ (if p then lost_visual cfg z c.is_blind_drop else lost_enu cfg s c.is_blind_drop)))
  unfolding lost_step
  lost_step-kept cfg s z c true = (refl, refl, refl, refl)
  lost_step-kept cfg s z c false = ground arith

  land_phase-kept :
      (cfg : PlandConfig F) (dt : F) (s : PlandSensed F) (c : PlandController F) (lost : Bool)
      → (let (c', _) = land_phase cfg dt s c false lost in
          (c'.invalid_time ≡ c.invalid_time) × (c'.latest_obs ≡ c.latest_obs))
  unfolding land_phase
  land_phase-kept cfg dt s c true =
      let (n, o, _, _) = lost_step-kept cfg s (height cfg s) c cfg.pure_vision in (n, o)
  land_phase-kept cfg dt s c false = servo_step-kept cfg dt s _ _ c cfg.pure_vision

  count_stale-suc :
      (s : PlandSensed F) (c : PlandController F)
      → is_stale s c.latest_obs ≡ true
      → (count_stale s c).invalid_time ≡ suc c.invalid_time
  unfolding count_stale
  count_stale-suc s c h = rw h

  count_stale-kept :
      (s : PlandSensed F) (c : PlandController F)
      → ((count_stale s c).latest_obs ≡ c.latest_obs)
        × ((count_stale s c).is_blind_drop ≡ c.is_blind_drop)
  unfolding count_stale
  count_stale-kept s c = (refl, refl)

  land_step-stale :
      (cfg : PlandConfig F) (dt : F) (s : PlandSensed F) (c : PlandController F)
      → is_unset c.latest_obs ≡ false
      → is_stale s c.latest_obs ≡ true
      → IsCounted c (land_step cfg dt s c).0
  unfolding land_step
  land_step-stale cfg dt s c u h =
      let (n, o) =
        land_phase-kept cfg dt s (count_stale s c) (ltb 20 (count_stale s c).invalid_time) in
      let (seen, _) = count_stale-kept s c in
      rw u (record { counted = n ∙ count_stale-suc s c h; seen = o ∙ seen })

  guided_step-stale :
      (cfg : PlandConfig F) (dt : F) (s : PlandSensed F) (c : PlandController F)
      (o : Option (PlandTarget F))
      → is_unset c.latest_obs ≡ false
      → is_stale s c.latest_obs ≡ true
      → o ≡ none
      → IsCounted c (guided_step cfg dt s c o).0
  unfolding guided_step
  guided_step-stale cfg dt s c none u h t = land_step-stale cfg dt s c u h
  guided_step-stale cfg dt s c (some _) u h t = cc

  on_step-stale :
      (cfg : PlandConfig F) (dt : F) (s : PlandSensed F) (c : PlandController F)
      → is_unset c.latest_obs ≡ false
      → is_stale s c.latest_obs ≡ true
      → s.pland_target ≡ none
      → IsCounted c (on_step cfg dt s c).0
  unfolding on_step
  on_step-stale cfg dt s c u h t = guided_step-stale cfg dt s c s.pland_target u h t

  abbrev IsLost :
      PlandConfig F
      → F
      → PlandSensed F
      → PlandController F
      → PlandController F × List (Output F)
      → Type 0
  IsLost cfg dt s c r =
      (r.0.is_blind_drop ≡ c.is_blind_drop) × (r.1 ≡ lost_calls cfg c.is_blind_drop (dt, s))

  land_step-IsLost :
      (cfg : PlandConfig F) (dt : F) (s : PlandSensed F) (c : PlandController F)
      → 20 ≤ c.invalid_time
      → is_unset c.latest_obs ≡ false
      → is_stale s c.latest_obs ≡ true
      → IsLost cfg dt s c (land_step cfg dt s c)
  unfolding land_step land_phase lost_calls count_stale
  land_step-IsLost cfg dt s c n u h =
      let lost : ltb 20 (count_stale s c).invalid_time ≡ true =
        ground (arith, count_stale-suc s c h) in
      let (_, _, b, calls) =
        lost_step-kept cfg s (height cfg s) (count_stale s c) cfg.pure_vision in
      rw (u, lost) (b, calls)

  guided_step-IsLost :
      (cfg : PlandConfig F) (dt : F) (s : PlandSensed F) (c : PlandController F)
      (o : Option (PlandTarget F))
      → 20 ≤ c.invalid_time
      → is_unset c.latest_obs ≡ false
      → is_stale s c.latest_obs ≡ true
      → o ≡ none
      → IsLost cfg dt s c (guided_step cfg dt s c o)
  unfolding guided_step
  guided_step-IsLost cfg dt s c none n u h t = land_step-IsLost cfg dt s c n u h
  guided_step-IsLost cfg dt s c (some _) n u h t = cc

  on_step-IsLost :
      (cfg : PlandConfig F) (dt : F) (s : PlandSensed F) (c : PlandController F)
      → 20 ≤ c.invalid_time
      → is_unset c.latest_obs ≡ false
      → is_stale s c.latest_obs ≡ true
      → s.pland_target ≡ none
      → IsLost cfg dt s c (on_step cfg dt s c)
  unfolding on_step
  on_step-IsLost cfg dt s c n u h t = guided_step-IsLost cfg dt s c s.pland_target n u h t

  outputs-lost :
      (cfg : PlandConfig F) (ts : List (Tick F)) (c : PlandController F)
      → 20 ≤ c.invalid_time
      → is_unset c.latest_obs ≡ false
      → AllStale c.latest_obs ts
      → outputs cfg ts c ≡ map (lost_calls cfg c.is_blind_drop) ts
  unfolding outputs AllStale
  outputs-lost cfg [] c n u h = refl
  outputs-lost cfg ((dt, s) ∷ ts) c n u (h, t, hs) =
      let c' = (on_step cfg dt s c).0 in
      let (b, calls) = on_step-IsLost cfg dt s c n u h t in
      let k = on_step-stale cfg dt s c u h t in
      let rest =
        outputs-lost cfg ts c' (omega (arith, k.counted)) (rw (k.seen) u) (rw (k.seen) hs) in
      rw (calls, rest, b) refl

  fly-counted :
      (cfg : PlandConfig F) (ts : List (Tick F)) (c : PlandController F)
      → is_unset c.latest_obs ≡ false
      → AllStale c.latest_obs ts
      → ((fly cfg ts c).invalid_time ≡ length ts + c.invalid_time)
        × ((fly cfg ts c).latest_obs ≡ c.latest_obs)
  unfolding fly AllStale
  fly-counted cfg [] c u h = (omega arith, refl)
  fly-counted cfg ((dt, s) ∷ ts) c u (h, t, hs) =
      let c' = (on_step cfg dt s c).0 in
      let k = on_step-stale cfg dt s c u h t in
      let (n, o) = fly-counted cfg ts c' (rw (k.seen) u) (rw (k.seen) hs) in
      (omega (arith, n, k.counted), o ∙ k.seen)

  -- With a first observation made and no target injected: behind 20 steps without a fresh
  -- observation, every further one holds, climbs or goes on with the blind drop as the mark of the
  -- drop then is, until an observation is fresh; none servoes.
  pub stale-lost :
      (cfg : PlandConfig F) (first later : List (Tick F)) (c : PlandController F)
      → 20 ≤ length first
      → is_unset c.latest_obs ≡ false
      → AllStale c.latest_obs first
      → AllStale c.latest_obs later
      → outputs cfg later (fly cfg first c)
        ≡ map (lost_calls cfg (fly cfg first c).is_blind_drop) later
  stale-lost cfg first later c n u h k =
      let (m, o) = fly-counted cfg first c u h in
      outputs-lost cfg later (fly cfg first c) (omega (arith, m, n)) (rw o u) (rw o k)

  -- A start keeps the counter of stale steps and the mark of a blind drop: where the target was lost
  -- before, each step without a fresh observation goes on with the drop of the landing before, at
  -- whatever height the robot now is.
  pub on_start-lost :
      (cfg : PlandConfig F) (s : PlandSensed F) (ts : List (Tick F)) (c : PlandController F)
      → 20 ≤ c.invalid_time
      → is_unset c.latest_obs ≡ false
      → AllStale c.latest_obs ts
      → outputs cfg ts (on_start s c) ≡ map (lost_calls cfg c.is_blind_drop) ts
  unfolding on_start
  on_start-lost cfg s ts c n u h = outputs-lost cfg ts (on_start s c) n u h
