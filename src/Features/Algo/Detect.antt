-- ===== src/Features/Algo/Detect.antt =====
-- The speed limit of the detection, over the requests that switch it on and off.
use Prim.Native.String.{String}
use dankong.Prelude.{
  ℕ, suc, ◌<◌, ◌≡◌, ◌⊎◌, inl, inr, refl, ap, ◌∙◌, Option, none, some, List, [], ◌∷◌, ◌++◌, arith,
  Option-cases, get_elem?,
}
use dankong.Prelude.Double.{Double}
use dankong.Core.{Context}
use dankong.Features.Tracker.Types.{LimitCb, Tracker, TrackerConfig, Sensed}
use dankong.Features.Tracker.Activate.{activate, apply_current_waypoint}
use dankong.Features.Tracker.Mailbox.{with_cb, erase_cb, add_speed_limit_cb, remove_speed_limit_cb}
use dankong.Features.Tracker.Callbacks.{IsGiven, cbs-apply_current, cbs-remove, erase_cb-last}
use dankong.Features.Algo.{
  Detection, find_type, release, limit_speed, on_enable_detect, on_disable_detect,
}

module _ {F : Type 0} where
  -- Beside the callbacks of others, `base`, the tracker has exactly the one of the token, if there is
  -- a token.
  unfoldable pub IsHolding : List (LimitCb F) → Detection F → Type 0
  IsHolding base det =
      IsGiven det.tracker.cb_seq base
      × (((det.token ≡ none) × (det.tracker.speed_limit_cbs ≡ base))
          ⊎ ((c : LimitCb F) × (det.token ≡ some c.id)
              × (c.id < det.tracker.cb_seq)
              × IsGiven c.id base
              × (det.tracker.speed_limit_cbs ≡ base ++ (c ∷ []))))

module _ {F : Type 0} ⦃d : Double F⦄ where
  seq-apply_current :
      (c : TrackerConfig F) (s : Sensed F) (t : Tracker F)
      → (apply_current_waypoint c s t).0.cb_seq ≡ t.cb_seq
  unfolding apply_current_waypoint activate
  seq-apply_current c s t = elim (Option-cases (get_elem? t.target_waypoints t.current_wp_idx)) [
    | inl h ↦ rw (h, apply_current_waypoint) refl
    | inr (wp, h) ↦ rw (h, apply_current_waypoint) refl
  ]

  seq-remove :
      (c : TrackerConfig F) (s : Sensed F) (id : ℕ) (t : Tracker F)
      → (remove_speed_limit_cb c s id t).0.cb_seq ≡ t.cb_seq
  unfolding remove_speed_limit_cb
  seq-remove c s id t = elim (Option-cases (erase_cb id t.speed_limit_cbs)) [
    | inl h ↦ rw (h, remove_speed_limit_cb) refl
    | inr (cbs, h) ↦
        rw (h, remove_speed_limit_cb) (seq-apply_current c s (record t { speed_limit_cbs = cbs }))
  ]

  -- What is left once the token is released.
  release-base :
      (c : TrackerConfig F) (s : Sensed F) (base : List (LimitCb F)) (det : Detection F)
      → IsHolding base det
      → ((release c s det).token ≡ none)
        × ((release c s det).tracker.speed_limit_cbs ≡ base)
        × IsGiven (release c s det).tracker.cb_seq base
  unfolding release IsHolding
  release-base c s base det (g, inl (n, e)) = rw (n, release) (n, e, g)
  release-base c s base det (g, inr (k, n, l, gk, e)) =
      rw (n, release)
        (
          refl,
          cbs-remove c s k.id det.tracker base (rw e (erase_cb-last k.id base k gk refl)),
          rw (seq-remove c s k.id det.tracker) g,
        )

  release-IsHolding :
      (c : TrackerConfig F) (s : Sensed F) (base : List (LimitCb F)) (det : Detection F)
      → IsHolding base det
      → IsHolding base (release c s det)
  unfolding IsHolding
  release-IsHolding c s base det h = let (n, e, g) = release-base c s base det h in (g, inl (n, e))

  IsGiven-suc : (n : ℕ) (base : List (LimitCb F)) → IsGiven n base → IsGiven (suc n) base
  unfolding IsGiven
  IsGiven-suc n [] g = g
  IsGiven-suc n (c ∷ base) g = (omega (arith, g.0), IsGiven-suc n base g.1)

  limit_speed-IsHolding :
      (c : TrackerConfig F) (s : Sensed F) (speed : F → F) (base : List (LimitCb F))
      (det : Detection F)
      → IsHolding base det
      → IsHolding base (limit_speed c s speed det)
  unfolding limit_speed add_speed_limit_cb IsHolding
  limit_speed-IsHolding c s speed base det h =
      let (n, e, g) = release-base c s base det h in
      let old = (release c s det).tracker in
      let cb : F → Option F = λ now. some (speed now) in
      let q = seq-apply_current c s (with_cb "detect" cb old) in
      let own : LimitCb F = record { id = old.cb_seq; name = "detect"; cb = cb } in
      (
        rw q (IsGiven-suc old.cb_seq base g),
        inr (
          own,
          refl,
          omega (arith, q),
          g,
          cbs-apply_current c s (with_cb "detect" cb old) ∙ ap (λ x. x ++ (own ∷ [])) e,
        ),
      )

-- A request, with what the robot senses then: to detect a kind, or to stop.
pub data Request (F : Type 0) : Type 0 where
  enabled : Sensed F → String → Request F
  disabled : Sensed F → Request F

module _ {F : Type 0} ⦃d : Double F⦄ where
  unfoldable pub serve :
      TrackerConfig F
      → List (String × String)
      → (F → F)
      → Request F
      → Context F × Detection F
      → Context F × Detection F
  serve c detect_map speed (enabled s type) (ctx, det) =
      let (ctx', det', out) = on_enable_detect c s detect_map speed type ctx det in (ctx', det')
  serve c detect_map speed (disabled s) (ctx, det) =
      let (ctx', det', out) = on_disable_detect c s detect_map ctx det in (ctx', det')

  unfoldable pub serve_all :
      TrackerConfig F
      → List (String × String)
      → (F → F)
      → List (Request F)
      → Context F × Detection F
      → Context F × Detection F
  unfolding serve
  serve_all c detect_map speed [] s = s
  serve_all c detect_map speed (r ∷ rs) s =
      serve_all c detect_map speed rs (serve c detect_map speed r s)

  serve-IsHolding :
      (c : TrackerConfig F) (detect_map : List (String × String)) (speed : F → F)
      (base : List (LimitCb F)) (r : Request F) (ctx : Context F) (det : Detection F)
      → IsHolding base det
      → IsHolding base (serve c detect_map speed r (ctx, det)).1
  unfolding serve on_enable_detect on_disable_detect
  serve-IsHolding c detect_map speed base (enabled s type) ctx det h =
      elim (Option-cases (find_type detect_map type)) [
        | inl e ↦ rw (e, on_enable_detect) h
        | inr (param, e) ↦ rw (e, on_enable_detect) (limit_speed-IsHolding c s speed base det h)
      ]
  serve-IsHolding c detect_map speed base (disabled s) ctx det h = release-IsHolding c s base det h

  -- However often detection is switched on and off, for kinds that are known or not, the tracker has,
  -- beside the callbacks of others, exactly the callback of the token that is held, and none when no
  -- token is held: the speed limits of earlier detections do not pile up.
  pub serve_all-IsHolding :
      (c : TrackerConfig F) (detect_map : List (String × String)) (speed : F → F)
      (base : List (LimitCb F)) (rs : List (Request F)) (ctx : Context F) (det : Detection F)
      → IsHolding base det
      → IsHolding base (serve_all c detect_map speed rs (ctx, det)).1
  unfolding serve_all
  serve_all-IsHolding c detect_map speed base [] ctx det h = h
  serve_all-IsHolding c detect_map speed base (r ∷ rs) ctx det h =
      let next = serve c detect_map speed r (ctx, det) in
      serve_all-IsHolding c detect_map speed base rs next.0 next.1
        (serve-IsHolding c detect_map speed base r ctx det h)
