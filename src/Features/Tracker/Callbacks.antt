-- ===== src/Features/Tracker/Callbacks.antt =====
-- The ids of the callbacks that limit the speed.
use Prim.Native.String.{String}
use dankong.Prelude.{
  ℕ, ◌<◌, ◌≡◌, refl, Option, some, List, [], ◌∷◌, ◌++◌, arith, Option-cases, get_elem?, inl, inr,
}
use dankong.Prelude.Double.{Double}
use dankong.Features.Tracker.Types.{LimitCb, TrackerConfig, Sensed, Tracker}
use dankong.Features.Tracker.Activate.{apply_current_waypoint, activate}
use dankong.Features.Tracker.Mailbox.{with_cb, erase_cb, add_speed_limit_cb, remove_speed_limit_cb}

module _ {F : Type 0} where
  -- Every id was given out before.
  unfoldable pub IsGiven : ℕ → List (LimitCb F) → Type 0
  IsGiven seq [] = Unit
  IsGiven seq (c ∷ cbs) = (c.id < seq) × IsGiven seq cbs

  pub erase_cb-last :
      (seq : ℕ) (cbs : List (LimitCb F)) (c : LimitCb F)
      → IsGiven seq cbs
      → c.id ≡ seq
      → erase_cb seq (cbs ++ (c ∷ [])) ≡ some cbs
  unfolding erase_cb IsGiven
  erase_cb-last seq [] c g e = ground (arith, e)
  erase_cb-last seq (b ∷ cbs) c g e = ground (arith, g.0, erase_cb-last seq cbs c g.1 e)

module _ {F : Type 0} ⦃d : Double F⦄ where
  pub cbs-apply_current :
      (c : TrackerConfig F) (s : Sensed F) (t : Tracker F)
      → (apply_current_waypoint c s t).0.speed_limit_cbs ≡ t.speed_limit_cbs
  unfolding apply_current_waypoint activate
  cbs-apply_current c s t = elim (Option-cases (get_elem? t.target_waypoints t.current_wp_idx)) [
    | inl h ↦ rw (h, apply_current_waypoint) refl
    | inr (wp, h) ↦ rw (h, apply_current_waypoint) refl
  ]

  pub cbs-remove :
      (c : TrackerConfig F) (s : Sensed F) (id : ℕ) (t : Tracker F) (cbs : List (LimitCb F))
      → erase_cb id t.speed_limit_cbs ≡ some cbs
      → (remove_speed_limit_cb c s id t).0.speed_limit_cbs ≡ cbs
  unfolding remove_speed_limit_cb
  cbs-remove c s id t cbs h =
      rw (h, remove_speed_limit_cb) (cbs-apply_current c s (record t { speed_limit_cbs = cbs }))

  -- Where every id was given out by the tracker, a callback that is added, even while others are
  -- there, and removed again by the id that the call returned leaves the callbacks as they were.
  pub remove-add :
      (c : TrackerConfig F) (s s' : Sensed F) (name : String) (cb : F → Option F) (t : Tracker F)
      → IsGiven t.cb_seq t.speed_limit_cbs
      → (remove_speed_limit_cb c s'
          (add_speed_limit_cb c s name cb t).1
          (add_speed_limit_cb c s name cb t).0.0).0.speed_limit_cbs
        ≡ t.speed_limit_cbs
  unfolding add_speed_limit_cb
  remove-add c s s' name cb t g =
      cbs-remove c s' t.cb_seq (apply_current_waypoint c s (with_cb name cb t)).0 t.speed_limit_cbs
        (rw (cbs-apply_current c s (with_cb name cb t)) (
          erase_cb-last t.cb_seq t.speed_limit_cbs (record { id = t.cb_seq; name = name; cb = cb })
            g refl))
