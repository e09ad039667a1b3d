-- ===== src/Features/Tracker/Limits.antt =====
-- The speed limit that a waypoint and the callbacks set.
use dankong.Prelude.{
  ◌≡◌, refl, sym, ap, ◌∙◌, ◌⊎◌, inl, inr, false, Option, none, some, List, [], ◌∷◌, arith, value_or,
}
use dankong.Prelude.Double.{Double, IsOrdered, ◌<f◌, min}
use dankong.Core.{TrackerWaypoint}
use dankong.Features.Tracker.Types.{LimitCb, TrackerConfig}
use dankong.Features.Tracker.Activate.{undercut, lower, effective_limit}

module _ {F : Type 0} ⦃d : Double F⦄ where
  -- No value that a callback returns at the time is below the limit.
  unfoldable pub IsLower : F → F → LimitCb F → Type 0
  IsLower now limit c = (v : F) → c.cb now ≡ some v → (v <f limit) ≡ false

  unfoldable pub IsLowest : F → F → List (LimitCb F) → Type 0
  IsLowest now limit [] = Unit
  IsLowest now limit (c ∷ cbs) = IsLower now limit c × IsLowest now limit cbs

  -- A callback returns it at the time.
  unfoldable pub IsReturned : F → F → List (LimitCb F) → Type 0
  IsReturned now limit [] = ⊥
  IsReturned now limit (c ∷ cbs) = (c.cb now ≡ some limit) ⊎ IsReturned now limit cbs

  undercut-below :
      (o : IsOrdered F) (lim : Option F) (limit v : F)
      → (v <f limit) ≡ false
      → (v <f undercut lim limit) ≡ false
  undercut-below o none limit v h = h
  undercut-below o (some lim) limit v h = ground (arith, h, o.lt_trans v lim limit)

  undercut-own :
      (o : IsOrdered F) (lim : Option F) (limit v : F)
      → lim ≡ some v
      → (v <f undercut lim limit) ≡ false
  undercut-own o none limit v e = cc e
  undercut-own o (some lim) limit v e = ground (arith, e, o.lt_irrefl v)

  undercut-source :
      (lim : Option F) (limit : F)
      → (undercut lim limit ≡ limit) ⊎ (lim ≡ some (undercut lim limit))
  undercut-source none limit = inl refl
  undercut-source (some lim) limit = ground arith

  lower-below :
      (o : IsOrdered F) (now : F) (cbs : List (LimitCb F)) (limit v : F)
      → (v <f limit) ≡ false
      → (v <f lower now cbs limit) ≡ false
  unfolding lower
  lower-below o now [] limit v h = h
  lower-below o now (c ∷ cbs) limit v h =
      lower-below o now cbs (undercut (c.cb now) limit) v (undercut-below o (c.cb now) limit v h)

  lower-IsLowest :
      (o : IsOrdered F) (now : F) (cbs : List (LimitCb F)) (limit : F)
      → IsLowest now (lower now cbs limit) cbs
  unfolding lower IsLowest IsLower
  lower-IsLowest o now [] limit = ground arith
  lower-IsLowest o now (c ∷ cbs) limit =
      let next = undercut (c.cb now) limit in
      (
        λ v e. lower-below o now cbs next v (undercut-own o (c.cb now) limit v e),
        lower-IsLowest o now cbs next,
      )

  lower-IsReturned :
      (now : F) (cbs : List (LimitCb F)) (limit : F)
      → (lower now cbs limit ≡ limit) ⊎ IsReturned now (lower now cbs limit) cbs
  unfolding lower IsReturned
  lower-IsReturned now [] limit = inl refl
  lower-IsReturned now (c ∷ cbs) limit =
      elim (lower-IsReturned now cbs (undercut (c.cb now) limit)) [
        | inr r ↦ inr (inr r)
        | inl e ↦ elim (undercut-source (c.cb now) limit) [
          | inl u ↦ inl (e ∙ u)
          | inr u ↦ inr (inl (u ∙ ap some (sym e)))
        ]
      ]

  -- The minimum of the limit of the configuration, of the waypoint's own and of what the callbacks
  -- return.
  pub record IsMinimum (c : TrackerConfig F) (now : F) (cbs : List (LimitCb F))
      (wp : TrackerWaypoint F) (limit : F) : Type 0 where
    pub config : (c.max_vel_xy <f limit) ≡ false
    pub own : (v : F) → wp.fb_speed_limit_xy ≡ some v → (v <f limit) ≡ false
    pub callbacks : IsLowest now limit cbs
    pub source :
        (limit ≡ c.max_vel_xy) ⊎ (wp.fb_speed_limit_xy ≡ some limit) ⊎ IsReturned now limit cbs

  -- The speed limit of a waypoint is the minimum
  -- of the configured one, of its own, and of what the callbacks return when it is applied: none of
  -- them is below it, and it is one of them.
  pub effective_limit-IsMinimum :
      (o : IsOrdered F) (c : TrackerConfig F) (now : F) (cbs : List (LimitCb F))
      (wp : TrackerWaypoint F)
      → IsMinimum c now cbs wp (effective_limit c now cbs wp)
  unfolding effective_limit
  effective_limit-IsMinimum o c now cbs wp =
      let own = value_or wp.fb_speed_limit_xy c.max_vel_xy in
      let first = min own c.max_vel_xy in
      record {
        config =
            lower-below o now cbs first c.max_vel_xy (ground (arith, o.lt_irrefl c.max_vel_xy));
        own = λ v e.
            lower-below o now cbs first v
              (ground (arith, e, o.lt_irrefl v, o.lt_asymm c.max_vel_xy v));
        callbacks = lower-IsLowest o now cbs first;
        source = ground (arith, lower-IsReturned now cbs first);
      }
