-- ===== src/Features/Pland/Listener.antt =====
-- include/features/pland/event_listener.hpp: PlandEventListener. The detector's start and stop are
-- calls; what `stop` returns is an argument.
use Prim.Native.String.{String}
use dankong.Prelude.{Bool, Option, none, some, List, [], ◌∷◌, ◌++◌, if◌then◌else◌, value_or}
use dankong.Prelude.Vec.{Vec3, vec3}
use dankong.Prelude.Double.{Double}
use dankong.Core.{Context, Result, ok, or_throw, ◌>>=◌}
use dankong.StateUtils.{Utm, gps_to_enu}
use dankong.Features.Pland.Types.{PlandTarget}

pub record SetPlandTarget (F : Type 0) : Type 0 where
  pub position : Option (Vec3 F)
  pub velocity : Option (Vec3 F)

-- The calls on the detector, the publications and the answer.
pub data Call (F : Type 0) : Type 0 where
  detector_start : Option (Vec3 F) → Call F
  detector_stop : Bool → Call F
  -- the injected position as longitude, latitude and altitude, and the velocity
  publish_pose publish_vel : Vec3 F → Call F
  resolve : String → Call F

module _ {F : Type 0} where
  unfoldable pub on_start_detect : List (Call F)
  on_start_detect = detector_start none ∷ resolve "OK" ∷ []

  unfoldable pub on_start_estimate : F → F → F → List (Call F)
  on_start_estimate x y z = detector_start (some (vec3 x y z)) ∷ resolve "OK" ∷ []

  unfoldable pub on_stop_estimate : String → Bool → List (Call F)
  on_stop_estimate out save = detector_stop save ∷ resolve out ∷ []

module _ {F : Type 0} ⦃d : Double F⦄ where
  abbrev vel_calls : Option (Vec3 F) → List (Call F)
  vel_calls none = []
  vel_calls (some v) = publish_vel v ∷ []

  -- The stored target and the calls.
  unfoldable pub store_target :
      F → SetPlandTarget F → Context F → Vec3 F → Option (PlandTarget F) × List (Call F)
  store_target now e ctx pos = (
    some (record { timestamp = now; pos = pos; vel_enu = e.velocity }),
    publish_pose (value_or e.position ctx.lon_lat_alt)
        ∷ (vel_calls e.velocity ++ (resolve "OK" ∷ [])),
  )

  -- `pland_target` behind the event, and the calls; it throws where the projection does.
  unfoldable pub on_set_target :
      Utm F
      → F
      → SetPlandTarget F
      → Context F
      → Option (PlandTarget F)
      → Result (Option (PlandTarget F) × List (Call F))
  unfolding store_target
  on_set_target utm now e ctx target = elim e.position [
    | none ↦ ok (store_target now e ctx ctx.pos_enu)
    | some lla ↦
        let stored = do
          pos ← or_throw (gps_to_enu utm ctx.lon_lat_alt ctx.pos_enu lla) utm.error
          ok (store_target now e ctx pos)
        in if ctx.odom_ok then stored else ok (target, resolve "Odom NOT OK" ∷ [])
  ]
