-- ===== src/Control/SetWaypoint.antt =====
-- ControlEventListener::on_event(SetWaypointEvent): validates a mission, converts its route to ENU,
-- chooses the point of return and schedules the states.
pub mod Accepted
use Prim.Native.String.{◌++◌ as ◌+s◌}
use dankong.Prelude.{
  Bool, true, false, ◌&&◌, Option, none, some, List, [], ◌∷◌, ◌++◌, if◌then◌else◌, is_empty,
  get_last?, map,
}
use dankong.Prelude.Double.{Double, ◌+f◌, ◌-f◌, nought}
use dankong.Prelude.Vec.{Vec3}
use dankong.Core.{
  Context, SetWaypointEvent, FinishAction, hover_action, return_action, land_action, Result, ok,
  throws, ◌>>=◌, Effect, resolve, reject, text, plan_clear, plan_start, push_back, fallback,
  engine_step, Target, takeoff_state, new_lifting_state, hover_state, land_state,
}
use dankong.StateUtils.{Utm, gps_to_enu}
use dankong.Control.Active.{Active}

is_land : FinishAction → Bool
is_land hover_action = false
is_land return_action = false
is_land land_action = true

-- A refusal is `throws` with the text of the rejection.
module _ {F : Type 0} where
  -- Steps 1 and 2: where a mission is refused outright.
  unfoldable pub check_state : Active → SetWaypointEvent F → Result (SetWaypointEvent F)
  check_state active e =
      if active.in_init
      then throws "初始状态下无法执行指令!"
      else if is_empty e.waypoint && active.in_ground
      then throws "航点个数为0，地面无法执行返航、降落或起飞悬停!"
      else ok e

  -- Step 3: the first of several points only gives the height of the takeoff.
  unfoldable pub drop_first : List (Vec3 F) → List (Vec3 F)
  drop_first (p ∷ q ∷ ps) = q ∷ ps
  drop_first ps = ps

  fallback_state : SetWaypointEvent F → Target F
  fallback_state e = elim e.finish_action [
    | hover_action ↦ hover_state
    | return_action ↦ land_state e.do_pland
    | land_action ↦ land_state e.do_pland
  ]

  -- Step 6. `wp_empty` is about the route of the request.
  unfoldable pub schedule : Active → Bool → F → SetWaypointEvent F → List (Effect F)
  unfolding fallback_state is_land
  schedule active wp_empty takeoff_alt e =
      if active.in_ground
      then plan_clear
        ∷ push_back (takeoff_state takeoff_alt)
        ∷ push_back (new_lifting_state e)
        ∷ fallback (fallback_state e)
        ∷ plan_start
        ∷ []
      else if wp_empty && is_land e.finish_action
      then engine_step (land_state e.do_pland) ∷ []
      else plan_clear
        ∷ push_back (new_lifting_state e)
        ∷ fallback (fallback_state e)
        ∷ plan_start
        ∷ []

module _ {F : Type 0} ⦃d : Double F⦄ where
  unfoldable pub takeoff_height : List (Vec3 F) → F
  takeoff_height [] = nought
  takeoff_height (p ∷ ps) = p.z

  unfoldable pub convert_all : Utm F → Context F → List (Vec3 F) → Option (List (Vec3 F))
  convert_all utm ctx [] = some []
  convert_all utm ctx (p ∷ ps) = elim (gps_to_enu utm ctx.lon_lat_alt ctx.pos_enu p) [
    | none ↦ none
    | some q ↦ elim (convert_all utm ctx ps) [ none ↦ none | some qs ↦ some (q ∷ qs) ]
  ]

  -- The height that `local` points are raised by.
  abbrev pub datum_offset : Context F → F
  datum_offset ctx = ctx.pos_enu.z -f ctx.lon_lat_alt.z

  abbrev raise_point : F → Vec3 F → Vec3 F
  raise_point delta p = record p { z = p.z +f delta }

  -- Step 4: GPS points become ENU points, and local heights are taken above the home.
  unfoldable pub convert : Utm F → Context F → SetWaypointEvent F → Result (SetWaypointEvent F)
  convert utm ctx e =
      if is_empty e.waypoint
      then ok e
      else if e.local
      then ok (record e { waypoint = map (raise_point (datum_offset ctx)) e.waypoint })
      else elim (convert_all utm ctx e.waypoint) [
        | none ↦ throws (◌+s◌ "航点坐标转换失败: " utm.error)
        | some ps ↦ ok (record e { waypoint = ps; local = true })
      ]

  unfoldable pub return_height : Active → Context F → F → List (Vec3 F) → F
  return_height active ctx takeoff_alt ps = elim (get_last? ps) [
    | none ↦
        if active.in_ground
        then takeoff_alt +f ctx.pos_enu.z -f ctx.lon_lat_alt.z
        else ctx.pos_enu.z
    | some p ↦ p.z
  ]

  -- The start of the mission, else the place of the takeoff, else the home of the flight controller.
  unfoldable pub return_point : Utm F → Context F → Result (Vec3 F)
  return_point utm ctx = elim ctx.mission_home_enu [
    | some m ↦ ok m
    | none ↦ elim ctx.takeoff_enu [
      | some t ↦ ok t
      | none ↦ elim ctx.fcu_home_gps [
        | none ↦ throws "无可用的返航点，请使用降落"
        | some g ↦ elim (gps_to_enu utm ctx.lon_lat_alt ctx.pos_enu g) [
          | none ↦ throws (◌+s◌ "返航点坐标转换失败: " utm.error)
          | some p ↦ ok p
        ]
      ]
    ]
  ]

  -- Step 5.
  unfoldable pub resolve_return :
      Utm F → Active → Context F → F → SetWaypointEvent F → Result (SetWaypointEvent F)
  resolve_return utm active ctx takeoff_alt e = elim e.finish_action [
    | hover_action ↦ ok e
    | land_action ↦ ok e
    | return_action ↦ do
      p ← return_point utm ctx
      ok (record e {
        return_enu = some (record p { z = return_height active ctx takeoff_alt e.waypoint });
      })
  ]

  -- Steps 1 to 5: the mission as it is handed to the states.
  unfoldable pub prepare :
      Utm F → Active → Context F → SetWaypointEvent F → Result (SetWaypointEvent F)
  prepare utm active ctx e = do
    e1 ← check_state active e
    e2 ← convert utm ctx (record e1 { waypoint = drop_first e1.waypoint })
    resolve_return utm active ctx (takeoff_height e1.waypoint) e2

  unfoldable pub on_set_waypoint : Utm F → Active → Context F → SetWaypointEvent F → List (Effect F)
  on_set_waypoint utm active ctx e = elim (prepare utm active ctx e) [
    | throws msg ↦ reject msg ∷ []
    | ok ev ↦
        schedule active (is_empty e.waypoint) (takeoff_height e.waypoint) ev
        ++ resolve (text "OK") ∷ []
  ]
