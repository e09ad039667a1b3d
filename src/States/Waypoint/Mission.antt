-- ===== src/States/Waypoint/Mission.antt =====
-- WaypointState: the fields, the preparation of the route in `on_enter`, and `on_exit`.
pub mod Route
use Prim.Native.String.{String}
use mathlib.Core.List.{map}
use dankong.Prelude.{
  ℕ, zero, suc, ◌+◌, Bool, true, false, not, ◌&&◌, Option, none, some, List, [], ◌∷◌, ◌++◌,
  if◌then◌else◌, length, is_empty, set, replicate, get_elem?, leb, has_value,
}
use dankong.Prelude.Int.{ℤ, pos, negsuc}
use dankong.Prelude.Double.{Double, ◌-f◌, ◌+f◌, ◌*f◌, ◌/f◌, ◌<f◌, lit, nought, clamp}
use dankong.Prelude.Vec.{Vec3, ◌-v◌, norm_xy}
use dankong.Core.{
  Context, MissionItem, SetWaypointEvent, WaypointEvent, FinishAction, hover_action, return_action,
  land_action, Result, ok, throws, Reply, reply, or_throw, unhandled, step, hover_state, land_state,
}

pub record WaypointState (F : Type 0) : Type 0 where
  pub wp_list : List (Vec3 F)
  pub node_event_list : Option (List (Option (List WaypointEvent)))
  pub finish_action : FinishAction
  pub target_vel : Option F
  pub return_enu : Option (Vec3 F)
  pub dwell_indices : List ℤ
  pub do_pland : Bool
  pub skip_lifting : Bool
  pub is_dwell_point : List Bool
  pub wp_idx : ℕ

-- `if (idx >= 0 && idx < size) is_dwell_point_[idx] = true;` for each index of the request.
pub mark_dwell : List ℤ → List Bool → List Bool
mark_dwell [] dwell = dwell
mark_dwell (pos i ∷ is) dwell = mark_dwell is (set dwell i true)
mark_dwell (negsuc i ∷ is) dwell = mark_dwell is dwell

-- `is_dwell_point_.back() = true` on a list that is not empty.
pub set_back : List Bool → List Bool
set_back [] = []
set_back (b ∷ []) = true ∷ []
set_back (b ∷ c ∷ bs) = b ∷ set_back (c ∷ bs)

is_return : FinishAction → Bool
is_return hover_action = false
is_return return_action = true
is_return land_action = false

-- The command of the last entry of `mission_data`.
last_command : FinishAction → String
last_command hover_action = "wp"
last_command return_action = "land"
last_command land_action = "land"

module _ {F : Type 0} where
  -- The constructor.
  unfoldable pub make : SetWaypointEvent F → WaypointState F
  make e = record {
    wp_list = e.waypoint;
    node_event_list = e.node_event_list;
    finish_action = e.finish_action;
    target_vel = e.speed;
    return_enu = e.return_enu;
    dwell_indices = e.dwell_indices;
    do_pland = e.do_pland;
    skip_lifting = e.skip_lifting;
    is_dwell_point = [];
    wp_idx = 0;
  }

  -- `wp_list_.at(wp_idx_)`
  abbrev pub get_cur_wp : WaypointState F → Result (Vec3 F)
  get_cur_wp w = or_throw (get_elem? w.wp_list w.wp_idx) "vector::_M_range_check"

  -- The entries behind the takeoff entry.
  mission_items : FinishAction → ℕ → List (Vec3 F) → List (MissionItem F)
  mission_items a num [] = []
  mission_items a num (p ∷ ps) =
      record { num = num; enu = p; command = if is_empty ps then last_command a else "wp" }
      ∷ mission_items a (suc num) ps

module _ {F : Type 0} ⦃d : Double F⦄ where
  abbrev close_thresh : F
  close_thresh = lit 1 1

  abbrev turn_angle_thresh : F
  turn_angle_thresh = lit 60 0 *f d.pi /f lit 180 0

  abbrev dot_xy : Vec3 F → Vec3 F → F
  dot_xy a b = a.x *f b.x +f a.y *f b.y

  -- Whether the route turns by more than the threshold at `b`.
  is_turn : Vec3 F → Vec3 F → Vec3 F → Bool
  is_turn a b c =
      let v1 = b -v a in
      let v2 = c -v b in
      let cos_theta =
        clamp (dot_xy v1 v2 /f (norm_xy v1 *f norm_xy v2)) (d.neg (lit 1 0)) (lit 1 0) in
      close_thresh <f norm_xy v1
      && close_thresh <f norm_xy v2
      && turn_angle_thresh <f d.acos cos_theta

  -- The loop over the inner waypoints.
  pub mark_turns : List (Vec3 F) → List Bool → List Bool
  mark_turns (a ∷ b ∷ c ∷ ps) (x ∷ y ∷ dwell) =
      x ∷ mark_turns (b ∷ c ∷ ps) ((if is_turn a b c then true else y) ∷ dwell)
  mark_turns ps dwell = dwell

  -- The route and its dwell flags before the turns are marked.
  abbrev extend_route : WaypointState F → List Bool → Result (WaypointState F)
  extend_route w dwell =
      if is_return w.finish_action
      then elim w.return_enu [
        | none ↦ throws "RETURN without return_enu!"
        | some p ↦
            ok (record w { wp_list = w.wp_list ++ (p ∷ []); is_dwell_point = dwell ++ (true ∷ []) })
      ]
      else ok (record w { is_dwell_point = dwell })

  abbrev first_dwell : WaypointState F → List Bool
  first_dwell w =
      let dwell = replicate (length w.wp_list) (not w.skip_lifting) in
      if w.skip_lifting then mark_dwell w.dwell_indices dwell else dwell

  -- The first route since the robot was on the ground records its start.
  abbrev record_home : WaypointState F → Context F → Context F
  record_home w ctx =
      if not (is_empty w.wp_list) && not (has_value ctx.mission_home_enu)
      then record ctx { mission_home_enu = some ctx.pos_enu }
      else ctx

  abbrev finish_empty : WaypointState F → Context F → Result (WaypointState F × Reply F)
  finish_empty w ctx = elim w.finish_action [
    | hover_action ↦ ok (w, reply ctx [] (step hover_state))
    | return_action ↦ throws "invalid finish action!"
    | land_action ↦ ok (w, reply ctx [] (step (land_state w.do_pland)))
  ]

  abbrev start_route : WaypointState F → Context F → WaypointState F × Reply F
  start_route w ctx =
      let dwell = set_back (mark_turns w.wp_list w.is_dwell_point) in
      let takeoff : MissionItem F = record { num = 0; enu = ctx.pos_enu; command = "takeoff" } in
      (
        record w { is_dwell_point = dwell },
        reply
            (record ctx {
              mission_data = takeoff ∷ mission_items w.finish_action 1 w.wp_list;
              wp_idx = 0;
            })
            [] unhandled,
      )

  begin_route : WaypointState F → Context F → Result (WaypointState F × Reply F)
  begin_route w ctx = if is_empty w.wp_list then finish_empty w ctx else ok (start_route w ctx)

  unfoldable pub on_enter : WaypointState F → Context F → Result (WaypointState F × Reply F)
  unfolding is_return mission_items is_turn last_command set_back mark_turns mark_dwell begin_route
  on_enter w ctx = elim (extend_route w (first_dwell w)) [
    | throws e ↦ throws e
    | ok w' ↦ begin_route w' (record_home w ctx)
  ]

  unfoldable pub on_exit : Context F → Context F
  on_exit ctx = record ctx { dist_to_target = nought }
