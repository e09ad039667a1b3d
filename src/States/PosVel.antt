-- ===== src/States/PosVel.antt =====
-- include/states/posvel_state.hpp: PosVelState<Parent> with MoveState and LaterTurnState.
pub mod Retarget
use dankong.Prelude.{
  Bool, true, not, ◌&&◌, none, some, List, [], ◌∷◌, if◌then◌else◌, has_value, value_or,
}
use dankong.Prelude.Double.{Double, ◌<f◌, nought}
use dankong.Prelude.Vec.{Vec3, vec3, zero3, ◌-v◌, norm, norm_xy}
use dankong.Core.{
  Context, Config, Robot, SetPosVelEvent, Parent, in_hover, in_waypoint, Result, ok, throws, ◌>>=◌,
  or_throw, Reply, reply, Effect, send_vel_cmd, send_pos_cmd, enu, StateAction, unhandled, handled,
  step, hover_state, lifting_state, move_state, later_turn_state,
}
use dankong.StateUtils.{yaw_ned_to_enu, get_yaw_diff, get_time_span, Utm, gps_to_enu}
use dankong.States.Waypoint.Excute.{tracker_waypoint}

pub record PosVelState (F : Type 0) : Type 0 where
  pub parent : Parent
  pub event : SetPosVelEvent F
  pub start_time : F
  pub last_tick_time : F
  pub current_vel_x : F
  pub current_vel_y : F
  pub current_z_speed : F
  pub is_first_tick : Bool

module _ {F : Type 0} where
  abbrev pub has_yaw : PosVelState F → Bool
  has_yaw p = has_value p.event.yaw

  abbrev pub fix_yaw : PosVelState F → Bool
  fix_yaw p = value_or p.event.fix_yaw true

  -- The height of the target is the robot's own.
  unfoldable pub resolve_target : List F → F → Result (Vec3 F)
  resolve_target (a ∷ b ∷ []) alt = ok (vec3 a b alt)
  resolve_target (a ∷ b ∷ c ∷ []) alt = ok (vec3 a b alt)
  resolve_target _ alt = throws "pos 必须是 [lon,lat] 或 [lon,lat,alt]"

  unfoldable pub get_next_state : PosVelState F → StateAction F
  get_next_state p = elim p.parent [
    | in_hover ↦ step hover_state
    | in_waypoint ↦ step lifting_state
  ]

module _ {F : Type 0} ⦃d : Double F⦄ where
  -- `if (event_.yaw) event_.yaw = yaw_ned_to_enu(*event_.yaw)`
  abbrev turned : SetPosVelEvent F → SetPosVelEvent F
  turned e = elim e.yaw [ none ↦ e | some y ↦ record e { yaw = some (yaw_ned_to_enu y) } ]

  unfoldable pub make : Parent → SetPosVelEvent F → PosVelState F
  make parent e = record {
    parent = parent;
    event = turned e;
    start_time = nought;
    last_tick_time = nought;
    current_vel_x = nought;
    current_vel_y = nought;
    current_z_speed = nought;
    is_first_tick = true;
  }

  unfoldable pub set_target : SetPosVelEvent F → PosVelState F → PosVelState F
  set_target e p = record p { event = turned e; is_first_tick = true }

  -- PosVelState::on_event; `moving` is `is_active_state<MoveState>()`.
  unfoldable pub on_event :
      Bool → F → SetPosVelEvent F → PosVelState F → Context F → PosVelState F × Reply F
  unfolding set_target
  on_event moving now e p ctx = (
    record (set_target e p) { start_time = now },
    if moving then reply ctx [] handled else reply ctx [] (step (move_state p.parent)),
  )

  -- PosVelState::on_tick
  unfoldable pub on_tick : Config F → F → PosVelState F → Context F → Reply F
  unfolding get_next_state get_time_span
  on_tick cfg now p ctx =
      if value_or p.event.timeout cfg.posvel_timeout <f get_time_span p.start_time now
      then reply ctx [] (get_next_state p)
      else reply ctx [] handled

  unfoldable pub on_exit : List (Effect F)
  on_exit = send_vel_cmd zero3 none none enu ∷ []

  -- Where the target lies now.
  abbrev target_enu : Utm F → PosVelState F → Context F → Result (Vec3 F)
  target_enu utm p ctx = do
    gps ← resolve_target p.event.pos ctx.lon_lat_alt.z
    or_throw (gps_to_enu utm ctx.lon_lat_alt ctx.pos_enu gps) utm.error

  unfoldable pub base_move : Utm F → PosVelState F → Context F → Result (List (Effect F))
  unfolding tracker_waypoint
  base_move utm p ctx = do
    target ← target_enu utm p ctx
    let yaw = if fix_yaw p && has_yaw p then p.event.yaw else none
    ok (send_pos_cmd (record (tracker_waypoint (some p.event.vel) target) { yaw = yaw } ∷ []) ∷ [])

  -- MoveState::on_enter
  unfoldable pub move_on_enter :
      Utm F → F → PosVelState F → Context F → Result (PosVelState F × Reply F)
  move_on_enter utm now p ctx = do
    out ← base_move utm p ctx
    ok (
      record p {
        start_time = now;
        last_tick_time = now;
        current_vel_x = nought;
        current_vel_y = nought;
        current_z_speed = nought;
        is_first_tick = true;
      },
      reply ctx out unhandled,
    )

  -- MoveState::on_event
  unfoldable pub move_on_event :
      Utm F → F → SetPosVelEvent F → PosVelState F → Context F → Result (PosVelState F × Reply F)
  move_on_event utm now e p ctx = do
    let p' = record (set_target e p) { start_time = now }
    out ← base_move utm p' ctx
    ok (p', reply ctx out handled)

  -- Arrived: near the target and slow.
  abbrev has_arrived : Config F → Robot F → Vec3 F → Context F → Bool
  has_arrived cfg robot target ctx =
      let pos_err = target -v ctx.pos_enu in
      (if robot.is_alt_enable
        then norm pos_err <f cfg.posvel_arrive_tolerance
        else norm_xy pos_err <f cfg.posvel_arrive_tolerance)
      && (norm_xy ctx.vel_enu <f cfg.posvel_stop_speed)

  -- MoveState::on_tick
  unfoldable pub move_on_tick :
      Utm F → Config F → Robot F → PosVelState F → Context F → Result (Reply F)
  unfolding get_next_state
  move_on_tick utm cfg robot p ctx = do
    target ← target_enu utm p ctx
    ok (
        if has_arrived cfg robot target ctx
        then if not (fix_yaw p) && has_yaw p
          then reply ctx [] (step (later_turn_state p.parent))
          else reply ctx [] (get_next_state p)
        else reply ctx [] unhandled)

  -- LaterTurnState::on_tick
  unfoldable pub later_turn_on_tick : Config F → PosVelState F → Context F → Reply F
  unfolding get_next_state
  later_turn_on_tick cfg p ctx = elim p.event.yaw [
    | none ↦ reply ctx [] (get_next_state p)
    | some target_yaw ↦
        if get_yaw_diff target_yaw ctx.yaw_enu <f cfg.yaw_tolerance
        then reply ctx [] (get_next_state p)
        else reply ctx (send_vel_cmd zero3 (some target_yaw) none enu ∷ []) unhandled
  ]
