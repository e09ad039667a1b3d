-- ===== src/Features/Tracker/Mailbox.antt =====
-- The calls that other threads make on the tracker: the commands that wait for the next step, and
-- the callbacks that limit the cruise speed.
use Prim.Native.String.{String}
use dankong.Prelude.{
  ℕ, suc, Bool, Option, none, some, List, [], ◌∷◌, ◌++◌, length, is_empty, ◌==◌, if◌then◌else◌,
  has_value,
}
use dankong.Prelude.Double.{Double}
use dankong.Prelude.Vec.{Vec3, zero3}
use dankong.Core.{CmdFrame, enu, TrackerWaypoint}
use dankong.Features.Tracker.Types.{
  position, velocity, LimitCb, TrackerConfig, Sensed, Output, cancel_navigation, Tracker,
}
use dankong.Features.Tracker.Activate.{apply_current_waypoint}

module _ {F : Type 0} where
  unfoldable pub send_pos_cmd : List (TrackerWaypoint F) → Tracker F → Tracker F
  send_pos_cmd path t =
      if is_empty path
      then t
      else record t { pending_cmd = record t.pending_cmd { mode = position; waypoints = path } }

  unfoldable pub send_vel_cmd : Vec3 F → Option F → Option F → CmdFrame → Tracker F → Tracker F
  send_vel_cmd vel yaw yaw_rate frame t = record t {
    pending_cmd = record t.pending_cmd {
      mode = velocity;
      frame = frame;
      vec3_cmd = vel;
      yaw = yaw;
      yaw_rate = yaw_rate;
    };
  }

  unfoldable pub is_position_reached : Tracker F → Bool
  is_position_reached t = t.pos_cmd_finished

  unfoldable pub get_total_waypoints : Tracker F → ℕ
  get_total_waypoints t = length t.target_waypoints

  abbrev pub with_cb : String → (F → Option F) → Tracker F → Tracker F
  with_cb name cb t = record t {
    cb_seq = suc t.cb_seq;
    speed_limit_cbs = t.speed_limit_cbs ++ (record { id = t.cb_seq; name = name; cb = cb } ∷ []);
  }

  -- std::find_if and erase: the first callback with the id, and the list without it.
  unfoldable pub erase_cb : ℕ → List (LimitCb F) → Option (List (LimitCb F))
  erase_cb id [] = none
  erase_cb id (c ∷ cbs) =
      let rest = erase_cb id cbs in
      if c.id == id then some cbs else elim rest [ none ↦ none | some others ↦ some (c ∷ others) ]

  -- The names of the callbacks that limit the speed now, as get_status_info lists them.
  pub limit_sources : F → List (LimitCb F) → List String
  limit_sources now [] = []
  limit_sources now (c ∷ cbs) =
      let rest = limit_sources now cbs in if has_value (c.cb now) then c.name ∷ rest else rest

module _ {F : Type 0} ⦃d : Double F⦄ where
  unfoldable pub send_zero_vel_cmd : Tracker F → Tracker F × List (Output F)
  send_zero_vel_cmd t = (send_vel_cmd zero3 none none enu t, cancel_navigation ∷ [])

  unfoldable pub add_speed_limit_cb :
      TrackerConfig F
      → Sensed F
      → String
      → (F → Option F)
      → Tracker F
      → (Tracker F × List (Output F)) × ℕ
  add_speed_limit_cb c s name cb t = (apply_current_waypoint c s (with_cb name cb t), t.cb_seq)

  unfoldable pub remove_speed_limit_cb :
      TrackerConfig F → Sensed F → ℕ → Tracker F → Tracker F × List (Output F)
  remove_speed_limit_cb c s id t = elim (erase_cb id t.speed_limit_cbs) [
    | none ↦ (t, [])
    | some cbs ↦ apply_current_waypoint c s (record t { speed_limit_cbs = cbs })
  ]
