-- ===== src/Features/Algo.antt =====
-- src/features/algo/event_listener.cpp: AlgoEventListener, its handlers of detection and following.
-- The tracker and its speed-limit token (include/core/base_tracker.hpp) stand beside the context.
pub mod Detect
pub mod Cooldown
use Prim.Native.String.{String}
use Prim.Native.String.{◌++◌ as ◌+s◌}
use dankong.Prelude.{ℕ, Bool, true, false, Option, none, some, List, [], ◌∷◌, ◌++◌, if◌then◌else◌}
use dankong.Prelude.Double.{Double, ◌-f◌, ◌<f◌}
use dankong.Core.{
  Context, DetectEvent, codes, bytes_eq, Effect, resolve, reject, text, engine_step, hover_state,
  lifting_state, follow_state, set_ros_param, in_hover, in_waypoint,
}
use dankong.Control.Active.{Active}
use dankong.Features.Tracker.Types.{Tracker, TrackerConfig, Sensed}
use dankong.Features.Tracker.Mailbox.{add_speed_limit_cb, remove_speed_limit_cb}

pub record Detection (F : Type 0) : Type 0 where
  -- ctx.speed_limit_token: the id that it holds
  pub token : Option ℕ
  pub tracker : Tracker F

abbrev string_eq : String → String → Bool
string_eq a b = bytes_eq (codes a) (codes b)

-- detect_map: the parameter that switches each kind of detection.
abbrev pub find_type : List (String × String) → String → Option String
find_type [] type = none
find_type ((key, param) ∷ rest) type =
    let found = find_type rest type in if string_eq key type then some param else found

abbrev enable_send : String
enable_send = "/UAV0/perception/object_location/object_location_node/enable_send"

module _ {F : Type 0} where
  -- The loop of the enabling: the kind's own parameter is set; of another kind the key is.
  abbrev switch_on : List (String × String) → String → List (Effect F)
  switch_on [] type = []
  switch_on ((key, param) ∷ rest) type =
      let others = switch_on rest type in
      if string_eq key type
      then set_ros_param param true ∷ others
      else set_ros_param key false ∷ others

  abbrev switch_off : List (String × String) → List (Effect F)
  switch_off [] = []
  switch_off ((key, param) ∷ rest) = set_ros_param param false ∷ switch_off rest

module _ {F : Type 0} ⦃d : Double F⦄ where
  -- SpeedLimitToken::release, for a token that is dropped.
  unfoldable pub release : TrackerConfig F → Sensed F → Detection F → Detection F
  release c s det = elim det.token [
    | none ↦ det
    | some id ↦ record { token = none; tracker = (remove_speed_limit_cb c s id det.tracker).0 }
  ]

  -- The new token replaces the old one, which is released, and then takes the id of the new callback.
  unfoldable pub limit_speed : TrackerConfig F → Sensed F → (F → F) → Detection F → Detection F
  unfolding release
  limit_speed c s detect_cruise_speed det =
      let old = release c s det in
      let ((tracker, out), id) =
        add_speed_limit_cb c s "detect" (λ now. some (detect_cruise_speed now)) old.tracker in
      record { token = some id; tracker = tracker }

  unfoldable pub on_enable_detect :
      TrackerConfig F
      → Sensed F
      → List (String × String)
      → (F → F)
      → String
      → Context F
      → Detection F
      → Context F × Detection F × List (Effect F)
  unfolding limit_speed
  on_enable_detect c s detect_map detect_cruise_speed type ctx det =
      elim (find_type detect_map type) [
        | none ↦ (ctx, det, reject ("can not find event: " +s type) ∷ [])
        | some param ↦ (
          record ctx { detect_type = type },
          limit_speed c s detect_cruise_speed det,
          switch_on detect_map type ++ (set_ros_param enable_send true ∷ resolve (text "OK") ∷ []),
        )
      ]

  unfoldable pub on_disable_detect :
      TrackerConfig F
      → Sensed F
      → List (String × String)
      → Context F
      → Detection F
      → Context F × Detection F × List (Effect F)
  unfolding release
  on_disable_detect c s detect_map ctx det = (
    record ctx { detect_type = "Disabled" },
    release c s det,
    switch_off detect_map ++ (set_ros_param enable_send false ∷ resolve (text "OK") ∷ []),
  )

  unfoldable pub on_get_detect : Context F → List (Effect F)
  on_get_detect ctx =
      resolve (text (if string_eq ctx.detect_type "Disabled" then "" else ctx.detect_type)) ∷ []

  -- The target of a detection is followed from the hover state or from a mission, unless the last
  -- following ended within `follow_cool_time`.
  unfoldable pub on_detect : F → Active → F → DetectEvent F → Context F → List (Effect F)
  on_detect follow_cool_time a now e ctx =
      if (now -f ctx.stop_follow_stamp) <f follow_cool_time
      then []
      else if a.in_follow
      then []
      else if a.in_hover
      then engine_step (follow_state in_hover e) ∷ []
      else if a.in_waypoint
      then engine_step (follow_state in_waypoint e) ∷ []
      else []

  unfoldable pub on_stop_follow : Active → F → Context F → Context F × List (Effect F)
  on_stop_follow a now ctx =
      let stopped = record ctx { stop_follow_stamp = now } in
      let success = resolve (text "OK") in
      if string_eq a.state_name "跟随模式"
      then (if a.in_hover
          then (stopped, success ∷ engine_step hover_state ∷ [])
          else if a.in_waypoint
          then (stopped, success ∷ engine_step lifting_state ∷ [])
          else (stopped, success ∷ engine_step hover_state ∷ []))
      else (ctx, reject ("非跟随模式调用无效! 当前状态：" +s a.state_name) ∷ [])

  unfoldable pub on_enable_planner : Bool → Context F → Context F × List (Effect F)
  on_enable_planner enable ctx = (record ctx { planner_enable = enable }, resolve (text "OK") ∷ [])
