-- ===== src/Mavlink/Gimbal.antt =====
-- GimbalBridge (include/features/control/gimbal_bridge.hpp): the service that turns the gimbal. The
-- subscription of the attitude only logs.
pub mod Control
use dankong.Prelude.{ℕ, Bool, true, false, not, ◌&&◌, ◌||◌, List, [], ◌∷◌, ◌++◌, if◌then◌else◌}
use dankong.Prelude.Double.{Double, clamp}
use dankong.Core.{codes, bytes_eq}

-- What the calls of one request answer; `takes` is that of take_control of an id.
pub record GimbalAnswers : Type 0 where
  pub takes : ℕ → Bool
  pub configures : Bool
  pub turns : Bool

-- A call, and whether it succeeded.
pub data GimbalCall (F : Type 0) : Type 0 where
  take_control : ℕ → Bool → GimbalCall F
  -- its result is only logged
  release : ℕ → GimbalCall F
  -- MAV_CMD_DO_MOUNT_CONFIGURE with RC_TARGETING
  configure : Bool → GimbalCall F
  -- MAV_CMD_DO_GIMBAL_MANAGER_PITCHYAW
  pitch_to : F → Bool → GimbalCall F
  -- the ROS parameters of the mode and the angle
  set_params : List ℕ → F → GimbalCall F

pub record GimbalBridge : Type 0 where
  pub control_taken : Bool
  pub last_dji_mode : List ℕ

pub record GimbalConfig (F : Type 0) : Type 0 where
  pub gimbal_pitch_min : F
  pub gimbal_pitch_max : F

-- The `message` of the response.
pub data GimbalReply : Type 0 where
  unsupported_mode no_control no_mode no_angle okay : GimbalReply

abbrev pub succeeds : GimbalReply → Bool
succeeds okay = true
succeeds _ = false

module _ {F : Type 0} where
  -- ensure_control, by control_taken_, and by what the two calls answer.
  unfoldable pub ensure_control : Bool → Bool → Bool → Bool × List (GimbalCall F)
  ensure_control true r0 r1 = (true, [])
  ensure_control false true r1 = (true, take_control 0 true ∷ [])
  ensure_control false false r1 = (r1, take_control 0 false ∷ take_control 1 r1 ∷ [])

  -- apply_dji_mode, by whether the mode is the last one.
  unfoldable pub apply_dji_mode :
      Bool → Bool → List ℕ → List ℕ → Bool × List ℕ × List (GimbalCall F)
  apply_dji_mode true configures mode last_dji_mode = (true, last_dji_mode, [])
  apply_dji_mode false true mode last_dji_mode = (true, mode, configure true ∷ [])
  apply_dji_mode false false mode last_dji_mode = (false, last_dji_mode, configure false ∷ [])

  unfoldable pub release_control : Bool → List (GimbalCall F)
  release_control false = []
  release_control true = release 0 ∷ []

module _ {F : Type 0} ⦃d : Double F⦄ where
  abbrev pub pitch_dji : GimbalConfig F → F → F
  pitch_dji cfg angle = clamp (d.neg angle) cfg.gimbal_pitch_min cfg.gimbal_pitch_max

  -- Behind the pitch command, by whether it succeeded.
  unfoldable pub finish : Bool → List ℕ → F → GimbalReply × List (GimbalCall F)
  finish true mode angle = (okay, set_params mode angle ∷ [])
  finish false mode angle = (no_angle, [])

  -- Behind apply_dji_mode, with control, by whether it succeeded.
  unfoldable pub turn :
      Bool
      → GimbalConfig F
      → GimbalAnswers
      → List ℕ
      → F
      → List ℕ
      → GimbalReply × GimbalBridge × List (GimbalCall F)
  turn false cfg answers mode angle last_dji_mode =
      (no_mode, record { control_taken = true; last_dji_mode = last_dji_mode }, [])
  turn true cfg answers mode angle last_dji_mode =
      let (reply, calls) = finish answers.turns mode angle in
      (
        reply,
        record { control_taken = false; last_dji_mode = last_dji_mode },
        pitch_to (pitch_dji cfg angle) answers.turns ∷ (release_control true ++ calls),
      )

  -- Behind ensure_control, by whether it succeeded.
  unfoldable pub with_control :
      Bool
      → GimbalConfig F
      → GimbalAnswers
      → List ℕ
      → F
      → List ℕ
      → GimbalReply × GimbalBridge × List (GimbalCall F)
  with_control false cfg answers mode angle last_dji_mode =
      (no_control, record { control_taken = false; last_dji_mode = last_dji_mode }, [])
  with_control true cfg answers mode angle last_dji_mode =
      let (ok, last, calls) =
        apply_dji_mode (bytes_eq mode last_dji_mode) answers.configures mode last_dji_mode in
      let (reply, b, more) = turn ok cfg answers mode angle last in (reply, b, calls ++ more)

  -- By whether the mode is "body" or "abs".
  unfoldable pub serve_mode :
      Bool
      → GimbalConfig F
      → GimbalAnswers
      → List ℕ
      → F
      → GimbalBridge
      → GimbalReply × GimbalBridge × List (GimbalCall F)
  serve_mode false cfg answers mode angle b = (unsupported_mode, b, [])
  serve_mode true cfg answers mode angle b =
      let (held, calls) = ensure_control b.control_taken (answers.takes 0) (answers.takes 1) in
      let (reply, b', more) = with_control held cfg answers mode angle b.last_dji_mode in
      (reply, b', calls ++ more)

  unfoldable pub set_gimbal_angle_cb :
      GimbalConfig F
      → GimbalAnswers
      → List ℕ
      → F
      → GimbalBridge
      → GimbalReply × GimbalBridge × List (GimbalCall F)
  set_gimbal_angle_cb cfg answers mode angle b =
      serve_mode (bytes_eq mode (codes "body") || bytes_eq mode (codes "abs")) cfg answers mode
        angle b
