-- ===== src/Mavlink/Gimbal/Control.antt =====
-- The control of the gimbal, over any sequence of requests.
use dankong.Prelude.{ℕ, ◌||◌, Bool, true, false, List, [], ◌∷◌, ◌++◌}
use dankong.Prelude.Double.{Double}
use dankong.Core.{codes, bytes_eq}
use dankong.Mavlink.Gimbal.{
  GimbalAnswers, GimbalCall, take_control, release, configure, pitch_to, set_params, GimbalBridge,
  GimbalConfig, ensure_control, apply_dji_mode, release_control, finish, turn, with_control,
  serve_mode, set_gimbal_angle_cb,
}

pub record Request (F : Type 0) : Type 0 where
  pub answers : GimbalAnswers
  pub mode : List ℕ
  pub angle : F

module _ {F : Type 0} where
  -- From whether the bridge records that it holds control, over some calls, to whether it does then.
  -- Control is asked for only while it is not recorded, of the gimbal 0 and, if that is refused, of the
  -- gimbal 1. The gimbal is configured and turned only while it is recorded, and each turn is followed
  -- by a release, always of the gimbal 0.
  pub data IsTrace : Bool → List (GimbalCall F) → Bool → Type 0 where
    done : {h : Bool} → IsTrace h [] h
    taken :
        {o : Bool} {cs : List (GimbalCall F)}
        → IsTrace true cs o
        → IsTrace false (take_control 0 true ∷ cs) o
    taken_second :
        {o : Bool} {cs : List (GimbalCall F)}
        → IsTrace true cs o
        → IsTrace false (take_control 0 false ∷ take_control 1 true ∷ cs) o
    refused :
        {o : Bool} {cs : List (GimbalCall F)}
        → IsTrace false cs o
        → IsTrace false (take_control 0 false ∷ take_control 1 false ∷ cs) o
    configured :
        {ok o : Bool} {cs : List (GimbalCall F)}
        → IsTrace true cs o
        → IsTrace true (configure ok ∷ cs) o
    turned :
        {pitch : F} {ok o : Bool} {cs : List (GimbalCall F)}
        → IsTrace false cs o
        → IsTrace true (pitch_to pitch ok ∷ release 0 ∷ cs) o
    stored :
        {o : Bool} {mode : List ℕ} {angle : F} {cs : List (GimbalCall F)}
        → IsTrace false cs o
        → IsTrace false (set_params mode angle ∷ cs) o

  append :
      {h k o : Bool} {xs ys : List (GimbalCall F)}
      → IsTrace h xs k
      → IsTrace k ys o
      → IsTrace h (xs ++ ys) o
  append done u = u
  append (taken t) u = taken (append t u)
  append (taken_second t) u = taken_second (append t u)
  append (refused t) u = refused (append t u)
  append (configured t) u = configured (append t u)
  append (turned t) u = turned (append t u)
  append (stored t) u = stored (append t u)

  ensure_control-IsTrace :
      (held r0 r1 : Bool)
      → (let (ok, calls) = ensure_control {F = F} held r0 r1 in IsTrace held calls ok)
  unfolding ensure_control
  ensure_control-IsTrace true r0 r1 = done
  ensure_control-IsTrace false true r1 = taken done
  ensure_control-IsTrace false false true = taken_second done
  ensure_control-IsTrace false false false = refused done

  apply_dji_mode-IsTrace :
      (same configures : Bool) (mode last : List ℕ)
      → IsTrace true (apply_dji_mode same configures mode last).2 true
  unfolding apply_dji_mode
  apply_dji_mode-IsTrace true configures mode last = done
  apply_dji_mode-IsTrace false true mode last = configured done
  apply_dji_mode-IsTrace false false mode last = configured done

module _ {F : Type 0} ⦃d : Double F⦄ where
  finish-IsTrace :
      (ok : Bool) (mode : List ℕ) (angle : F) → IsTrace false (finish ok mode angle).1 false
  unfolding finish
  finish-IsTrace true mode angle = stored done
  finish-IsTrace false mode angle = done

  turn-IsTrace :
      (ok : Bool) (cfg : GimbalConfig F) (a : GimbalAnswers) (mode : List ℕ) (angle : F)
      (last : List ℕ)
      → (let (_, b, calls) = turn ok cfg a mode angle last in IsTrace true calls b.control_taken)
  unfolding turn release_control
  turn-IsTrace true cfg a mode angle last = turned (finish-IsTrace a.turns mode angle)
  turn-IsTrace false cfg a mode angle last = done

  with_control-IsTrace :
      (held : Bool) (cfg : GimbalConfig F) (a : GimbalAnswers) (mode : List ℕ) (angle : F)
      (last : List ℕ)
      → (let (_, b, calls) = with_control held cfg a mode angle last in
          IsTrace held calls b.control_taken)
  unfolding with_control
  with_control-IsTrace false cfg a mode angle last = done
  with_control-IsTrace true cfg a mode angle last =
      let (ok, last', _) = apply_dji_mode {F = F} (bytes_eq mode last) a.configures mode last in
      append (apply_dji_mode-IsTrace (bytes_eq mode last) a.configures mode last)
        (turn-IsTrace ok cfg a mode angle last')

  serve_mode-IsTrace :
      (known : Bool) (cfg : GimbalConfig F) (a : GimbalAnswers) (mode : List ℕ) (angle : F)
      (b : GimbalBridge)
      → (let (_, b', calls) = serve_mode known cfg a mode angle b in
          IsTrace b.control_taken calls b'.control_taken)
  unfolding serve_mode
  serve_mode-IsTrace false cfg a mode angle b = done
  serve_mode-IsTrace true cfg a mode angle b =
      let (held, _) = ensure_control {F = F} b.control_taken (a.takes 0) (a.takes 1) in
      append (ensure_control-IsTrace b.control_taken (a.takes 0) (a.takes 1))
        (with_control-IsTrace held cfg a mode angle b.last_dji_mode)

  unfoldable pub serve_all :
      GimbalConfig F → List (Request F) → GimbalBridge → GimbalBridge × List (GimbalCall F)
  serve_all cfg [] b = (b, [])
  serve_all cfg (r ∷ rs) b =
      let (_, b', calls) = set_gimbal_angle_cb cfg r.answers r.mode r.angle b in
      let (b'', more) = serve_all cfg rs b' in (b'', calls ++ more)

  -- Over any sequence of requests and answers: the bridge asks for the control of the gimbal only
  -- while it does not record that it holds it, of the gimbal 0 first and of the gimbal 1 only if that
  -- is refused; it configures and turns the gimbal only while it records it, and releases right behind
  -- each turn, and only there, the gimbal 0, whichever of the two it took; its record at the end is
  -- that of the trace.
  pub serve_all-IsTrace :
      (cfg : GimbalConfig F) (rs : List (Request F)) (b : GimbalBridge)
      → (let (b', calls) = serve_all cfg rs b in IsTrace b.control_taken calls b'.control_taken)
  unfolding serve_all set_gimbal_angle_cb
  serve_all-IsTrace cfg [] b = done
  serve_all-IsTrace cfg (r ∷ rs) b =
      append
        (serve_mode-IsTrace (bytes_eq r.mode (codes "body") || bytes_eq r.mode (codes "abs")) cfg
          r.answers r.mode r.angle b)
        (serve_all-IsTrace cfg rs (set_gimbal_angle_cb cfg r.answers r.mode r.angle b).1)
