-- ===== src/Features/Algo/Cooldown.antt =====
-- The cooling-off time between the end of a following and the next one: on_event(StopFollowEvent)
-- and on_event(DetectEvent) of src/features/algo/event_listener.cpp.
use dankong.Prelude.{◌≡◌, refl, true, List, [], ◌∷◌, ◌++◌, arith}
use dankong.Prelude.Double.{Double, ◌-f◌, ◌<f◌}
use dankong.Core.{Context, DetectEvent, Effect}
use dankong.Control.Active.{Active}
use dankong.Features.Algo.{string_eq, on_detect, on_stop_follow}

-- A detection that comes in at a time, and the active states then.
pub record Detected (F : Type 0) : Type 0 where
  pub active : Active
  pub time : F
  pub event : DetectEvent F

module _ {F : Type 0} ⦃d : Double F⦄ where
  -- The calls that a series of detections leads to.
  unfoldable pub detect_all : F → Context F → List (Detected F) → List (Effect F)
  detect_all cool ctx [] = []
  detect_all cool ctx (x ∷ xs) =
      on_detect cool x.active x.time x.event ctx ++ detect_all cool ctx xs

  -- Each detection comes in within `cool` of the time `since`.
  unfoldable pub IsEarly : F → F → List (Detected F) → Type 0
  IsEarly cool since [] = Unit
  IsEarly cool since (x ∷ xs) = (((x.time -f since) <f cool) ≡ true) × IsEarly cool since xs

  detect_all-early :
      (cool : F) (ctx : Context F) (xs : List (Detected F))
      → IsEarly cool ctx.stop_follow_stamp xs
      → detect_all cool ctx xs ≡ []
  unfolding detect_all IsEarly on_detect
  detect_all-early cool ctx [] h = refl
  detect_all-early cool ctx (x ∷ xs) (h, hs) = rw (h, detect_all-early cool ctx xs hs) refl

  -- When a following is stopped at a time, the detections that come in within the cooling-off time
  -- after it start no following, however many they are and whichever states are active by then.
  pub on_stop_follow-cools :
      (cool since : F) (a : Active) (ctx : Context F) (xs : List (Detected F))
      → string_eq a.state_name "跟随模式" ≡ true
      → IsEarly cool since xs
      → detect_all cool (on_stop_follow a since ctx).0 xs ≡ []
  unfolding on_stop_follow
  on_stop_follow-cools cool since a ctx xs n h =
      let stopped = record ctx { stop_follow_stamp = since } in
      let quiet = detect_all-early cool stopped xs h in ground (arith, quiet, n)
