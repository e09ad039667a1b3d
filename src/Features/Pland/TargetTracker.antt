-- ===== src/Features/Pland/TargetTracker.antt =====
-- include/features/pland/target_tracker.hpp: TargetTracker, whether the target moves.
pub mod Debounce
use dankong.Prelude.{
  ℕ, zero, suc, ◌-◌, ◌+◌, Bool, true, false, List, [], ◌∷◌, if◌then◌else◌, ltb, leb, length, drop,
  get_last?, value_or, take,
}
use dankong.Prelude.Double.{Double, ◌-f◌, ◌*f◌, ◌/f◌, ◌<f◌, lit, min, max}
use dankong.Prelude.Vec.{Vec2, vec2, zero2, ◌+v2◌, ◌-v2◌, norm2}
use dankong.Features.Pland.Window.{slide}

pub data TargetState : Type 0 where
  stationary moving : TargetState

-- The history is the deque, oldest first.
pub record TargetTracker (F : Type 0) : Type 0 where
  pub window_size : ℕ
  pub threshold : F
  pub state : TargetState
  pub history : List (Vec2 F)
  pub move_counter : ℕ

module _ {F : Type 0} where
  unfoldable pub make : ℕ → F → TargetTracker F
  make window_size base_threshold = record {
    window_size = window_size;
    threshold = base_threshold;
    state = stationary;
    history = [];
    move_counter = 0;
  }

  unfoldable pub reset : TargetTracker F → TargetTracker F
  reset t = record t { history = []; state = stationary; move_counter = 0 }

  abbrev pub is_moving : TargetTracker F → Bool
  is_moving t = elim t.state [ stationary ↦ false | moving ↦ true ]

module _ {F : Type 0} ⦃d : Double F⦄ where
  sum_up : Vec2 F → List (Vec2 F) → Vec2 F
  sum_up acc [] = acc
  sum_up acc (p ∷ ps) = sum_up (acc +v2 p) ps

  -- The mean of all frames but the last one.
  unfoldable pub centroid : List (Vec2 F) → Vec2 F
  unfolding sum_up
  centroid history =
      let count = length history - 1 in
      let sum = sum_up zero2 (take count history) in
      vec2 (sum.x /f lit count 0) (sum.y /f lit count 0)

  -- The last frame has left the others.
  unfoldable pub deviates : F → Vec2 F → List (Vec2 F) → Bool
  unfolding centroid
  deviates threshold pos history = (threshold *f lit 12 1) <f norm2 (pos -v2 centroid history)

  -- min_x, max_x, min_y and max_y over the frames, from those of the last one.
  bounding : F × F × F × F → List (Vec2 F) → F × F × F × F
  bounding box [] = box
  bounding (min_x, max_x, min_y, max_y) (p ∷ ps) =
      bounding (min min_x p.x, max max_x p.x, min min_y p.y, max max_y p.y) ps

  -- The last 15 frames lie close together.
  unfoldable pub settles : F → Vec2 F → List (Vec2 F) → Bool
  unfolding bounding
  settles threshold pos history =
      let recent = drop (length history - 15) history in
      let (min_x, max_x, min_y, max_y) = bounding (pos.x, pos.x, pos.y, pos.y) recent in
      d.hypot (max_x -f min_x) (max_y -f min_y) <f (threshold *f lit 8 1)

  -- The decision once there are 5 frames, by the state.
  unfoldable pub judge : Vec2 F → TargetTracker F → TargetState → TargetTracker F
  judge pos t stationary =
      if deviates t.threshold pos t.history
      then (if leb 3 (suc t.move_counter)
          then record t { state = moving; move_counter = 0 }
          else record t { move_counter = suc t.move_counter })
      else record t { move_counter = 0 }
  judge pos t moving =
      if settles t.threshold pos t.history
      then record t { state = stationary; move_counter = 0 }
      else t

  -- The state that is returned is that of the tracker.
  unfoldable pub update : Vec2 F → TargetTracker F → TargetTracker F
  unfolding judge
  update pos t =
      let pushed = record t { history = slide t.window_size pos t.history } in
      if ltb (length pushed.history) 5 then pushed else judge pos pushed pushed.state
