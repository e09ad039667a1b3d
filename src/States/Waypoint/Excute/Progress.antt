-- ===== src/States/Waypoint/Excute/Progress.antt =====
-- The progress of a mission from waypoint to waypoint.
use dankong.Prelude.{
  ℕ, zero, suc, ◌+◌, ◌≤◌, ◌≡◌, Bool, true, false, List, [], ◌∷◌, ◌++◌, arith, length, if◌then◌else◌,
}
use dankong.Prelude.Double.{Double}
use dankong.Core.{Context, Effect, dispatch_task_progress, dispatch_task_done, StateAction, next}
use dankong.States.Waypoint.Mission.{WaypointState}
use dankong.States.Waypoint.Excute.{on_arrive}

-- Whether the engine goes on to the next task of the plan.
pub is_next : {F : Type 0} → StateAction F → Bool
is_next next = true
is_next _ = false

module _ {F : Type 0} ⦃d : Double F⦄ where
  -- The calls of a mission whose waypoints are reached one after the other, until the state is left.
  pub fly : ℕ → WaypointState F → Context F → List (Effect F)
  fly zero w ctx = []
  fly (suc fuel) w ctx =
      let (w', r) = on_arrive w ctx in
      let rest = fly fuel w' r.ctx in r.out ++ (if is_next r.action then [] else rest)

  -- Progress `idx + 1` to `idx + left` of `total`, then the end of the task.
  pub reports : ℕ → ℕ → ℕ → List (Effect F)
  reports zero idx total = dispatch_task_done ∷ []
  reports (suc left) idx total =
      dispatch_task_progress (suc idx) total ∷ reports left (suc idx) total

  -- From waypoint `wp_idx` of a route, reaching the waypoints one after the other reports each of
  -- those that are left once and in order, then the end of the task, and leaves the state with the
  -- last one, however much longer the run goes on.
  pub fly-reports :
      (fuel left : ℕ) (w : WaypointState F) (ctx : Context F)
      → w.wp_idx + suc left ≡ length w.wp_list
      → suc left ≤ fuel
      → fly fuel w ctx ≡ reports (suc left) w.wp_idx (length w.wp_list)
  unfolding fly reports on_arrive is_next
  fly-reports zero left w ctx n f = absurd (omega arith)
  fly-reports (suc fuel) zero w ctx n f = ground arith
  fly-reports (suc fuel) (suc left) w ctx n f =
      ground (arith, fly-reports fuel left (on_arrive w ctx).0 (on_arrive w ctx).1.ctx)
