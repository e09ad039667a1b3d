-- ===== src/States/Waypoint/Excute/Segments.antt =====
-- The piece of the route that is handed to the tracker.
use dankong.Prelude.{
  drop, ◌∙◌, ℕ, zero, suc, ◌<◌, ◌≡◌, refl, ap, Bool, true, false, Option, some, List, [], ◌∷◌,
  arith, length, map, take, get_or, get_last?,
}
use dankong.Prelude.Double.{Double}
use dankong.Prelude.Vec.{Vec3}
use Prim.Native.String.{String}
use dankong.Core.{Context, Effect, send_pos_cmd, ok, >>=-eq-ok, Reply}
use dankong.States.Waypoint.Mission.{WaypointState, get_cur_wp}
use dankong.States.Waypoint.Mission.Route.{IsRoute}
use dankong.States.Waypoint.Excute.{segment, tracker_waypoint, on_enter, node_events}

-- `k` is the first dwell point of the flags.
pub record IsFirstDwell (dwell : List Bool) (k : ℕ) : Type 0 where
  pub dwells : get_or dwell k false ≡ true
  pub first : (j : ℕ) → j < k → get_or dwell j false ≡ false

later_dwell :
    (dwell : List Bool) (k : ℕ) → IsFirstDwell dwell k → IsFirstDwell (false ∷ dwell) (suc k)
later_dwell dwell k f = record { dwells = f.dwells; first = go }
  where
    go : (j : ℕ) → j < suc k → get_or (false ∷ dwell) j false ≡ false
    go zero h = refl
    go (suc j) h = f.first j (omega arith)

module _ {F : Type 0} ⦃d : Double F⦄ where
  -- A piece of a route whose last point is a dwell point runs from its first waypoint to its first
  -- dwell point, that point included.
  pub segment-take :
      (speed : Option F) (ps : List (Vec3 F)) (dwell : List Bool)
      → length dwell ≡ length ps
      → get_last? dwell ≡ some true
      → (k : ℕ) × IsFirstDwell dwell k
        × (segment speed ps dwell ≡ map (tracker_waypoint speed) (take (suc k) ps))
  unfolding segment
  segment-take speed [] [] n l = cc
  segment-take speed [] (b ∷ dwell) n l = absurd (omega arith)
  segment-take speed (p ∷ ps) [] n l = absurd (omega arith)
  segment-take speed (p ∷ ps) (true ∷ dwell) n l =
      (0, record { dwells = refl; first = λ j h. elim h [ ] }, refl)
  segment-take speed (p ∷ ps) (false ∷ []) n l = cc
  segment-take speed (p ∷ ps) (false ∷ b ∷ dwell) n l =
      let (k, f, e) = segment-take speed ps (b ∷ dwell) (omega arith) l in
      (suc k, later_dwell (b ∷ dwell) k f, ap (λ q. tracker_waypoint speed p ∷ q) e)

length-drop_eq :
    {A B : Type 0} (n : ℕ) (xs : List A) (ys : List B)
    → length xs ≡ length ys
    → length (drop n xs) ≡ length (drop n ys)
length-drop_eq zero xs ys e = e
length-drop_eq (suc n) [] [] e = refl
length-drop_eq (suc n) [] (y ∷ ys) e = absurd (omega arith)
length-drop_eq (suc n) (x ∷ xs) [] e = absurd (omega arith)
length-drop_eq (suc n) (x ∷ xs) (y ∷ ys) e = length-drop_eq n xs ys (omega arith)

get_last?-drop :
    {A : Type 0} (n : ℕ) (xs : List A) → n < length xs → get_last? (drop n xs) ≡ get_last? xs
get_last?-drop zero xs h = refl
get_last?-drop (suc n) [] h = absurd (omega arith)
get_last?-drop (suc n) (x ∷ []) h = absurd (omega arith)
get_last?-drop (suc n) (x ∷ y ∷ xs) h = get_last?-drop n (y ∷ xs) (omega arith)

module _ {F : Type 0} ⦃d : Double F⦄ where
  -- On a route in flight ExcuteState hands the tracker one path: the waypoints from the current one to
  -- the first dwell point that is left, that point included, at the speed of the mission.
  pub on_enter-path :
      (stof : String → Option F) (w : WaypointState F) (ctx : Context F) (goal : Vec3 F)
      (r : Reply F)
      → IsRoute w
      → w.wp_idx < length w.wp_list
      → on_enter stof w ctx ≡ ok (goal, r)
      → (k : ℕ) × (events : List (Effect F)) × IsFirstDwell (drop w.wp_idx w.is_dwell_point) k
        × (r.out
            ≡ send_pos_cmd
                (map (tracker_waypoint w.target_vel) (take (suc k) (drop w.wp_idx w.wp_list)))
              ∷ events)
  unfolding on_enter
  on_enter-path stof w ctx goal r route h e =
      let (k, f, p) =
        segment-take w.target_vel (drop w.wp_idx w.wp_list) (drop w.wp_idx w.is_dwell_point)
          (length-drop_eq w.wp_idx w.is_dwell_point w.wp_list route.flags)
          (get_last?-drop w.wp_idx w.is_dwell_point (rw route.flags h) ∙ route.stops) in
      let (q, _, e1) = >>=-eq-ok (get_cur_wp w) _ e in
      let (events, _, e2) = >>=-eq-ok (node_events stof w) _ e1 in
      (k, events, f, ground (arith, p, e2))
