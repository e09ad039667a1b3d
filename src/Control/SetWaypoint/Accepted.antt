-- ===== src/Control/SetWaypoint/Accepted.antt =====
-- What holds of a mission that was accepted.
use Prim.Native.String.{String}
use dankong.Prelude.{
  ◌≡◌, ◌≢◌, inl, inr, Bool, none, some, List, [], ◌∷◌, arith, is_empty, get_last?, Option-cases,
}
use dankong.Prelude.Double.{Double}
use dankong.Prelude.Vec.{Vec3}
use dankong.Core.{
  Context, SetWaypointEvent, return_action, ok, throws, >>=-eq-ok, Result-cases, resolve, text,
}
use dankong.Core.Answers.{answers, answers-append}
use dankong.StateUtils.{Utm, gps_to_enu}
use dankong.Control.Active.{Active}
use dankong.Control.SetWaypoint.{
  check_state, drop_first, convert, resolve_return, return_point, return_height, prepare, schedule,
  on_set_waypoint, takeoff_height,
}
use dankong.States.Waypoint.Mission.{make, on_enter}
use dankong.States.Waypoint.Mission.Route.{on_enter_throws}

module _ {F : Type 0} ⦃d : Double F⦄ where
  answers-schedule :
      (a : Active) (wp_empty : Bool) (alt : F) (e : SetWaypointEvent F)
      → answers (schedule a wp_empty alt e) ≡ 0
  unfolding schedule answers
  answers-schedule a wp_empty alt e = ground arith

  -- Every SetWaypoint request is answered exactly once, accepted or not.
  pub on_set_waypoint-answers :
      (utm : Utm F) (a : Active) (ctx : Context F) (e : SetWaypointEvent F)
      → answers (on_set_waypoint utm a ctx e) ≡ 1
  unfolding on_set_waypoint answers
  on_set_waypoint-answers utm a ctx e = elim (Result-cases (prepare utm a ctx e)) [
    | inl (m, h) ↦ ground (arith, h)
    | inr (ev, h) ↦
        let empty = is_empty e.waypoint in
        let alt = takeoff_height e.waypoint in
        ground (
          arith,
          h,
          answers-append (schedule a empty alt ev) (resolve (text "OK") ∷ []),
          answers-schedule a empty alt ev,
        )
  ]

  -- Where the robot may return to: the start of the mission if one is recorded, else the place of the
  -- takeoff, else the home of the flight controller, converted to ENU.
  pub data IsHome (utm : Utm F) (ctx : Context F) (p : Vec3 F) : Type 0 where
    from_mission : ctx.mission_home_enu ≡ some p → IsHome utm ctx p
    from_takeoff : ctx.mission_home_enu ≡ none → ctx.takeoff_enu ≡ some p → IsHome utm ctx p
    from_fcu :
        (g : Vec3 F)
        → ctx.mission_home_enu ≡ none
        → ctx.takeoff_enu ≡ none
        → ctx.fcu_home_gps ≡ some g
        → gps_to_enu utm ctx.lon_lat_alt ctx.pos_enu g ≡ some p
        → IsHome utm ctx p

  return_point-IsHome :
      (utm : Utm F) (ctx : Context F) {p : Vec3 F} → return_point utm ctx ≡ ok p → IsHome utm ctx p
  unfolding return_point
  return_point-IsHome utm ctx e = elim (Option-cases ctx.mission_home_enu) [
    | inr (m, hm) ↦ from_mission (ground (arith, hm))
    | inl hm ↦ elim (Option-cases ctx.takeoff_enu) [
      | inr (t, ht) ↦ from_takeoff hm (ground (arith, hm, ht))
      | inl ht ↦ elim (Option-cases ctx.fcu_home_gps) [
        | inl hg ↦ absurd (ground (arith, hm, ht, hg))
        | inr (g, hg) ↦ from_fcu g hm ht hg (ground (arith, hm, ht, hg))
      ]
    ]
  ]

  -- What a mission to return is resolved to.
  pub record IsReturn (utm : Utm F) (ctx : Context F) (ev : SetWaypointEvent F) : Type 0 where
    pub home : Vec3 F
    pub height : F
    pub is_home : IsHome utm ctx home
    pub point_eq : ev.return_enu ≡ some (record home { z = height })
    pub height_eq : (q : Vec3 F) → get_last? ev.waypoint ≡ some q → height ≡ q.z

  return_height_last :
      (a : Active) (ctx : Context F) (alt : F) (ps : List (Vec3 F)) (q : Vec3 F)
      → get_last? ps ≡ some q
      → return_height a ctx alt ps ≡ q.z
  unfolding return_height
  return_height_last a ctx alt ps q l = rw (l, return_height)

  waypoint-resolve_return :
      (utm : Utm F) (a : Active) (ctx : Context F) (alt : F) (e : SetWaypointEvent F)
      {ev : SetWaypointEvent F}
      → resolve_return utm a ctx alt e ≡ ok ev
      → ev.waypoint ≡ e.waypoint
  unfolding resolve_return
  waypoint-resolve_return utm a ctx alt e h = elim (Result-cases (return_point utm ctx)) [
    | inl (m, k) ↦ ground (arith, k)
    | inr (p, k) ↦ ground (arith, k)
  ]

  resolve_return-IsReturn :
      (utm : Utm F) (a : Active) (ctx : Context F) (alt : F) (e : SetWaypointEvent F)
      {ev : SetWaypointEvent F}
      → resolve_return utm a ctx alt e ≡ ok ev
      → ev.finish_action ≡ return_action
      → IsReturn utm ctx ev
  unfolding resolve_return
  resolve_return-IsReturn utm a ctx alt e h f = elim (Result-cases (return_point utm ctx)) [
    | inl (m, k) ↦ absurd (ground (arith, k))
    | inr (p, k) ↦ record {
      home = p;
      height = return_height a ctx alt e.waypoint;
      is_home = return_point-IsHome utm ctx k;
      point_eq = ground (arith, k);
      height_eq = λ q l.
          return_height_last a ctx alt e.waypoint q
            (rw (← waypoint-resolve_return utm a ctx alt e h) l);
    }
  ]

  -- An accepted mission to return goes to the home that comes first of those that are known, at the
  -- height of its last waypoint if it has one.
  pub prepare-IsReturn :
      (utm : Utm F) (a : Active) (ctx : Context F) (e ev : SetWaypointEvent F)
      → prepare utm a ctx e ≡ ok ev
      → ev.finish_action ≡ return_action
      → IsReturn utm ctx ev
  unfolding prepare
  prepare-IsReturn utm a ctx e ev h f =
      let (e1, _, h1) = >>=-eq-ok (check_state a e) _ h in
      let (e2, _, h2) =
        >>=-eq-ok (convert utm ctx (record e1 { waypoint = drop_first e1.waypoint })) _ h1 in
      resolve_return-IsReturn utm a ctx (takeoff_height e1.waypoint) e2 h2 f

  -- `on_enter` of the state never throws for an accepted mission, whatever the context is by then: the
  -- answer "OK", which was sent before, keeps true.
  pub accepted-enters :
      (utm : Utm F) (a : Active) (ctx ctx' : Context F) (e ev : SetWaypointEvent F) (msg : String)
      → prepare utm a ctx e ≡ ok ev
      → on_enter (make ev) ctx' ≢ throws msg
  unfolding make
  accepted-enters utm a ctx ctx' e ev msg h t =
      let (f, n) = on_enter_throws (make ev) ctx' msg t in
      let back = prepare-IsReturn utm a ctx e ev h f in ground (arith, n, back.point_eq)
