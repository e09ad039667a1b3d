-- ===== src/States/Waypoint/Mission/Route.antt =====
-- What `on_enter` makes of a route: its dwell flags match it, the last waypoint is a dwell point,
-- and it only throws where a mission to return has no point of return.
use Prim.Native.String.{String}
use dankong.Prelude.{
  suc, ◌≡◌, refl, ap, ◌∙◌, inl, inr, Bool, true, false, not, none, some, List, [], ◌∷◌, ◌++◌, arith,
  length, is_empty, set, replicate, get_last?, length-append, length-set, length-replicate,
  Option-cases,
}
use dankong.Prelude.Int.{ℤ, pos, negsuc}
use dankong.Prelude.Double.{Double}
use dankong.Prelude.Vec.{Vec3}
use dankong.Core.{Context, return_action, ok, throws, Result-cases, Reply, unhandled}
use dankong.States.Waypoint.Mission.{
  WaypointState, mark_dwell, set_back, mark_turns, on_enter, first_dwell, extend_route, begin_route,
  record_home, is_return,
}

length-mark_dwell : (is : List ℤ) (dwell : List Bool) → length (mark_dwell is dwell) ≡ length dwell
unfolding mark_dwell
length-mark_dwell [] dwell = refl
length-mark_dwell (pos i ∷ is) dwell =
    length-mark_dwell is (set dwell i true) ∙ length-set dwell i true
length-mark_dwell (negsuc i ∷ is) dwell = length-mark_dwell is dwell

length-set_back : (bs : List Bool) → length (set_back bs) ≡ length bs
unfolding set_back
length-set_back [] = refl
length-set_back (b ∷ []) = refl
length-set_back (b ∷ c ∷ bs) = ap suc (length-set_back (c ∷ bs))

get_last?-set_back : (b : Bool) (bs : List Bool) → get_last? (set_back (b ∷ bs)) ≡ some true
unfolding set_back
get_last?-set_back b [] = refl
get_last?-set_back b (c ∷ []) = refl
get_last?-set_back b (c ∷ e ∷ bs) = get_last?-set_back c (e ∷ bs)

get_last?-append {ℓ} : {A : Type ℓ} (xs : List A) (x : A) → get_last? (xs ++ (x ∷ [])) ≡ some x
get_last?-append [] x = refl
get_last?-append (y ∷ []) x = refl
get_last?-append (y ∷ z ∷ ys) x = get_last?-append (z ∷ ys) x

is_empty-append {ℓ} : {A : Type ℓ} (xs : List A) (x : A) → is_empty (xs ++ (x ∷ [])) ≡ false
is_empty-append [] x = refl
is_empty-append (y ∷ ys) x = refl

-- A route in flight: a flag for each waypoint, and a stop at the last one.
pub record IsRoute {F : Type 0} (w : WaypointState F) : Type 0 where
  pub flags : length w.is_dwell_point ≡ length w.wp_list
  pub stops : get_last? w.is_dwell_point ≡ some true

module _ {F : Type 0} ⦃d : Double F⦄ where
  length-mark_turns :
      (ps : List (Vec3 F)) (dwell : List Bool) → length (mark_turns ps dwell) ≡ length dwell
  unfolding mark_turns
  length-mark_turns [] dwell = refl
  length-mark_turns (a ∷ []) dwell = refl
  length-mark_turns (a ∷ b ∷ []) dwell = refl
  length-mark_turns (a ∷ b ∷ c ∷ ps) [] = refl
  length-mark_turns (a ∷ b ∷ c ∷ ps) (x ∷ []) = refl
  length-mark_turns (a ∷ b ∷ c ∷ ps) (x ∷ y ∷ dwell) =
      ap suc (length-mark_turns (b ∷ c ∷ ps) (_ ∷ dwell))

  length-first_dwell : (w : WaypointState F) → length (first_dwell w) ≡ length w.wp_list
  length-first_dwell w =
      let flags = replicate (length w.wp_list) (not w.skip_lifting) in
      ground (
        arith,
        length-mark_dwell w.dwell_indices flags,
        length-replicate (length w.wp_list) (not w.skip_lifting),
      )

  -- The flags keep up with the route when the point of return is appended.
  length-extend_route :
      (w : WaypointState F) (dwell : List Bool) {w' : WaypointState F}
      → length dwell ≡ length w.wp_list
      → extend_route w dwell ≡ ok w'
      → length w'.is_dwell_point ≡ length w'.wp_list
  unfolding is_return
  length-extend_route w dwell n e = elim (Option-cases w.return_enu) [
    | inl h ↦ ground (arith, h)
    | inr (p, h) ↦
        ground (arith, h, length-append w.wp_list (p ∷ []), length-append dwell (true ∷ []))
  ]

  wp_idx-extend_route :
      (w : WaypointState F) (dwell : List Bool) {w' : WaypointState F}
      → extend_route w dwell ≡ ok w'
      → w'.wp_idx ≡ w.wp_idx
  unfolding is_return
  wp_idx-extend_route w dwell e = elim (Option-cases w.return_enu) [
    | inl h ↦ ground (arith, h)
    | inr (p, h) ↦ ground (arith, h)
  ]

  set_back-IsRoute :
      (w : WaypointState F) (dwell : List Bool)
      → length dwell ≡ length w.wp_list
      → is_empty w.wp_list ≡ false
      → IsRoute (record w { is_dwell_point = set_back (mark_turns w.wp_list dwell) })
  set_back-IsRoute w dwell n h = go (mark_turns w.wp_list dwell) (length-mark_turns w.wp_list dwell)
    where
      go :
          (marked : List Bool)
          → length marked ≡ length dwell
          → IsRoute (record w { is_dwell_point = set_back marked })
      go [] m = ground (arith, length-set_back [])
      go (b ∷ bs) m = record {
        flags = length-set_back (b ∷ bs) ∙ m ∙ n;
        stops = get_last?-set_back b bs;
      }

  begin_route-IsRoute :
      (w w' : WaypointState F) (ctx : Context F) (r : Reply F)
      → length w.is_dwell_point ≡ length w.wp_list
      → begin_route w ctx ≡ ok (w', r)
      → r.action ≡ unhandled
      → IsRoute w' × (w'.wp_idx ≡ w.wp_idx)
  unfolding begin_route
  begin_route-IsRoute w w' ctx r n e u = ground (arith, set_back-IsRoute w w.is_dwell_point n)

  -- If `on_enter` accepts the mission and does not leave the state at once, the route is ready to
  -- fly: each waypoint has a dwell flag, the last one is a dwell point, and the index is unchanged.
  pub on_enter-IsRoute :
      (w w' : WaypointState F) (ctx : Context F) (r : Reply F)
      → on_enter w ctx ≡ ok (w', r)
      → r.action ≡ unhandled
      → IsRoute w' × (w'.wp_idx ≡ w.wp_idx)
  unfolding on_enter
  on_enter-IsRoute w w' ctx r e u = elim (Result-cases (extend_route w (first_dwell w))) [
    | inl (m, h) ↦ cc (rw (h, on_enter) at e)
    | inr (v, h) ↦
        let begun =
          begin_route-IsRoute v w' (record_home w ctx) r
            (length-extend_route w (first_dwell w) (length-first_dwell w) h) (rw (h, on_enter) at e)
            u in
        (begun.0, begun.1 ∙ wp_idx-extend_route w (first_dwell w) h)
  ]

  begin_route_throws :
      (w : WaypointState F) (ctx : Context F) (text : String)
      → begin_route w ctx ≡ throws text
      → (is_empty w.wp_list ≡ true) × (w.finish_action ≡ return_action)
  unfolding begin_route
  begin_route_throws w ctx text e = ground arith

  extend_route_throws :
      (w : WaypointState F) (dwell : List Bool) (text : String)
      → extend_route w dwell ≡ throws text
      → (w.finish_action ≡ return_action) × (w.return_enu ≡ none)
  unfolding is_return
  extend_route_throws w dwell text e = elim (Option-cases w.return_enu) [
    | inl h ↦ ground (arith, h)
    | inr (p, h) ↦ ground (arith, h)
  ]

  extend_route_return :
      (w : WaypointState F) (dwell : List Bool) {w' : WaypointState F}
      → extend_route w dwell ≡ ok w'
      → w'.finish_action ≡ return_action
      → is_empty w'.wp_list ≡ false
  unfolding is_return
  extend_route_return w dwell e f = elim (Option-cases w.return_enu) [
    | inl h ↦ ground (arith, h)
    | inr (p, h) ↦ ground (arith, h, is_empty-append w.wp_list p)
  ]

  -- `on_enter` throws only where the mission returns and has no point of return.
  pub on_enter_throws :
      (w : WaypointState F) (ctx : Context F) (text : String)
      → on_enter w ctx ≡ throws text
      → (w.finish_action ≡ return_action) × (w.return_enu ≡ none)
  unfolding on_enter
  on_enter_throws w ctx text e = elim (Result-cases (extend_route w (first_dwell w))) [
    | inl (m, h) ↦ extend_route_throws w (first_dwell w) m h
    | inr (v, h) ↦
        let (empty, back) = begin_route_throws v (record_home w ctx) text (rw (h, on_enter) at e) in
        cc (extend_route_return w (first_dwell w) h back)
  ]

  get_last?-extend_route :
      (w : WaypointState F) (dwell : List Bool) {w' : WaypointState F}
      → extend_route w dwell ≡ ok w'
      → w.finish_action ≡ return_action
      → get_last? w'.wp_list ≡ w.return_enu
  unfolding is_return
  get_last?-extend_route w dwell e f = elim (Option-cases w.return_enu) [
    | inl h ↦ ground (arith, e, f, h)
    | inr (p, h) ↦ ground (arith, e, f, h, get_last?-append w.wp_list p)
  ]

  -- A mission to return that begins ends at its point of return.
  pub on_enter-return_enu :
      (w w' : WaypointState F) (ctx : Context F) (r : Reply F)
      → on_enter w ctx ≡ ok (w', r)
      → w.finish_action ≡ return_action
      → get_last? w'.wp_list ≡ w.return_enu
  unfolding on_enter begin_route
  on_enter-return_enu w w' ctx r e f = elim (Result-cases (extend_route w (first_dwell w))) [
    | inl (m, h) ↦ cc (rw (h, on_enter) at e)
    | inr (v, h) ↦
        let begun = rw (h, on_enter) at e in
        let last = get_last?-extend_route w (first_dwell w) h f in ground (arith, begun, last)
  ]
