-- ===== src/Utils/Datum.antt =====
-- include/utils/datum_synchronizer.hpp: DatumSynchronizer pairs positions with GPS fixes by time. A
-- deque is a list, its front first.
pub mod Sized
use dankong.Prelude.{
  ℕ, zero, suc, Bool, true, false, ◌&&◌, Option, none, some, List, [], ◌∷◌, ◌++◌, length, get_last?,
  drop, ltb, if◌then◌else◌,
}
use dankong.Prelude.Double.{Double, ◌+f◌, ◌-f◌, ◌*f◌, ◌/f◌, ◌<f◌, ◌≤f◌, lit, nought}
use dankong.Prelude.Vec.{Vec3, vec3, zero3, ◌-v◌, ◌+v◌, scale}

-- StampedENU and StampedGPS.
pub record Stamped (F : Type 0) : Type 0 where
  pub time : F
  pub position : Vec3 F

pub record SyncedPair (F : Type 0) : Type 0 where
  pub time : F
  pub enu : Vec3 F
  pub gps : Vec3 F

pub record Synchronizer (F : Type 0) : Type 0 where
  pub max_time_diff : F
  pub window_size : ℕ
  pub enu_buffer : List (Stamped F)
  pub gps_buffer : List (Stamped F)
  pub synced_window : List (SyncedPair F)

-- push_back, and pop_front past the limit.
unfoldable pub push_bounded {ℓ} : {A : Type ℓ} → ℕ → List A → A → List A
push_bounded limit xs x =
    if ltb limit (length (xs ++ (x ∷ []))) then drop 1 (xs ++ (x ∷ [])) else xs ++ (x ∷ [])

module _ {F : Type 0} ⦃d : Double F⦄ where
  -- The position at a time between two frames, unless they are too far apart.
  unfoldable pub interpolate_frames : F → F → Stamped F → Stamped F → Option (Vec3 F)
  interpolate_frames max_time_diff target_time enu_1 enu_2 =
      let dt = enu_2.time -f enu_1.time in
      let ratio = (target_time -f enu_1.time) /f dt in
      if max_time_diff <f dt
      then none
      else if dt <f lit 1 6
      then some enu_1.position
      else some (enu_1.position +v scale ratio (enu_2.position -v enu_1.position))

  unfoldable pub interpolate_enu : F → List (Stamped F) → F → Option (Vec3 F)
  unfolding interpolate_frames
  interpolate_enu max_time_diff [] target_time = none
  interpolate_enu max_time_diff (enu_1 ∷ []) target_time = none
  interpolate_enu max_time_diff (enu_1 ∷ enu_2 ∷ frames) target_time =
      let rest = interpolate_enu max_time_diff (enu_2 ∷ frames) target_time in
      if (enu_1.time ≤f target_time) && (target_time ≤f enu_2.time)
      then interpolate_frames max_time_diff target_time enu_1 enu_2
      else rest

  -- A fix that is handled: its pair joins the window if it has a position.
  unfoldable pub add_pair :
      ℕ → Stamped F → Option (Vec3 F) → List (SyncedPair F) → List (SyncedPair F)
  add_pair window_size fix none window = window
  add_pair window_size fix (some enu) window =
      push_bounded window_size window (record { time = fix.time; enu = enu; gps = fix.position })

  unfoldable pub is_before_front : F → List (Stamped F) → Bool
  is_before_front time [] = false
  is_before_front time (e ∷ es) = time <f e.time

  unfoldable pub is_after_back : F → List (Stamped F) → Bool
  is_after_back time es = elim (get_last? es) [ none ↦ false | some e ↦ e.time <f time ]

  -- The loop of trySync over the fixes: those that are left, and the window.
  unfoldable pub sync :
      F
      → ℕ
      → List (Stamped F)
      → List (Stamped F)
      → List (SyncedPair F)
      → List (Stamped F) × List (SyncedPair F)
  unfolding interpolate_enu add_pair is_before_front is_after_back
  sync max_time_diff window_size enus [] window = ([], window)
  sync max_time_diff window_size enus (fix ∷ fixes) window =
      let dropped = sync max_time_diff window_size enus fixes window in
      let handled =
        sync max_time_diff window_size enus fixes
          (add_pair window_size fix (interpolate_enu max_time_diff enus fix.time) window) in
      if ltb (length enus) 2
      then (fix ∷ fixes, window)
      else if is_before_front fix.time enus
      then dropped
      else if is_after_back fix.time enus
      then (fix ∷ fixes, window)
      else handled

  unfoldable pub try_sync : Synchronizer F → Synchronizer F
  unfolding sync
  try_sync s =
      let (gps, window) =
        sync s.max_time_diff s.window_size s.enu_buffer s.gps_buffer s.synced_window in
      record s { gps_buffer = gps; synced_window = window }

  unfoldable pub push_enu : Vec3 F → F → Synchronizer F → Synchronizer F
  unfolding try_sync
  push_enu enu time s = try_sync (record s {
    enu_buffer = push_bounded 200 s.enu_buffer (record { time = time; position = enu });
  })

  unfoldable pub push_gps : Vec3 F → F → Synchronizer F → Synchronizer F
  unfolding try_sync
  push_gps gps time s = try_sync (record s {
    gps_buffer = push_bounded 50 s.gps_buffer (record { time = time; position = gps });
  })

  -- isWindowReliable: the sums over the window, and their means; `size` is the window's size.
  unfoldable pub sum_enu : Vec3 F → List (SyncedPair F) → Vec3 F
  sum_enu acc [] = acc
  sum_enu acc (p ∷ ps) = sum_enu (acc +v p.enu) ps

  unfoldable pub sum_square : Vec3 F → F → List (SyncedPair F) → F
  sum_square mean acc [] = acc
  sum_square mean acc (p ∷ ps) =
      let e = p.enu -v mean in sum_square mean (acc +f (e.x *f e.x +f e.y *f e.y +f e.z *f e.z)) ps

  unfoldable pub is_window_reliable : List (SyncedPair F) → Bool
  unfolding sum_enu sum_square
  is_window_reliable window =
      let size = lit (length window) 0 in
      let sum = sum_enu zero3 window in
      let mean = vec3 (sum.x /f size) (sum.y /f size) (sum.z /f size) in
      (sum_square mean nought window /f size) <f lit 5 0

  unfoldable pub get_reliable_datum : Synchronizer F → Option (SyncedPair F)
  unfolding is_window_reliable
  get_reliable_datum s =
      if ltb (length s.synced_window) s.window_size
      then none
      else if is_window_reliable s.synced_window
      then get_last? s.synced_window
      else none
