-- ===== src/Utils/Datum/Sized.antt =====
-- The buffers of the synchronizer over its pushes, and what is left in them.
use dankong.Prelude.{
  ℕ, ◌≤◌, ◌<◌, ◌≡◌, ◌⊎◌, true, Option, none, some, List, [], ◌∷◌, arith, length, length-append,
}
use dankong.Prelude.Double.{Double}
use dankong.Prelude.Vec.{Vec3}
use dankong.Utils.Datum.{
  Stamped, SyncedPair, Synchronizer, push_bounded, interpolate_enu, add_pair, is_after_back, sync,
  try_sync, push_enu, push_gps,
}

length-push_bounded {ℓ} :
    {A : Type ℓ} (limit : ℕ) (xs : List A) (x : A)
    → length xs ≤ limit
    → length (push_bounded limit xs x) ≤ limit
unfolding push_bounded
length-push_bounded limit [] x h = ground arith
length-push_bounded limit (y ∷ ys) x h = ground (arith, h, length-append ys (x ∷ []))

-- What the two callbacks push.
pub data Event (F : Type 0) : Type 0 where
  got_enu got_gps : Vec3 F → F → Event F

module _ {F : Type 0} ⦃d : Double F⦄ where
  pub record IsSized (s : Synchronizer F) : Type 0 where
    pub enu_size : length s.enu_buffer ≤ 200
    pub gps_size : length s.gps_buffer ≤ 50
    pub window_size : length s.synced_window ≤ s.window_size

  -- No fix is left, or the first one waits for positions.
  unfoldable pub IsWaiting : List (Stamped F) → List (Stamped F) → Type 0
  IsWaiting enus [] = Unit
  IsWaiting enus (fix ∷ fixes) = (length enus < 2) ⊎ (is_after_back fix.time enus ≡ true)

  add_pair-size :
      (n : ℕ) (fix : Stamped F) (enu : Option (Vec3 F)) (window : List (SyncedPair F))
      → length window ≤ n
      → length (add_pair n fix enu window) ≤ n
  unfolding add_pair
  add_pair-size n fix none window h = h
  add_pair-size n fix (some enu) window h = length-push_bounded n window _ h

  sync-sizes :
      (m : F) (n : ℕ) (enus fixes : List (Stamped F)) (window : List (SyncedPair F))
      → length window ≤ n
      → (length (sync m n enus fixes window).0 ≤ length fixes)
        × (length (sync m n enus fixes window).1 ≤ n)
  unfolding sync
  sync-sizes m n enus [] window h = ground (arith, h)
  sync-sizes m n enus (fix ∷ fixes) window h =
      let next = add_pair n fix (interpolate_enu m enus fix.time) window in
      let dropped = sync-sizes m n enus fixes window h in
      let handled =
        sync-sizes m n enus fixes next
          (add_pair-size n fix (interpolate_enu m enus fix.time) window h) in
      ground (arith, dropped, handled, h)

  sync-IsWaiting :
      (m : F) (n : ℕ) (enus fixes : List (Stamped F)) (window : List (SyncedPair F))
      → IsWaiting enus (sync m n enus fixes window).0
  unfolding sync IsWaiting
  sync-IsWaiting m n enus [] window = ground arith
  sync-IsWaiting m n enus (fix ∷ fixes) window =
      let next = add_pair n fix (interpolate_enu m enus fix.time) window in
      ground (arith, sync-IsWaiting m n enus fixes window, sync-IsWaiting m n enus fixes next)

  unfoldable pub run : List (Event F) → Synchronizer F → Synchronizer F
  run [] s = s
  run (got_enu p time ∷ es) s = run es (push_enu p time s)
  run (got_gps p time ∷ es) s = run es (push_gps p time s)

  push_enu-IsSized :
      (p : Vec3 F) (time : F) (s : Synchronizer F) → IsSized s → IsSized (push_enu p time s)
  unfolding push_enu try_sync
  push_enu-IsSized p time s i =
      let enus = push_bounded 200 s.enu_buffer (record { time = time; position = p }) in
      let (gps, window) =
        sync-sizes s.max_time_diff s.window_size enus s.gps_buffer s.synced_window i.window_size in
      record {
        enu_size = length-push_bounded 200 s.enu_buffer _ i.enu_size;
        gps_size = omega (arith, gps, i.gps_size);
        window_size = window;
      }

  push_gps-IsSized :
      (p : Vec3 F) (time : F) (s : Synchronizer F) → IsSized s → IsSized (push_gps p time s)
  unfolding push_gps try_sync
  push_gps-IsSized p time s i =
      let fixes = push_bounded 50 s.gps_buffer (record { time = time; position = p }) in
      let (gps, window) =
        sync-sizes s.max_time_diff s.window_size s.enu_buffer fixes s.synced_window i.window_size in
      let pushed =
        length-push_bounded 50 s.gps_buffer (record { time = time; position = p }) i.gps_size in
      record { enu_size = i.enu_size; gps_size = omega (arith, gps, pushed); window_size = window }

  -- Whatever positions and fixes come in whatever order, the buffers stay within 200 and 50 entries
  -- and the window within its size, if they are at the start.
  pub run-IsSized : (es : List (Event F)) (s : Synchronizer F) → IsSized s → IsSized (run es s)
  unfolding run
  run-IsSized [] s i = i
  run-IsSized (got_enu p time ∷ es) s i =
      run-IsSized es (push_enu p time s) (push_enu-IsSized p time s i)
  run-IsSized (got_gps p time ∷ es) s i =
      run-IsSized es (push_gps p time s) (push_gps-IsSized p time s i)

  -- After a position or a fix came in, no fix is left that could be handled: either none is left, or
  -- there are fewer than two positions, or the first fix is later than the last position.
  pub push-IsWaiting :
      (p : Vec3 F) (time : F) (s : Synchronizer F)
      → IsWaiting (push_enu p time s).enu_buffer (push_enu p time s).gps_buffer
        × IsWaiting (push_gps p time s).enu_buffer (push_gps p time s).gps_buffer
  unfolding push_enu push_gps try_sync
  push-IsWaiting p time s = (
    sync-IsWaiting s.max_time_diff s.window_size
        (push_bounded 200 s.enu_buffer (record { time = time; position = p })) s.gps_buffer
        s.synced_window,
    sync-IsWaiting s.max_time_diff s.window_size s.enu_buffer
        (push_bounded 50 s.gps_buffer (record { time = time; position = p })) s.synced_window,
  )
