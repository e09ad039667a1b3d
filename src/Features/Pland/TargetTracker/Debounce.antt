-- ===== src/Features/Pland/TargetTracker/Debounce.antt =====
-- When the target starts to move: the third frame in a row that leaves the others.
use dankong.Prelude.{
  ℕ, suc, ◌≤◌, ◌≡◌, ◌⊎◌, inl, inr, refl, ap, Bool, true, false, not, ◌&&◌, List, [], ◌∷◌, ltb, leb,
  ◌==◌, length, arith, Bool-cases,
}
use dankong.Prelude.Double.{Double}
use dankong.Prelude.Vec.{Vec2}
use dankong.Features.Pland.Window.{slide, length-slide}
use dankong.Features.Pland.TargetTracker.{
  TargetState, stationary, moving, TargetTracker, make, is_moving, deviates, settles, judge, update,
}

-- How many of the latest marks, the newest first, are set.
pub trailing : List Bool → ℕ
trailing [] = 0
trailing (true ∷ marks) = suc (trailing marks)
trailing (false ∷ marks) = 0

-- The counter is that of the latest far frames while the target stands still.
IsCount : TargetState → ℕ → List Bool → Type 0
IsCount stationary n marks = n ≡ trailing marks
IsCount moving n marks = n ≡ 0

IsCount-zero : (st : TargetState) (n : ℕ) (marks : List Bool) → n ≡ 0 → IsCount st n (false ∷ marks)
unfolding IsCount trailing
IsCount-zero stationary n marks h = h
IsCount-zero moving n marks h = h

IsCount-stationary :
    (st : TargetState) (n : ℕ) (marks : List Bool)
    → st ≡ stationary
    → IsCount st n marks
    → n ≡ trailing marks
unfolding IsCount
IsCount-stationary stationary n marks e h = h
IsCount-stationary moving n marks e h = cc e

module _ {F : Type 0} ⦃d : Double F⦄ where
  -- The frame leaves the others, by the state of the target.
  abbrev pub far_now : Vec2 F → TargetTracker F → TargetState → Bool
  far_now pos t stationary = deviates t.threshold pos t.history
  far_now pos t moving = false

  -- There are enough frames, and this one leaves the others of a target that stood still.
  unfoldable pub is_far : Vec2 F → TargetTracker F → Bool
  is_far pos t =
      let pushed = record t { history = slide t.window_size pos t.history } in
      not (ltb (length pushed.history) 5) && far_now pos pushed t.state

  -- The frames in order, with the marks of the frames, the newest first.
  unfoldable pub watch : TargetTracker F → List Bool → List (Vec2 F) → TargetTracker F × List Bool
  watch t marks [] = (t, marks)
  watch t marks (p ∷ ps) = watch (update p t) (is_far p t ∷ marks) ps

  record IsDebounced (t : TargetTracker F) (marks : List Bool) : Type 0 where
    window : length t.history ≤ t.window_size
    count : IsCount t.state t.move_counter marks
    few : t.move_counter ≤ 2
    early : (5 ≤ length t.history) ⊎ (t.move_counter ≡ 0)

  judge-IsDebounced :
      (pos : Vec2 F) (t : TargetTracker F) (st : TargetState) (marks : List Bool)
      → length t.history ≤ t.window_size
      → 5 ≤ length t.history
      → t.move_counter ≤ 2
      → t.state ≡ st
      → IsCount st t.move_counter marks
      → IsDebounced (judge pos t st) (far_now pos t st ∷ marks)
  unfolding judge trailing IsCount
  judge-IsDebounced pos t stationary marks w l f e h =
      elim (Bool-cases (deviates t.threshold pos t.history)) [
        | inl far ↦ elim (Bool-cases (leb 3 (suc t.move_counter))) [
          | inl third ↦
              rw (far, third)
                (record { window = w; count = refl; few = omega arith; early = inl l })
          | inr third ↦
              rw (far, third, e)
                (record { window = w; count = ap suc h; few = ground arith; early = inl l })
        ]
        | inr far ↦
            rw (far, e) (record { window = w; count = refl; few = omega arith; early = inl l })
      ]
  judge-IsDebounced pos t moving marks w l f e h =
      elim (Bool-cases (settles t.threshold pos t.history)) [
        | inl done ↦ rw done (record { window = w; count = refl; few = omega arith; early = inl l })
        | inr done ↦ rw (done, e) (record { window = w; count = h; few = f; early = inl l })
      ]

  -- The third far frame in a row, and no other one, starts the movement.
  judge-starts :
      (pos : Vec2 F) (t : TargetTracker F) (marks : List Bool)
      → t.state ≡ stationary
      → t.move_counter ≤ 2
      → t.move_counter ≡ trailing marks
      → is_moving (judge pos t stationary) ≡ (trailing (far_now pos t stationary ∷ marks) == 3)
  unfolding judge trailing
  judge-starts pos t marks e f h = elim (Bool-cases (deviates t.threshold pos t.history)) [
    | inl far ↦ elim (Bool-cases (leb 3 (suc t.move_counter))) [
      | inl third ↦ rw (far, third) (ground arith)
      | inr third ↦ rw (far, third, e) (ground arith)
    ]
    | inr far ↦ rw (far, e) refl
  ]

  update-IsDebounced :
      (pos : Vec2 F) (t : TargetTracker F) (marks : List Bool)
      → IsDebounced t marks
      → IsDebounced (update pos t) (is_far pos t ∷ marks)
  unfolding update is_far
  update-IsDebounced pos t marks i =
      let history = slide t.window_size pos t.history in
      let (within, grown) = length-slide t.window_size pos t.history (i.window) in
      elim (Bool-cases (ltb (length history) 5)) [
        | inl early ↦
            let none_yet : t.move_counter ≡ 0 = ground (arith, i.early) in
            rw early (record {
              window = within;
              count = IsCount-zero t.state t.move_counter marks none_yet;
              few = i.few;
              early = inr none_yet;
            })
        | inr enough ↦ rw enough (
            judge-IsDebounced pos (record t { history = history }) t.state marks within
              (ground arith) (i.few) refl (i.count))
      ]

  update-starts :
      (pos : Vec2 F) (t : TargetTracker F) (marks : List Bool)
      → IsDebounced t marks
      → t.state ≡ stationary
      → is_moving (update pos t) ≡ (trailing (is_far pos t ∷ marks) == 3)
  unfolding update is_far trailing
  update-starts pos t marks i e =
      let history = slide t.window_size pos t.history in
      let counted : t.move_counter ≡ trailing marks =
        IsCount-stationary t.state _ marks e (i.count) in
      elim (Bool-cases (ltb (length history) 5)) [
        | inl early ↦ rw (early, e) refl
        | inr enough ↦
            rw (enough, e)
              (judge-starts pos (record t { history = history; state = stationary }) marks refl
                (i.few) counted)
      ]

  watch-IsDebounced :
      (t : TargetTracker F) (marks : List Bool) (ps : List (Vec2 F))
      → IsDebounced t marks
      → (let (t', marks') = watch t marks ps in IsDebounced t' marks')
  unfolding watch
  watch-IsDebounced t marks [] i = i
  watch-IsDebounced t marks (p ∷ ps) i =
      watch-IsDebounced (update p t) (is_far p t ∷ marks) ps (update-IsDebounced p t marks i)

  make-IsDebounced : (size : ℕ) (threshold : F) → IsDebounced (make size threshold) []
  unfolding make IsCount trailing
  make-IsDebounced size threshold = record {
    window = omega arith;
    count = refl;
    few = omega arith;
    early = inr refl;
  }

  -- Whatever frames a new tracker has seen, its history is within the window, and the next frame of
  -- a target that stands still starts a movement exactly if it is the third in a row that leaves the
  -- others, once there are five frames.
  pub watch-starts :
      (size : ℕ) (threshold : F) (ps : List (Vec2 F)) (p : Vec2 F)
      → (watch (make size threshold) [] ps).0.state ≡ stationary
      → (let (t, marks) = watch (make size threshold) [] ps in
          (length t.history ≤ t.window_size)
          × (is_moving (update p t) ≡ (trailing (is_far p t ∷ marks) == 3)))
  watch-starts size threshold ps p e =
      let (t, marks) = watch (make size threshold) [] ps in
      let i = watch-IsDebounced (make size threshold) [] ps (make-IsDebounced size threshold) in
      (i.window, update-starts p t marks i e)
