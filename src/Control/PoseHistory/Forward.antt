-- ===== src/Control/PoseHistory/Forward.antt =====
-- The order and the age of the records of a buffer of PoseHistory.
use dankong.Prelude.{◌≡◌, inl, inr, false, List, [], ◌∷◌, ◌++◌, arith, Bool-cases}
use dankong.Prelude.Double.{Double, ◌-f◌, ◌<f◌, ◌≤f◌, lit}
use dankong.Control.PoseHistory.{Timed, is_stale, trim, push}

module _ {F V : Type 0} ⦃d : Double F⦄ where
  -- No record has a stamp that is at or before that of the record in front of it.
  unfoldable pub IsForward : List (Timed F V) → Type 0
  IsForward [] = Unit
  IsForward (a ∷ []) = Unit
  IsForward (a ∷ b ∷ buf) = ((b.stamp ≤f a.stamp) ≡ false) × IsForward (b ∷ buf)

  -- Of more than two records, none is older than two seconds at `t`.
  unfoldable pub IsRecent : F → List (Timed F V) → Type 0
  IsRecent t (a ∷ b ∷ c ∷ buf) = (lit 2 0 <f (t -f a.stamp)) ≡ false
  IsRecent t buf = Unit

  trim-IsForward : (t : F) (buf : List (Timed F V)) → IsForward buf → IsForward (trim t buf)
  unfolding trim IsForward
  trim-IsForward t [] f = f
  trim-IsForward t (a ∷ []) f = f
  trim-IsForward t (a ∷ b ∷ []) f = f
  trim-IsForward t (a ∷ b ∷ c ∷ buf) f = ground (arith, f, trim-IsForward t (b ∷ c ∷ buf) f.1)

  trim-IsRecent : (t : F) (buf : List (Timed F V)) → IsRecent t (trim t buf)
  unfolding trim IsRecent
  trim-IsRecent t [] = ground arith
  trim-IsRecent t (a ∷ []) = ground arith
  trim-IsRecent t (a ∷ b ∷ []) = ground arith
  trim-IsRecent t (a ∷ b ∷ c ∷ buf) = ground (arith, trim-IsRecent t (b ∷ c ∷ buf))

  append-IsForward :
      (buf : List (Timed F V)) (r : Timed F V)
      → IsForward buf
      → is_stale r.stamp buf ≡ false
      → IsForward (buf ++ (r ∷ []))
  unfolding IsForward is_stale
  append-IsForward [] r f s = ground arith
  append-IsForward (a ∷ []) r f s = ground (arith, s)
  append-IsForward (a ∷ b ∷ buf) r f s = (f.0, append-IsForward (b ∷ buf) r f.1 s)

  push-IsForward :
      (t : F) (v : V) (buf : List (Timed F V)) → IsForward buf → IsForward (push t v buf)
  unfolding push
  push-IsForward t v buf f = elim (Bool-cases (is_stale t buf)) [
    | inl h ↦ rw (h, push) f
    | inr h ↦
        rw (h, push)
          (trim-IsForward t (buf ++ (record { stamp = t; value = v } ∷ []))
            (append-IsForward buf (record { stamp = t; value = v }) f h))
  ]

  unfoldable pub push_all : List (F × V) → List (Timed F V) → List (Timed F V)
  push_all [] buf = buf
  push_all ((t, v) ∷ rs) buf = push_all rs (push t v buf)

  -- Whatever measurements come in whatever order of their times, a buffer whose records go forward in
  -- time keeps going forward: a record at or before the last one is refused.
  pub push_all-IsForward :
      (rs : List (F × V)) (buf : List (Timed F V)) → IsForward buf → IsForward (push_all rs buf)
  unfolding push_all
  push_all-IsForward [] buf f = f
  push_all-IsForward ((t, v) ∷ rs) buf f =
      push_all-IsForward rs (push t v buf) (push-IsForward t v buf f)

  -- A measurement that is taken in leaves a buffer of two records at most, or one whose first record
  -- is no older than two seconds at its time.
  pub push-IsRecent :
      (t : F) (v : V) (buf : List (Timed F V)) → is_stale t buf ≡ false → IsRecent t (push t v buf)
  unfolding push
  push-IsRecent t v buf h =
      rw (h, push) (trim-IsRecent t (buf ++ (record { stamp = t; value = v } ∷ [])))
