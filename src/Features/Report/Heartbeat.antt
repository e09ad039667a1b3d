-- ===== src/Features/Report/Heartbeat.antt =====
-- When the listener of the reports publishes, over its ticks.
use dankong.Prelude.{
  ◌≡◌, refl, ◌⊎◌, inl, inr, Bool, true, false, List, [], ◌∷◌, ◌++◌, All, arith, if◌then◌else◌,
}
use dankong.Prelude.Double.{Double, ◌-f◌, ◌/f◌, ◌<f◌, ◌≤f◌, lit, nought}
use dankong.Features.Report.{heartbeat, beat, report_tick}

-- A tick of the listener, and whether the registry reports nothing at it.
pub record Tick (F : Type 0) : Type 0 where
  pub now : F
  pub empty : Bool

module _ {F : Type 0} ⦃d : Double F⦄ where
  -- The times of the ticks that publish a message.
  unfoldable pub publications : F → List (Tick F) → F → List F
  unfolding report_tick
  publications hz [] last = []
  publications hz (t ∷ ts) last =
      let (sent, last') = report_tick t.empty hz t.now last in
      let rest = publications hz ts last' in if sent then t.now ∷ rest else rest

  -- An interval of the heartbeat has passed since `last`.
  abbrev pub is_due : F → F → F → Bool
  is_due hz last now = lit 1 0 /f hz ≤f now -f last

  -- There is nothing to report, and the heartbeat is not due.
  abbrev pub IsQuiet : F → F → Tick F → Type 0
  IsQuiet hz last t = (t.empty ≡ true) × (is_due hz last t.now ≡ false)

  -- The publications over some ticks behind one at `last`: either every tick is quiet, or the first
  -- one that is not publishes, and so on from it.
  pub data IsPaced (hz : F) : F → List (Tick F) → List F → Type 0 where
    over : {last : F} {ts : List (Tick F)} → All (IsQuiet hz last) ts → IsPaced hz last ts []
    next :
        {last : F} {ts : List (Tick F)} {ps : List F} (quiet : List (Tick F)) (t : Tick F)
        → All (IsQuiet hz last) quiet
        → (t.empty ≡ false) ⊎ (is_due hz last t.now ≡ true)
        → IsPaced hz t.now ts ps
        → IsPaced hz last (quiet ++ (t ∷ ts)) (t.now ∷ ps)

  -- A quiet tick in front of paced ones.
  wait :
      {hz last : F} {ts : List (Tick F)} {ps : List F} (t : Tick F)
      → IsQuiet hz last t
      → IsPaced hz last ts ps
      → IsPaced hz last (t ∷ ts) ps
  wait t q (over qs) = over (q, qs)
  wait t q (next quiet t' qs w p) = next (t ∷ quiet) t' (q, qs) w p

  heartbeat-armed :
      (hz now last : F)
      → (nought <f hz) ≡ true
      → (last ≤f nought) ≡ false
      → heartbeat hz now last ≡ (is_due hz last now, last)
  unfolding heartbeat
  heartbeat-armed hz now last h k = rw (h, k) refl

  -- A tick publishes, which is its last publication then, exactly if it is not quiet.
  tick-loud :
      (hz last : F) (t : Tick F)
      → (nought <f hz) ≡ true
      → (last ≤f nought) ≡ false
      → ((report_tick t.empty hz t.now last ≡ (true, t.now))
          × ((t.empty ≡ false) ⊎ (is_due hz last t.now ≡ true)))
        ⊎ ((report_tick t.empty hz t.now last ≡ (false, last)) × IsQuiet hz last t)
  unfolding report_tick beat
  tick-loud hz last t h k = ground (arith, heartbeat-armed hz t.now last h k)

  -- With a positive rate of the heartbeat, a message published at a positive time before, and ticks at
  -- positive times: every publication is at the first tick behind the publication before it at which
  -- there is something to report or an interval of the heartbeat has passed, and there is none behind
  -- the last only if no tick behind that is such.
  pub publications-IsPaced :
      (hz : F) (ts : List (Tick F)) (last : F)
      → (nought <f hz) ≡ true
      → (last ≤f nought) ≡ false
      → All (λ t. (t.now ≤f nought) ≡ false) ts
      → IsPaced hz last ts (publications hz ts last)
  unfolding publications
  publications-IsPaced hz [] last h k a = over tt
  publications-IsPaced hz (t ∷ ts) last h k (pos, later) = elim (tick-loud hz last t h k) [
    | inl (e, w) ↦ rw e (next [] t tt w (publications-IsPaced hz ts t.now h pos later))
    | inr (e, q) ↦ rw e (wait t q (publications-IsPaced hz ts last h k later))
  ]
