-- ===== src/Control/PoseHistory/Bracket.antt =====
-- Where a value that is looked up in a buffer of PoseHistory comes from.
use dankong.Prelude.{
  ◌≡◌, inl, inr, refl, true, false, some, List, [], ◌∷◌, arith, get_last?, Bool-cases, Option-cases,
}
use dankong.Prelude.Double.{Double, ◌-f◌, ◌<f◌, ◌≤f◌, lit}
use dankong.Control.PoseHistory.{Timed, at_end, between, get_at}

module _ {F V : Type 0} where
  -- `a` stands directly in front of `b` in the buffer.
  pub data IsAdjacent (a b : Timed F V) : List (Timed F V) → Type 0 where
    here : {buf : List (Timed F V)} → IsAdjacent a b (a ∷ b ∷ buf)
    there : {r : Timed F V} {buf : List (Timed F V)} → IsAdjacent a b buf → IsAdjacent a b (r ∷ buf)

module _ {F V : Type 0} ⦃d : Double F⦄ where
  -- The value `v` for the time `t`: that of the last record, or of the first one, at a time that is
  -- within the tolerance of it, or what `mix` makes of two adjacent records of which the first is
  -- before the time and the second is not.
  pub data IsSource (mix : Timed F V → Timed F V → F → V) (t : F) (buf : List (Timed F V)) (v : V)
      : Type 0 where
    first :
        (a : Timed F V) (rest : List (Timed F V))
        → buf ≡ a ∷ rest
        → (t ≤f a.stamp) ≡ true
        → (lit 15 2 <f (a.stamp -f t)) ≡ false
        → v ≡ a.value
        → IsSource mix t buf v
    last :
        (a : Timed F V)
        → get_last? buf ≡ some a
        → (a.stamp ≤f t) ≡ true
        → (lit 15 2 <f (t -f a.stamp)) ≡ false
        → v ≡ a.value
        → IsSource mix t buf v
    mixed :
        (a b : Timed F V)
        → IsAdjacent a b buf
        → (a.stamp <f t) ≡ true
        → (b.stamp <f t) ≡ false
        → v ≡ mix a b t
        → IsSource mix t buf v

  between-mixed :
      (mix : Timed F V → Timed F V → F → V) (t : F) (a : Timed F V) (buf : List (Timed F V)) (v : V)
      (diff : F)
      → (a.stamp <f t) ≡ true
      → between mix t (a ∷ buf) ≡ some (v, diff)
      → (x : Timed F V) × (y : Timed F V) × IsAdjacent x y (a ∷ buf)
        × ((x.stamp <f t) ≡ true)
        × ((y.stamp <f t) ≡ false)
        × (v ≡ mix x y t)
  unfolding between
  between-mixed mix t a [] v diff h e = cc e
  between-mixed mix t a (b ∷ buf) v diff h e = elim (Bool-cases (b.stamp <f t)) [
    | inl k ↦
        let (x, y, i, p, q, r) = between-mixed mix t b buf v diff k (rw (k, between) at e) in
        (x, y, there i, p, q, r)
    | inr k ↦ (a, b, here, h, k, ground (arith, k, e))
  ]

  -- A value that is found is that of an end of the buffer within the tolerance, or is made of two
  -- adjacent records around the time.
  pub get_at-IsSource :
      (mix : Timed F V → Timed F V → F → V) (t : F) (buf : List (Timed F V)) (v : V) (diff : F)
      → get_at mix t buf ≡ some (v, diff)
      → IsSource mix t buf v
  unfolding get_at at_end
  get_at-IsSource mix t [] v diff e = cc e
  get_at-IsSource mix t (a ∷ buf) v diff e = elim (Option-cases (get_last? (a ∷ buf))) [
    | inl h ↦ cc (rw (h, get_at) at e)
    | inr (l, h) ↦ elim (Bool-cases (t ≤f a.stamp)) [
      | inl p ↦ first a buf refl p (ground (arith, h, p, e)) (ground (arith, h, p, e))
      | inr p ↦ elim (Bool-cases (l.stamp ≤f t)) [
        | inl q ↦ last l h q (ground (arith, h, p, q, e)) (ground (arith, h, p, q, e))
        | inr q ↦ elim (Bool-cases (a.stamp <f t)) [
          | inl r ↦
              let (x, y, i, j, k, m) =
                between-mixed mix t a buf v diff r (ground (arith, h, p, q, r, e)) in
              mixed x y i j k m
          | inr r ↦ absurd (ground (arith, h, p, q, r, e))
        ]
      ]
    ]
  ]
