-- ===== src/Mavlink/Params/Walk.antt =====
-- load_pdef against a recursion over the tree.
use dankong.Prelude.{ℕ, zero, suc, ◌+◌, ◌≤◌, ◌≡◌, ◌∙◌, refl, List, [], ◌∷◌, arith}
use dankong.Mavlink.Params.{
  Element, element, Elements, childless, child, Pdef, visit, push_all, visit_loop, rooted,
  load_pdef,
}

unfoldable mutual
  -- The number of the elements.
  pub count : Element → ℕ
  count (element t children) = suc (counts children)

  pub counts : Elements → ℕ
  counts childless = 0
  counts (child c rest) = count c + counts rest

unfoldable mutual
  -- An element is visited before its children, and they from the last to the first.
  pub walk : Element → Pdef → Pdef
  walk (element t children) pdef = walks children (visit t children pdef)

  pub walks : Elements → Pdef → Pdef
  walks childless pdef = pdef
  walks (child c rest) pdef = walk c (walks rest pdef)

abbrev counted : List Element → ℕ
counted [] = 0
counted (e ∷ stack) = count e + counted stack

abbrev walk_stack : List Element → Pdef → Pdef
walk_stack [] pdef = pdef
walk_stack (e ∷ stack) pdef = walk_stack stack (walk e pdef)

counted-push_all :
    (cs : Elements) (stack : List Element) → counted (push_all cs stack) ≡ counts cs + counted stack
unfolding push_all counts
counted-push_all childless stack = omega arith
counted-push_all (child c rest) stack = omega (arith, counted-push_all rest (c ∷ stack))

walk_stack-push_all :
    (cs : Elements) (stack : List Element) (pdef : Pdef)
    → walk_stack (push_all cs stack) pdef ≡ walk_stack stack (walks cs pdef)
unfolding push_all walks
walk_stack-push_all childless stack pdef = refl
walk_stack-push_all (child c rest) stack pdef = walk_stack-push_all rest (c ∷ stack) pdef

visit_loop-walk :
    (fuel : ℕ) (stack : List Element) (pdef : Pdef)
    → counted stack ≤ fuel
    → visit_loop fuel stack pdef ≡ walk_stack stack pdef
unfolding visit_loop count walk
visit_loop-walk zero [] pdef h = refl
visit_loop-walk zero (element t cs ∷ stack) pdef h = absurd (omega arith)
visit_loop-walk (suc fuel) [] pdef h = refl
visit_loop-walk (suc fuel) (element t cs ∷ stack) pdef h =
    visit_loop-walk fuel (push_all cs stack) (visit t cs pdef)
      (omega (arith, counted-push_all cs stack))
    ∙ walk_stack-push_all cs stack (visit t cs pdef)

-- With a round for each element of the file, the loop of load_pdef ends, and what it has read is what
-- a recursion reads that visits each element once, before its children, and these from the last to
-- the first; of two entries with one name, the one that is visited later is kept.
pub load_pdef-walk :
    (fuel : ℕ) (root : Element) (old : Pdef)
    → count root ≤ fuel
    → load_pdef fuel (rooted root) old ≡ walk root []
unfolding load_pdef
load_pdef-walk fuel root old h = visit_loop-walk fuel (root ∷ []) [] (omega arith)
