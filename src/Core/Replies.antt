-- ===== src/Core/Replies.antt =====
-- What a handler of a state leaves behind: the context, its calls in order and its intent.
use dankong.Prelude.{List}
use dankong.Core.Fields.{Context}
use dankong.Core.Effects.{Effect, StateAction}

pub record Reply (F : Type 0) : Type 0 where
  pub ctx : Context F
  pub out : List (Effect F)
  pub action : StateAction F

abbrev pub reply : {F : Type 0} → Context F → List (Effect F) → StateAction F → Reply F
reply c es a = record { ctx = c; out = es; action = a }
