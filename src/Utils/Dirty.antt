-- ===== src/Utils/Dirty.antt =====
-- include/utils/dirty_var.hpp: a value with a flag that says whether it was written since it was last
-- consumed. `eq` is the `==` of the type, `none` for a type that has none.
pub mod Threads
use dankong.Prelude.{Bool, true, false, Option, none, some, if◌then◌else◌}

pub record DirtyVar (T : Type 0) : Type 0 where
  pub data_ : T
  pub dirty : Bool

module _ {T : Type 0} where
  -- The constructor: dirty from the start.
  abbrev pub create : T → DirtyVar T
  create init_val = record { data_ = init_val; dirty = true }

  -- A value that equals the old one is not stored.
  unfoldable pub store : Option (T → T → Bool) → T → DirtyVar T → DirtyVar T
  store none new_data v = record { data_ = new_data; dirty = true }
  store (some eq) new_data v =
      if eq v.data_ new_data then v else record { data_ = new_data; dirty = true }

  unfoldable pub load : DirtyVar T → T
  load v = v.data_

  unfoldable pub write : (T → T) → DirtyVar T → DirtyVar T
  write func v = record { data_ = func v.data_; dirty = true }

  unfoldable pub mark_dirty : DirtyVar T → DirtyVar T
  mark_dirty v = record v { dirty = true }

  unfoldable pub consume_if_dirty : DirtyVar T → DirtyVar T × Option T
  consume_if_dirty v = if v.dirty then (record v { dirty = false }, some v.data_) else (v, none)
