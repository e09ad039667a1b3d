-- ===== src/Utils/Dirty/Threads.antt =====
-- DirtyVar under threads: `store` writes the value under the lock and raises the flag behind it;
-- `consume_if_dirty` takes the flag down and then reads the value under the lock. Any number of
-- writers interleave with one consumer.
use dankong.Prelude.{ℕ, suc, ◌<◌, ◌≡◌, refl, ◌⊎◌, inl, inr, Bool, true, false, Option, some, arith}

-- `writers` have written and not yet raised the flag; the consumer is `taken` between its two steps;
-- `seen` is the value that it read last.
pub record Shared (T : Type 0) : Type 0 where
  pub data_ : T
  pub dirty : Bool
  pub writers : ℕ
  pub taken : Bool
  pub seen : Option T

module _ {T : Type 0} where
  pub data Step : Shared T → Shared T → Type 0 where
    write : (s : Shared T) (v : T) → Step s (record s { data_ = v; writers = suc s.writers })
    raise :
        (s : Shared T) (n : ℕ) → s.writers ≡ suc n → Step s (record s { dirty = true; writers = n })
    take :
        (s : Shared T)
        → s.dirty ≡ true
        → s.taken ≡ false
        → Step s (record s { dirty = false; taken = true })
    read :
        (s : Shared T) → s.taken ≡ true → Step s (record s { taken = false; seen = some s.data_ })

  pub data Steps (s : Shared T) : Shared T → Type 0 where
    here : Steps s s
    later : {t u : Shared T} → Steps s t → Step t u → Steps s u

  -- Someone is still to act, or the consumer has the value.
  abbrev IsKept : Shared T → Type 0
  IsKept s = (s.dirty ≡ true) ⊎ (0 < s.writers) ⊎ (s.taken ≡ true) ⊎ (s.seen ≡ some s.data_)

  Step-IsKept : {s t : Shared T} → Step s t → IsKept s → IsKept t
  Step-IsKept (write s v) k = inr (inl (omega arith))
  Step-IsKept (raise s n e) k = inl refl
  Step-IsKept (take s e f) k = inr (inr (inl refl))
  Step-IsKept (read s e) k = inr (inr (inr refl))

  Steps-IsKept : {s t : Shared T} → Steps s t → IsKept s → IsKept t
  Steps-IsKept here k = k
  Steps-IsKept (later r st) k = Step-IsKept st (Steps-IsKept r k)

  -- No update is lost, however writers and the consumer interleave: from a variable that was just
  -- made, whenever nobody is between two steps and the flag is down, the value that the consumer read
  -- last is the value that the variable holds.
  pub Steps-seen :
      {s t : Shared T}
      → s.dirty ≡ true
      → Steps s t
      → t.dirty ≡ false
      → t.writers ≡ 0
      → t.taken ≡ false
      → t.seen ≡ some t.data_
  Steps-seen {s} {t} fresh r d w k = go (Steps-IsKept r (inl fresh))
    where
      go : IsKept t → t.seen ≡ some t.data_
      go h = ground arith
