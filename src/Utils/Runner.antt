-- ===== src/Utils/Runner.antt =====
-- include/utils/thread_runner.hpp: IThreadRunner's start, stop and the loop of its thread. The calls
-- of the virtual methods are the trace.
use dankong.Prelude.{ℕ, inl, inr, Bool, true, false, List, [], ◌∷◌, if◌then◌else◌, Bool-cases}

pub data Call : Type 0 where
  on_start on_stop on_step : Call

pub record Runner : Type 0 where
  pub hz : ℕ
  pub is_running : Bool
  pub is_terminating : Bool
  -- the calls so far, the last one first
  pub calls : List Call

unfoldable pub start : ℕ → Runner → Runner
start hz r =
    if r.is_running then r else record r { hz = hz; is_running = true; calls = on_start ∷ r.calls }

unfoldable pub stop : Runner → Runner
stop r = if r.is_running then record r { is_running = false; calls = on_stop ∷ r.calls } else r

-- One turn of the thread, past its wait: on_step while the runner runs.
unfoldable pub turn : Runner → Runner
turn r =
    if r.is_terminating
    then r
    else if r.is_running
    then record r { calls = on_step ∷ r.calls }
    else r

pub data Event : Type 0 where
  started : ℕ → Event
  stopped turned : Event

unfoldable pub happen : Event → Runner → Runner
happen (started hz) r = start hz r
happen stopped r = stop r
happen turned r = turn r

unfoldable pub run : List Event → Runner → Runner
run [] r = r
run (e ∷ es) r = run es (happen e r)

-- The trace of a run, the last call first: it is running after `on_start` and steps, and idle before
-- the first start and after `on_stop`.
pub data IsTrace : Bool → List Call → Type 0 where
  idle : IsTrace false []
  begun : {calls : List Call} → IsTrace false calls → IsTrace true (on_start ∷ calls)
  stepped : {calls : List Call} → IsTrace true calls → IsTrace true (on_step ∷ calls)
  ended : {calls : List Call} → IsTrace true calls → IsTrace false (on_stop ∷ calls)

start-IsTrace :
    (hz : ℕ) (r : Runner)
    → IsTrace r.is_running r.calls
    → IsTrace (start hz r).is_running (start hz r).calls
unfolding start
start-IsTrace hz r t = elim (Bool-cases r.is_running) [
  | inl h ↦ rw (h, start) (rw h at t)
  | inr h ↦ rw (h, start) (begun (rw h at t))
]

stop-IsTrace :
    (r : Runner) → IsTrace r.is_running r.calls → IsTrace (stop r).is_running (stop r).calls
unfolding stop
stop-IsTrace r t = elim (Bool-cases r.is_running) [
  | inl h ↦ rw (h, stop) (ended (rw h at t))
  | inr h ↦ rw (h, stop) (rw h at t)
]

turn-IsTrace :
    (r : Runner) → IsTrace r.is_running r.calls → IsTrace (turn r).is_running (turn r).calls
unfolding turn
turn-IsTrace r t = elim (Bool-cases r.is_terminating) [
  | inl k ↦ rw (k, turn) t
  | inr k ↦ elim (Bool-cases r.is_running) [
    | inl h ↦ rw (k, turn, h) (stepped (rw h at t))
    | inr h ↦ rw (k, turn, h) (rw h at t)
  ]
]

happen-IsTrace :
    (e : Event) (r : Runner)
    → IsTrace r.is_running r.calls
    → IsTrace (happen e r).is_running (happen e r).calls
unfolding happen
happen-IsTrace (started hz) r t = start-IsTrace hz r t
happen-IsTrace stopped r t = stop-IsTrace r t
happen-IsTrace turned r t = turn-IsTrace r t

-- Whatever the order of starts, stops and turns of the thread, on_start and on_stop alternate,
-- beginning with on_start, and on_step is called only between the two.
pub run-IsTrace :
    (es : List Event) (r : Runner)
    → IsTrace r.is_running r.calls
    → IsTrace (run es r).is_running (run es r).calls
unfolding run
run-IsTrace [] r t = t
run-IsTrace (e ∷ es) r t = run-IsTrace es (happen e r) (happen-IsTrace e r t)
