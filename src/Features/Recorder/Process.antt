-- ===== src/Features/Recorder/Process.antt =====
-- The processes of the recorder, over any sequence of requests.
use dankong.Prelude.{ℕ, Bool, true, false, Option, none, some, List, [], ◌∷◌, ◌++◌, is_empty}
use dankong.Features.Recorder.{
  System, Recording, ProcessCall, spawn, reap, interrupt, watch, launch, start_by, start, stop,
  arguments,
}

-- From the process that is recording before, over some calls, to the one behind: a process is started
-- only while there is none, and ends by itself or is interrupted, and is then reaped.
pub data IsTrace : Option ℕ → List ProcessCall → Option ℕ → Type 0 where
  done : {o : Option ℕ} → IsTrace o [] o
  spawned :
      {pid : ℕ} {args : List (List ℕ)} {cs : List ProcessCall} {o : Option ℕ}
      → IsTrace (some pid) cs o
      → IsTrace none (spawn pid args ∷ cs) o
  reaped :
      {pid : ℕ} {cs : List ProcessCall} {o : Option ℕ}
      → IsTrace none cs o
      → IsTrace (some pid) (reap pid ∷ cs) o
  interrupted :
      {pid : ℕ} {cs : List ProcessCall} {o : Option ℕ}
      → IsTrace (some pid) cs o
      → IsTrace (some pid) (interrupt pid ∷ cs) o

append :
    {p q o : Option ℕ} {xs ys : List ProcessCall}
    → IsTrace p xs q
    → IsTrace q ys o
    → IsTrace p (xs ++ ys) o
append done u = u
append (spawned t) u = spawned (append t u)
append (reaped t) u = reaped (append t u)
append (interrupted t) u = interrupted (append t u)

pub data Request : Type 0 where
  to_start : System → Recording → Request
  to_stop : Request

unfoldable pub serve : Request → Option ℕ → Option ℕ × List ProcessCall
serve (to_start sys r) rec_pid = let (_, pid, calls) = start sys r rec_pid in (pid, calls)
serve to_stop rec_pid = let (_, pid, calls) = stop rec_pid in (pid, calls)

unfoldable pub record_all : List Request → Option ℕ → Option ℕ × List ProcessCall
record_all [] rec_pid = (rec_pid, [])
record_all (r ∷ rs) rec_pid =
    let (pid, calls) = serve r rec_pid in
    let (pid', more) = record_all rs pid in (pid', calls ++ more)

watch-IsTrace :
    (ended : Bool) (pid : ℕ) (args : List (List ℕ))
    → (let (_, o, calls) = watch ended pid args in IsTrace none calls o)
unfolding watch
watch-IsTrace true pid args = spawned (reaped done)
watch-IsTrace false pid args = spawned done

launch-IsTrace :
    (sys : System) (pid : Option ℕ) (args : List (List ℕ))
    → (let (_, o, calls) = launch sys pid args in IsTrace none calls o)
unfolding launch
launch-IsTrace sys none args = done
launch-IsTrace sys (some pid) args = watch-IsTrace sys.ended pid args

start_by-IsTrace :
    (rec_pid : Option ℕ) (b c : Bool) (sys : System) (r : Recording)
    → (let (_, o, calls) = start_by rec_pid b c sys r in IsTrace rec_pid calls o)
unfolding start_by
start_by-IsTrace (some pid) b c sys r = done
start_by-IsTrace none true c sys r = done
start_by-IsTrace none false false sys r = done
start_by-IsTrace none false true sys r = launch-IsTrace sys sys.spawned (arguments sys r)

stop-IsTrace : (rec_pid : Option ℕ) → (let (_, o, calls) = stop rec_pid in IsTrace rec_pid calls o)
unfolding stop
stop-IsTrace none = done
stop-IsTrace (some pid) = interrupted (reaped done)

serve-IsTrace :
    (r : Request) (rec_pid : Option ℕ)
    → (let (o, calls) = serve r rec_pid in IsTrace rec_pid calls o)
unfolding serve start
serve-IsTrace (to_start sys r) rec_pid =
    start_by-IsTrace rec_pid (is_empty r.topics) sys.creates sys r
serve-IsTrace to_stop rec_pid = stop-IsTrace rec_pid

-- Over any sequence of requests to start and to stop a recording, with whatever the system answers:
-- a process is started only while none is recording, only the one that records is interrupted or
-- reaped, and rec_pid_ is in the end the process that records.
pub record_all-IsTrace :
    (rs : List Request) (rec_pid : Option ℕ)
    → (let (o, calls) = record_all rs rec_pid in IsTrace rec_pid calls o)
unfolding record_all
record_all-IsTrace [] rec_pid = done
record_all-IsTrace (r ∷ rs) rec_pid =
    append (serve-IsTrace r rec_pid) (record_all-IsTrace rs (serve r rec_pid).0)
