-- ===== src/Features/Recorder.antt =====
-- BagRecorder (include/features/algo/bag_recorder.hpp): the process that records. The file system,
-- posix_spawn and waitpid are parameters.
pub mod Process
use dankong.Prelude.{
  ℕ, Bool, true, false, Option, none, some, List, [], ◌∷◌, ◌++◌, if◌then◌else◌, ltb, is_empty,
}
use dankong.Core.{codes, bytes_eq}

-- What the system answers to one start.
pub record System : Type 0 where
  -- create_directories succeeds
  pub creates : Bool
  -- the path of the recorder, of the parameter or below ROS_ROOT
  pub record_bin : Option (List ℕ)
  -- the file without its extension, with the time in its name
  pub base : List ℕ
  -- the new process, if there is one
  pub spawned : Option ℕ
  -- it has ended after 200 ms
  pub ended : Bool
  pub to_string : ℕ → List ℕ

-- The text that start and stop return, which is empty for the last two.
pub data RecordReply : Type 0 where
  already_recording no_topics no_directory spawn_failed ended_at_once not_recording : RecordReply
  started stopped : RecordReply

pub data ProcessCall : Type 0 where
  -- the process with its arguments
  spawn : ℕ → List (List ℕ) → ProcessCall
  -- waitpid has removed it at the start, or the other thread removes it behind SIGINT
  reap : ℕ → ProcessCall
  interrupt : ℕ → ProcessCall

unfoldable pub command : Option (List ℕ) → List ℕ → List (List ℕ)
command none base = codes "rosrun" ∷ codes "rosbag" ∷ codes "record" ∷ codes "-O" ∷ base ∷ []
command (some bin) base = bin ∷ codes "-O" ∷ base ∷ []

unfoldable pub compress : List ℕ → List (List ℕ)
compress compression =
    if bytes_eq compression (codes "lz4")
    then codes "--lz4" ∷ []
    else if bytes_eq compression (codes "bz2")
    then codes "--bz2" ∷ []
    else []

unfoldable pub split : System → ℕ → List (List ℕ)
split sys split_mb =
    if ltb 0 split_mb then codes "--split" ∷ codes "--size" ∷ sys.to_string split_mb ∷ [] else []

-- What the recorder is asked for; a negative split_mb is 0 here.
pub record Recording : Type 0 where
  pub topics : List (List ℕ)
  pub compression : List ℕ
  pub split_mb : ℕ

unfoldable pub arguments : System → Recording → List (List ℕ)
arguments sys r =
    command sys.record_bin sys.base ++ compress r.compression ++ split sys r.split_mb ++ r.topics

-- Behind posix_spawn: the reply, rec_pid_, and the calls.
unfoldable pub watch : Bool → ℕ → List (List ℕ) → RecordReply × Option ℕ × List ProcessCall
watch true pid args = (ended_at_once, none, spawn pid args ∷ reap pid ∷ [])
watch false pid args = (started, some pid, spawn pid args ∷ [])

unfoldable pub launch :
    System → Option ℕ → List (List ℕ) → RecordReply × Option ℕ × List ProcessCall
launch sys none args = (spawn_failed, none, [])
launch sys (some pid) args = watch sys.ended pid args

-- The guards of start, by what is recorded now, whether there are no topics, and the directory.
unfoldable pub start_by :
    Option ℕ → Bool → Bool → System → Recording → RecordReply × Option ℕ × List ProcessCall
start_by (some pid) b c sys r = (already_recording, some pid, [])
start_by none true c sys r = (no_topics, none, [])
start_by none false false sys r = (no_directory, none, [])
start_by none false true sys r = launch sys sys.spawned (arguments sys r)

unfoldable pub start : System → Recording → Option ℕ → RecordReply × Option ℕ × List ProcessCall
start sys r rec_pid = start_by rec_pid (is_empty r.topics) sys.creates sys r

-- The calls of the thread that waits for the end stand behind the interrupt.
unfoldable pub stop : Option ℕ → RecordReply × Option ℕ × List ProcessCall
stop none = (not_recording, none, [])
stop (some pid) = (stopped, none, interrupt pid ∷ reap pid ∷ [])
