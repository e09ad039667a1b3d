-- ===== src/Utils/Tests.antt =====
-- Runs of the utilities.
use dankong.Prelude.{
  ℕ, ◌+◌, ◌≡◌, refl, inl, Bool, true, false, Option, none, some, List, [], ◌∷◌, arith, ltb,
}
use dankong.Prelude.Milli.{Milli, milli_double}
use dankong.Utils.Dirty.{create}
use dankong.Utils.Dirty.Threads
use dankong.Utils.Registry.{Binding, RateLimiter, make_limiter, check_and_update}
use dankong.Utils.Registry.Fresh
use dankong.Utils.Registry.Fresh.{IsFresh, IsUpToDate, happen, reported-IsUpToDate}
use dankong.Utils.Runner
use dankong.Utils.Runner.{run-IsTrace}
use dankong.Utils.Datum.{Synchronizer}
use dankong.Utils.Datum.Sized
use dankong.Utils.Datum.Sized.{IsSized, IsWaiting, run-IsSized, push-IsWaiting}
use dankong.Utils.Request.Parts.{url, parse_url-parts}
use dankong.Samples.{milli, place}
use dankong.Prelude.{arith, All}
use dankong.Core.{codes}
use dankong.Utils.Request.{
  is_unreserved, encode_byte, url_encode, parse_url, find_scheme, find_byte, take_protocol,
  take_path, take_host, is_https,
}
use dankong.Utils.Request.Encoded.{IsByte, plain, url_decode, url_encode-decoded}

-- A writer and the consumer in turn, until both rest.
abbrev shared : ℕ → Bool → ℕ → Bool → Option ℕ → Threads.Shared ℕ
shared data_ dirty writers taken seen = record {
  data_ = data_;
  dirty = dirty;
  writers = writers;
  taken = taken;
  seen = seen;
}

Steps-seen_example :
    (shared 7 false 0 false (some 7)).seen ≡ some (shared 7 false 0 false (some 7)).data_
Steps-seen_example =
    Threads.Steps-seen {s = shared 3 true 0 false none} {t = shared 7 false 0 false (some 7)} refl
      (Threads.later
        (Threads.later
          (Threads.later (Threads.later Threads.here (Threads.write (shared 3 true 0 false none) 7))
            (Threads.raise (shared 7 true 1 false none) 0 refl))
          (Threads.take (shared 7 true 0 false none) refl refl))
        (Threads.read (shared 7 false 0 true none) refl))
      refl refl refl

-- A number that is reported once a second at most, past a change of 5.
abbrev binding : Binding Milli ℕ
binding = record {
  var = create 0;
  rate = make_limiter (milli 1000);
  dirty_checker = some (λ a b. ltb (b + 5) a);
  last_reported = none;
}

abbrev changes : List (Fresh.Event Milli ℕ)
changes =
    Fresh.reported (milli 2000) ∷ Fresh.stored (λ a b. false) 3 ∷ Fresh.reported (milli 4000) ∷ []

abbrev link : Fresh.Link Milli ℕ
link = record { binding = binding; heard = none }

reported-IsUpToDate_example : IsUpToDate (happen (Fresh.reported (milli 2000)) link)
unfolding IsFresh check_and_update
reported-IsUpToDate_example = reported-IsUpToDate (milli 2000) link (refl, inl refl) refl

abbrev limiter : RateLimiter Milli
limiter = make_limiter (milli 1000)

abbrev asked : List Milli
asked = milli 1500 ∷ milli 1600 ∷ milli 2600 ∷ []

abbrev stopped_runner : Runner.Runner
stopped_runner = record { hz = 0; is_running = false; is_terminating = false; calls = [] }

abbrev commands : List Runner.Event
commands =
    Runner.started 50
    ∷ Runner.turned
    ∷ Runner.started 20
    ∷ Runner.stopped
    ∷ Runner.stopped
    ∷ Runner.turned
    ∷ []

abbrev synchronizer : Synchronizer Milli
synchronizer = record {
  max_time_diff = milli 100;
  window_size = 10;
  enu_buffer = [];
  gps_buffer = [];
  synced_window = [];
}

abbrev pushed : List (Sized.Event Milli)
pushed =
    Sized.got_enu (place 0 0 0) (milli 0)
    ∷ Sized.got_gps (place 1 1 0) (milli 50)
    ∷ Sized.got_enu (place 100 0 0) (milli 100)
    ∷ []

text-bytes : All IsByte (codes "a b%2")
text-bytes = ground arith

url_encode-decoded_example : url_decode plain (url_encode (codes "a b%2")) ≡ codes "a b%2"
url_encode-decoded_example = url_encode-decoded (codes "a b%2") text-bytes

escaped : url_encode (codes "a b%2") ≡ codes "a%20b%252"
unfolding url_encode encode_byte is_unreserved
escaped = refl

parsed : parse_url (codes "https://host/api?t=1:2") ≡ record {
  protocol = codes "https";
  host = codes "host";
  port = codes "443";
  path = codes "/api?t=1:2";
}
unfolding parse_url find_scheme find_byte take_protocol take_path take_host is_https
parsed = refl

parse_url-parts_example :
    parse_url (url (codes "http") (codes "host") (codes "80") (codes "a:b/c")) ≡ record {
      protocol = codes "http";
      host = codes "host";
      port = codes "80";
      path = codes "/a:b/c";
    }
parse_url-parts_example =
    parse_url-parts (codes "http") (codes "host") (codes "80") (codes "a:b/c") (ground arith)
      (ground arith) (ground arith) (ground arith)
