-- ===== src/Features/Ntrip/Sockets/Life.antt =====
-- NtripClient over the requests to run and to stop it, the steps of its thread and the updates.
use dankong.Prelude.{◌≡◌, refl, ap, Bool, true, false, none, List, [], ◌∷◌, ◌++◌}
use dankong.Features.Ntrip.{
  Net, NetCall, unlinked, NtripClient, send_location_update, on_step, on_start, on_stop,
  stop_client, run_client,
}
use dankong.Features.Ntrip.Sockets.{
  IsTrace, done, append, is_unlinked, IsSound, link_step-Steps, close_link-IsTrace,
  close_link-unlinked, update-IsTrace,
}

pub data Event (F : Type 0) : Type 0 where
  run : F → F → Event F
  stop : Event F
  step : Net → Event F
  update : F → F → Event F

module _ {F : Type 0} where
  -- The thread steps only while it is running.
  unfoldable pub thread_step : Bool → Net → NtripClient F → NtripClient F × List (NetCall F)
  thread_step true net c = on_step net c
  thread_step false net c = (c, [])

  unfoldable pub happen : Event F → NtripClient F → NtripClient F × List (NetCall F)
  happen (run lat lon) c = run_client lat lon c
  happen stop c = stop_client c.is_running c
  happen (step net) c = thread_step c.is_running net c
  happen (update lat lon) c = (c, send_location_update c.link.socket_fd c.link.is_connected lat lon)

  unfoldable pub life : List (Event F) → NtripClient F → NtripClient F × List (NetCall F)
  life [] c = (c, [])
  life (e ∷ es) c =
      let (c', calls) = happen e c in let (c'', more) = life es c' in (c'', calls ++ more)

  -- The link of a client that is not running is down, and running_ tells whether it is running.
  pub record IsClient (c : NtripClient F) : Type 0 where
    pub sound : IsSound c.is_running c.link
    pub reported : c.running ≡ c.is_running

  abbrev pub Lives : NtripClient F → NtripClient F × List (NetCall F) → Type 0
  Lives c r = IsClient r.0 × IsTrace c.link.socket_fd r.1 r.0.link.socket_fd

  stop_client-IsTrace :
      (b : Bool) (c : NtripClient F)
      → IsSound b c.link
      → IsTrace c.link.socket_fd (stop_client b c).1 none × ((stop_client b c).0.link ≡ unlinked)
  unfolding stop_client on_stop IsSound
  stop_client-IsTrace true c h =
      (close_link-IsTrace c.link.socket_fd, close_link-unlinked F c.link.socket_fd)
  stop_client-IsTrace false c h =
      let e : c.link.socket_fd ≡ none = ap (λ l. l.socket_fd) h in (rw e done, h)

  stop_client-Lives :
      (b : Bool) (c : NtripClient F) → c.is_running ≡ b → IsClient c → Lives c (stop_client b c)
  unfolding stop_client on_stop IsSound
  stop_client-Lives true c e k =
      let o = c.link.socket_fd in
      (
        record { sound = close_link-unlinked F o; reported = refl },
        rw (close_link-unlinked F o) (close_link-IsTrace o),
      )
  stop_client-Lives false c e k = (k, done)

  thread_step-Lives :
      (b : Bool) (net : Net) (c : NtripClient F)
      → c.is_running ≡ b
      → IsClient c
      → Lives c (thread_step b net c)
  unfolding thread_step on_step IsSound
  thread_step-Lives true net c e k =
      let up : IsSound true c.link = rw e at k.sound in
      let (l, t) = link_step-Steps net c.lat c.lon c.link up in
      (record { sound = rw e l; reported = k.reported }, t)
  thread_step-Lives false net c e k = (k, done)

  run_client-Lives : (lat lon : F) (c : NtripClient F) → IsClient c → Lives c (run_client lat lon c)
  unfolding run_client on_start IsSound
  run_client-Lives lat lon c k =
      let (t, _) = stop_client-IsTrace c.is_running c k.sound in
      (record { sound = is_unlinked; reported = refl }, t)

  happen-Lives : (e : Event F) (c : NtripClient F) → IsClient c → Lives c (happen e c)
  unfolding happen
  happen-Lives (run lat lon) c k = run_client-Lives lat lon c k
  happen-Lives stop c k = stop_client-Lives c.is_running c refl k
  happen-Lives (step net) c k = thread_step-Lives c.is_running net c refl k
  happen-Lives (update lat lon) c k =
      (k, update-IsTrace c.link.socket_fd c.link.is_connected lat lon)

  -- Over any sequence of requests to run and to stop, steps of the thread with whatever the network
  -- answers, and updates of the position, each of them taken as a whole: the client opens a socket
  -- only while it has none open, uses and closes only the one that is open, and in the end has open
  -- exactly the one that it holds, which is none unless it is running.
  pub life-Lives : (es : List (Event F)) (c : NtripClient F) → IsClient c → Lives c (life es c)
  unfolding life
  life-Lives [] c k = (k, done)
  life-Lives (e ∷ es) c k =
      let (k', t) = happen-Lives e c k in
      let (k'', u) = life-Lives es (happen e c).0 k' in (k'', append t u)
