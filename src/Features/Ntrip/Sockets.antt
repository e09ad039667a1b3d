-- ===== src/Features/Ntrip/Sockets.antt =====
-- The sockets of NtripClient, over any order of its operations. The operations of the two threads are
-- taken one at a time.
pub mod Life
use dankong.Prelude.{ℕ, ◌≡◌, refl, Bool, true, false, Option, none, some, List, [], ◌∷◌, ◌++◌}
use dankong.Core.{codes}
use dankong.Features.Ntrip.{
  Received, received, closed_by_server, would_block, failed, Net, NetCall, open_socket,
  connect_socket, send_request, recv_socket, close_socket, send_gga, rtk_callback, Link, unlinked,
  linked, NtripClient, contains, until_nul, authorise, check_response, request, connect,
  connect_and_auth, send_location_update, close_link, handle_read, read_step, after_connect,
  link_step, on_step, on_start, on_stop, stop_client, run_client,
}

-- A link is connected exactly if it has a socket.
pub data IsLink : Link → Type 0 where
  is_unlinked : IsLink unlinked
  is_linked : {fd : ℕ} → IsLink (linked fd)

-- Between the runs of the thread the link is down.
unfoldable pub IsSound : Bool → Link → Type 0
IsSound true link = IsLink link
IsSound false link = link ≡ unlinked

module _ {F : Type 0} where
  -- From the open socket before, over some calls, to the open socket behind: a socket is opened only
  -- while none is open, and only the open one is used or closed.
  pub data IsTrace : Option ℕ → List (NetCall F) → Option ℕ → Type 0 where
    done : {o : Option ℕ} → IsTrace o [] o
    opened :
        {fd : ℕ} {cs : List (NetCall F)} {o : Option ℕ}
        → IsTrace (some fd) cs o
        → IsTrace none (open_socket fd ∷ cs) o
    connected :
        {fd : ℕ} {cs : List (NetCall F)} {o : Option ℕ}
        → IsTrace (some fd) cs o
        → IsTrace (some fd) (connect_socket fd ∷ cs) o
    asked :
        {fd : ℕ} {cs : List (NetCall F)} {o : Option ℕ}
        → IsTrace (some fd) cs o
        → IsTrace (some fd) (send_request fd ∷ cs) o
    heard :
        {fd : ℕ} {cs : List (NetCall F)} {o : Option ℕ}
        → IsTrace (some fd) cs o
        → IsTrace (some fd) (recv_socket fd ∷ cs) o
    located :
        {fd : ℕ} {lat lon : F} {cs : List (NetCall F)} {o : Option ℕ}
        → IsTrace (some fd) cs o
        → IsTrace (some fd) (send_gga fd lat lon ∷ cs) o
    delivered :
        {p : Option ℕ} {bytes : List ℕ} {cs : List (NetCall F)} {o : Option ℕ}
        → IsTrace p cs o
        → IsTrace p (rtk_callback bytes ∷ cs) o
    closed :
        {fd : ℕ} {cs : List (NetCall F)} {o : Option ℕ}
        → IsTrace none cs o
        → IsTrace (some fd) (close_socket fd ∷ cs) o

  append :
      {p o q : Option ℕ} {cs ds : List (NetCall F)}
      → IsTrace p cs o
      → IsTrace o ds q
      → IsTrace p (cs ++ ds) q
  append done u = u
  append (opened t) u = opened (append t u)
  append (connected t) u = connected (append t u)
  append (asked t) u = asked (append t u)
  append (heard t) u = heard (append t u)
  append (located t) u = located (append t u)
  append (delivered t) u = delivered (append t u)
  append (closed t) u = closed (append t u)

  -- What an operation makes of a link whose socket was `o`.
  abbrev Steps : Option ℕ → Link × List (NetCall F) → Type 0
  Steps o r = IsLink r.0 × IsTrace o r.1 r.0.socket_fd

  authorise-Steps : (fd : ℕ) (ok : Bool) → Steps (some fd) (authorise fd ok)
  unfolding authorise
  authorise-Steps fd true = (is_linked, done)
  authorise-Steps fd false = (is_unlinked, closed done)

  check_response-Steps : (fd : ℕ) (r : Option (List ℕ)) → Steps (some fd) (check_response fd r)
  unfolding check_response
  check_response-Steps fd none = (is_unlinked, heard (closed done))
  check_response-Steps fd (some r) =
      let (l, t) = authorise-Steps fd (contains (codes "200 OK") (until_nul r)) in (l, heard t)

  request-Steps : (fd : ℕ) (sent : Bool) (r : Option (List ℕ)) → Steps (some fd) (request fd sent r)
  unfolding request
  request-Steps fd true r = let (l, t) = check_response-Steps fd r in (l, asked t)
  request-Steps fd false r = (is_unlinked, asked (closed done))

  connect-Steps : (net : Net) (fd : ℕ) (ok : Bool) → Steps (some fd) (connect net fd ok)
  unfolding connect
  connect-Steps net fd true =
      let (l, t) = request-Steps fd net.request_sent net.response in (l, connected t)
  connect-Steps net fd false = (is_unlinked, connected (closed done))

  connect_and_auth-Steps :
      (net : Net) (socket : Option ℕ) → Steps none (connect_and_auth net socket)
  unfolding connect_and_auth
  connect_and_auth-Steps net none = (is_unlinked, done)
  connect_and_auth-Steps net (some fd) =
      let (l, t) = connect-Steps net fd net.connects in (l, opened t)

  handle_read-Steps : (fd : ℕ) (reads : Received) → Steps (some fd) (handle_read fd reads)
  unfolding handle_read
  handle_read-Steps fd (received bytes) = (is_linked, delivered done)
  handle_read-Steps fd closed_by_server = (is_unlinked, closed done)
  handle_read-Steps fd would_block = (is_linked, done)
  handle_read-Steps fd failed = (is_unlinked, closed done)

  read_step-Steps : (reads : Received) (fd : ℕ) → Steps (some fd) (read_step reads (some fd))
  unfolding read_step
  read_step-Steps reads fd = let (l, t) = handle_read-Steps fd reads in (l, heard t)

  after_connect-Steps :
      (net : Net) (lat lon : F) (link : Link)
      → IsLink link
      → Steps link.socket_fd (after_connect net lat lon link.is_connected link)
  unfolding after_connect send_location_update
  after_connect-Steps net lat lon _ is_unlinked = (is_unlinked, done)
  after_connect-Steps net lat lon _ (is_linked {fd = fd}) =
      let (l, t) = read_step-Steps net.reads fd in (l, located t)

  link_step-Steps :
      (net : Net) (lat lon : F) (link : Link)
      → IsLink link
      → Steps link.socket_fd (link_step net lat lon link.is_connected link)
  unfolding link_step
  link_step-Steps net lat lon _ is_unlinked =
      let (l, t) = connect_and_auth-Steps net net.socket in
      let (m, u) = after_connect-Steps net lat lon (connect_and_auth {F = F} net net.socket).0 l in
      (m, append t u)
  link_step-Steps net lat lon _ (is_linked {fd = fd}) = read_step-Steps net.reads fd

  close_link-IsTrace : (o : Option ℕ) → IsTrace o (close_link o).1 none
  unfolding close_link
  close_link-IsTrace none = done
  close_link-IsTrace (some fd) = closed done

  update-IsTrace :
      (o : Option ℕ) (b : Bool) (lat lon : F) → IsTrace o (send_location_update o b lat lon) o
  unfolding send_location_update
  update-IsTrace (some fd) true lat lon = located done
  update-IsTrace (some fd) false lat lon = done
  update-IsTrace none b lat lon = done

close_link-unlinked : (F : Type 0) (o : Option ℕ) → (close_link {F = F} o).0 ≡ unlinked
unfolding close_link
close_link-unlinked F none = refl
close_link-unlinked F (some fd) = refl
