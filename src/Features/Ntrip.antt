-- ===== src/Features/Ntrip.antt =====
-- NtripClient (include/features/ntrip/ntrip_client.hpp) and its listener (event_listener.hpp): the
-- connection to the server of correction data. The sockets are a parameter.
pub mod Base64
pub mod Sockets
pub mod Tests
use Prim.Native.Nat.{bit_xor}
use dankong.Prelude.{
  ℕ, zero, suc, ◌+◌, ◌-◌, ◌/◌, ◌%◌, Bool, true, false, not, ◌&&◌, ◌||◌, Option, none, some, List,
  [], ◌∷◌, ◌++◌, if◌then◌else◌, ltb, ◌==◌, drop,
}
use dankong.Prelude.Int.{ℤ}
use dankong.Prelude.Double.{Double, ◌-f◌, ◌*f◌, ◌≤f◌, lit, nought}
use dankong.Core.{codes}
use dankong.Mavlink.Sdk.{of_ℤ, starts_with}

pub data Received : Type 0 where
  -- recv returns a positive length, 0, -1 with EAGAIN or EWOULDBLOCK, or -1 with another error
  received : List ℕ → Received
  closed_by_server would_block failed : Received

-- What the calls on the sockets answer in one step.
pub record Net : Type 0 where
  -- socket: the descriptor, if it is not negative
  pub socket : Option ℕ
  pub connects : Bool
  pub request_sent : Bool
  -- the bytes of the response, if recv returns a positive length
  pub response : Option (List ℕ)
  pub reads : Received

pub data NetCall (F : Type 0) : Type 0 where
  open_socket connect_socket send_request recv_socket close_socket : ℕ → NetCall F
  -- a GGA sentence with the latitude and the longitude
  send_gga : ℕ → F → F → NetCall F
  -- callback_
  rtk_callback : List ℕ → NetCall F

-- socket_fd_, with none for a negative one, and is_connected_.
pub record Link : Type 0 where
  pub socket_fd : Option ℕ
  pub is_connected : Bool

abbrev pub unlinked : Link
unlinked = record { socket_fd = none; is_connected = false }

abbrev pub linked : ℕ → Link
linked fd = record { socket_fd = some fd; is_connected = true }

pub record NtripClient (F : Type 0) : Type 0 where
  -- is_running_ of the thread, and running_
  pub is_running : Bool
  pub running : Bool
  pub link : Link
  pub lat : F
  pub lon : F

-- std::string of a buffer: up to the first NUL.
abbrev pub until_nul : List ℕ → List ℕ
until_nul [] = []
until_nul (zero ∷ cs) = []
until_nul (suc c ∷ cs) = suc c ∷ until_nul cs

-- text.find(part) != npos
abbrev pub contains : List ℕ → List ℕ → Bool
contains part [] = starts_with part []
contains part (c ∷ cs) = starts_with part (c ∷ cs) || contains part cs

module _ {F : Type 0} where
  -- The steps of connect_and_auth, from the last to the first: the new link and the calls.
  unfoldable pub authorise : ℕ → Bool → Link × List (NetCall F)
  authorise fd true = (linked fd, [])
  authorise fd false = (unlinked, close_socket fd ∷ [])

  unfoldable pub check_response : ℕ → Option (List ℕ) → Link × List (NetCall F)
  check_response fd none = (unlinked, recv_socket fd ∷ close_socket fd ∷ [])
  check_response fd (some response) =
      let (link, calls) = authorise fd (contains (codes "200 OK") (until_nul response)) in
      (link, recv_socket fd ∷ calls)

  unfoldable pub request : ℕ → Bool → Option (List ℕ) → Link × List (NetCall F)
  request fd true response =
      let (link, calls) = check_response fd response in (link, send_request fd ∷ calls)
  request fd false response = (unlinked, send_request fd ∷ close_socket fd ∷ [])

  unfoldable pub connect : Net → ℕ → Bool → Link × List (NetCall F)
  connect net fd true =
      let (link, calls) = request fd net.request_sent net.response in
      (link, connect_socket fd ∷ calls)
  connect net fd false = (unlinked, connect_socket fd ∷ close_socket fd ∷ [])

  -- Its result is `is_connected` of the new link, which on_step sets on a success.
  unfoldable pub connect_and_auth : Net → Option ℕ → Link × List (NetCall F)
  connect_and_auth net none = (unlinked, [])
  connect_and_auth net (some fd) =
      let (link, calls) = connect net fd net.connects in (link, open_socket fd ∷ calls)

  unfoldable pub send_location_update : Option ℕ → Bool → F → F → List (NetCall F)
  send_location_update (some fd) true lat lon = send_gga fd lat lon ∷ []
  send_location_update (some fd) false lat lon = []
  send_location_update none b lat lon = []

  -- The private close_socket.
  unfoldable pub close_link : Option ℕ → Link × List (NetCall F)
  close_link none = (unlinked, [])
  close_link (some fd) = (unlinked, close_socket fd ∷ [])

  unfoldable pub handle_read : ℕ → Received → Link × List (NetCall F)
  handle_read fd (received bytes) = (linked fd, rtk_callback bytes ∷ [])
  handle_read fd closed_by_server = (unlinked, close_socket fd ∷ [])
  handle_read fd would_block = (linked fd, [])
  handle_read fd failed = (unlinked, close_socket fd ∷ [])

  -- The part of on_step behind the connection; a link without a socket fails with EBADF.
  unfoldable pub read_step : Received → Option ℕ → Link × List (NetCall F)
  read_step reads none = (unlinked, [])
  read_step reads (some fd) =
      let (link, calls) = handle_read fd reads in (link, recv_socket fd ∷ calls)

  -- Behind connect_and_auth, by whether it has succeeded.
  unfoldable pub after_connect : Net → F → F → Bool → Link → Link × List (NetCall F)
  after_connect net lat lon false link = (link, [])
  after_connect net lat lon true link =
      let (link', calls) = read_step net.reads link.socket_fd in
      (link', send_location_update link.socket_fd link.is_connected lat lon ++ calls)

  unfoldable pub link_step : Net → F → F → Bool → Link → Link × List (NetCall F)
  link_step net lat lon true link = read_step net.reads link.socket_fd
  link_step net lat lon false link =
      let (link', calls) = connect_and_auth net net.socket in
      let (link'', more) = after_connect net lat lon link'.is_connected link' in
      (link'', calls ++ more)

  unfoldable pub on_step : Net → NtripClient F → NtripClient F × List (NetCall F)
  on_step net c =
      let (link, calls) = link_step net c.lat c.lon c.link.is_connected c.link in
      (record c { link = link }, calls)

  unfoldable pub on_start : NtripClient F → NtripClient F
  on_start c = record c { link = unlinked; running = true }

  unfoldable pub on_stop : NtripClient F → NtripClient F × List (NetCall F)
  on_stop c =
      let (link, calls) = close_link c.link.socket_fd in
      (record c { link = link; running = false }, calls)

  -- IThreadRunner::stop, by is_running_.
  unfoldable pub stop_client : Bool → NtripClient F → NtripClient F × List (NetCall F)
  stop_client true c = on_stop (record c { is_running = false })
  stop_client false c = (c, [])

  -- run, with the other settings left out; behind stop() the thread is not running.
  unfoldable pub run_client : F → F → NtripClient F → NtripClient F × List (NetCall F)
  run_client lat lon c =
      let (stopped, calls) = stop_client c.is_running c in
      let link = record stopped.link { is_connected = false } in
      let ready = record stopped { lat = lat; lon = lon; link = link } in
      (record (on_start ready) { is_running = true }, calls)

-- on_tick of the listener, without the client's calls: whether it starts the client.
unfoldable pub may_start : Bool → Bool → Bool → Bool
may_start enabled has_fix enough_satellites = enabled && has_fix && enough_satellites

-- What generate_gga prints of a coordinate: the degrees, the minutes and the direction.
pub record GgaPart (F : Type 0) : Type 0 where
  pub deg : ℤ
  pub min : F
  pub dir : ℕ

abbrev pub hex_digit : ℕ → ℕ
hex_digit n = if ltb n 10 then b'0' + n else b'A' + (n - 10)

-- The loop over buf from the index 1 on, which starts with 0; buf has no NUL.
unfoldable pub checksum : ℕ → List ℕ → ℕ
checksum sum [] = sum
checksum sum (c ∷ cs) = checksum (bit_xor sum c) cs

module _ {F : Type 0} ⦃d : Double F⦄ where
  -- std::floor of a number that is not negative is its truncation.
  unfoldable pub gga_part : ℕ → ℕ → F → GgaPart F
  gga_part plus minus x = record {
    deg = d.trunc (d.fabs x);
    min = (d.fabs x -f of_ℤ (d.trunc (d.fabs x))) *f lit 60 0;
    dir = if nought ≤f x then plus else minus;
  }

  -- `print` is the first snprintf.
  unfoldable pub generate_gga : (GgaPart F → GgaPart F → List ℕ) → F → F → List ℕ
  generate_gga print lat lon =
      let buf = print (gga_part b'N' b'S' lat) (gga_part b'E' b'W' lon) in
      let sum = checksum 0 (drop 1 buf) in
      buf ++ (b'*' ∷ hex_digit (sum / 16) ∷ hex_digit (sum % 16) ∷ 13 ∷ 10 ∷ [])
