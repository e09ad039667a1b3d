-- ===== src/Features/Ntrip/Tests.antt =====
-- Runs of the client of the correction data.
use dankong.Prelude.{◌≡◌, refl, true, false, some, List, [], ◌∷◌, arith, All}
use dankong.Prelude.Milli.{Milli}
use dankong.Core.{codes}
use dankong.Samples.{milli}
use dankong.Features.Ntrip.{
  Net, NtripClient, received, failed, unlinked, open_socket, connect_socket, send_request,
  recv_socket, close_socket, send_gga, rtk_callback, authorise, check_response, request, connect,
  connect_and_auth, send_location_update, close_link, handle_read, read_step, after_connect,
  link_step, on_step, on_start, on_stop, stop_client, run_client,
}
use dankong.Features.Ntrip.Base64.{base64_encode, encode_from, flush, pad}
use dankong.Features.Ntrip.Base64.Rfc.{IsByte, rfc4648, base64_encode-rfc4648}
use dankong.Features.Ntrip.Sockets.{IsSound}
use dankong.Features.Ntrip.Sockets.Life.{
  Event, run, stop, step, thread_step, happen, life, IsClient, Lives, life-Lives,
}

user_pw-bytes : All IsByte (codes "user:pw")
user_pw-bytes = ground arith

base64_encode-rfc4648_example : base64_encode (codes "user:pw") ≡ rfc4648 (codes "user:pw")
base64_encode-rfc4648_example = base64_encode-rfc4648 (codes "user:pw") user_pw-bytes

encoded : base64_encode (codes "user:pw") ≡ codes "dXNlcjpwdw=="
unfolding base64_encode encode_from flush pad
encoded = refl

abbrev client : NtripClient Milli
client = record {
  is_running = false;
  running = false;
  link = unlinked;
  lat = milli 0;
  lon = milli 0;
}

abbrev net : Net
net = record {
  socket = some 3;
  connects = true;
  request_sent = true;
  response = some (codes "ICY 200 OK");
  reads = received (211 ∷ 0 ∷ []);
}

-- Started, connected and served, then the network fails and the client is stopped.
abbrev events : List (Event Milli)
events =
    run (milli 30000) (milli 120000)
    ∷ step net
    ∷ step (record net { reads = failed })
    ∷ step (record net { connects = false })
    ∷ stop
    ∷ []

client-IsClient : IsClient client
unfolding IsSound
client-IsClient = record { sound = refl; reported = refl }

life-Lives_example : Lives client (life events client)
life-Lives_example = life-Lives events client client-IsClient

trace :
    (life events client).1
    ≡ open_socket 3
      ∷ connect_socket 3
      ∷ send_request 3
      ∷ recv_socket 3
      ∷ send_gga 3 (milli 30000) (milli 120000)
      ∷ recv_socket 3
      ∷ rtk_callback (211 ∷ 0 ∷ [])
      ∷ recv_socket 3
      ∷ close_socket 3
      ∷ open_socket 3
      ∷ connect_socket 3
      ∷ close_socket 3
      ∷ []
unfolding authorise check_response request connect connect_and_auth send_location_update close_link
    handle_read read_step after_connect link_step on_step on_start on_stop stop_client run_client
    thread_step happen life
trace = refl
