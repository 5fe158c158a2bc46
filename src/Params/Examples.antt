-- ===== src/Params/Examples.antt =====
-- src/iperf_api.c: a UDP client with four streams, and servers with and without limits.
use iperf3_windows_msvc.Prelude.{value_or, ◌^◌, ◌≡◌, refl, true, false, some, none, [], ◌∷◌, arith}
use iperf3_windows_msvc.Prelude.Int.{◌+ℤ◌, ℤ, pos, negsuc}
use iperf3_windows_msvc.Control.{receiver, bidirectional}
use iperf3_windows_msvc.Json.Members.{add_all, get-add_all}
use iperf3_windows_msvc.Json.Channel.{frame}
use iperf3_windows_msvc.Json.Library.{plain_json, plain_json-IsLibrary}
use iperf3_windows_msvc.Json.Local.{Wire, wire, wire-IsLocal, wire-Takes, wire-Quiet}
use iperf3_windows_msvc.Json.{Bytes}
use iperf3_windows_msvc.Params.Entries.{param_entries}
use iperf3_windows_msvc.Params.Get.{take_parameters, check_limits}
use iperf3_windows_msvc.Params.Agreed.{IsSent, IsAgreed}
use iperf3_windows_msvc.Params.Agree.{take_parameters-IsAgreed}
use iperf3_windows_msvc.Params.Limits.{IsWithin, take_parameters-IsWithin}
use iperf3_windows_msvc.Params.Exchange.{
  send_parameters, get_parameters, get_parameters-send_parameters,
}
use iperf3_windows_msvc.Params.{ptcp, pudp, client, server, Params}

abbrev defaults : Params
defaults = record {
  role = server;
  mode = receiver;
  reverse = false;
  bidir = false;
  sender_has_retransmits = false;
  protocols = ptcp ∷ pudp ∷ [];
  protocol = ptcp;
  omit = pos 0;
  server_affinity = negsuc 0;
  duration = pos 10;
  bytes = 0;
  blocks = 0;
  mss = pos 0;
  no_delay = false;
  num_streams = pos 1;
  socket_bufsize = pos 0;
  blksize = pos 131072;
  rate = 0;
  fqrate = 0;
  pacing_timer = 1000;
  burst = pos 0;
  gso = pos 0;
  gso_dg_size = pos 0;
  gso_bf_size = pos 65507;
  gro = pos 0;
  gro_bf_size = pos 65507;
  tos = pos 0;
  flowlabel = pos 0;
  title = none;
  extra_data = none;
  congestion = none;
  congestion_used = none;
  get_server_output = pos 0;
  udp_counters_64bit = pos 0;
  repeating_payload = pos 0;
  zerocopy = pos 0;
  dont_fragment = pos 0;
  skip_rx_copy = pos 0;
  has_file = false;
  max_server_duration = pos 60;
  bitrate_limit = 1000;
  target_bitrate = none;
  i_errno = 0;
}

-- Four UDP streams, both ways, at 100 bits per second, for 20 seconds after 3 omitted ones.
abbrev wanted : Params
wanted = record defaults {
  role = client;
  mode = bidirectional;
  bidir = true;
  protocol = pudp;
  omit = pos 3;
  duration = pos 20;
  num_streams = pos 4;
  blksize = pos 1460;
  rate = 100;
  title = some (104 ∷ 105 ∷ []);
}

wanted-IsSent : IsSent wanted
wanted-IsSent = record {
  omit = (omega arith, omega arith);
  server_affinity = (omega arith, omega arith);
  duration = (omega arith, omega arith);
  bytes = omega arith;
  blocks = omega arith;
  mss = (omega arith, omega arith);
  num_streams = (omega arith, omega arith);
  socket_bufsize = (omega arith, omega arith);
  blksize = (omega arith, omega arith);
  rate = omega arith;
  fqrate = omega arith;
  pacing_timer = omega arith;
  burst = (omega arith, omega arith);
  gro = (omega arith, omega arith);
  gro_bf_size = (omega arith, omega arith);
  gso = (omega arith, omega arith);
  gso_dg_size = (omega arith, omega arith);
  gso_bf_size = (omega arith, omega arith);
  tos = (omega arith, omega arith);
  flowlabel = (omega arith, omega arith);
  zerocopy = (omega arith, omega arith);
  dont_fragment = (omega arith, omega arith);
  skip_rx_copy = (omega arith, omega arith);
}

abbrev message : plain_json.Obj
unfolding add_all param_entries
message = add_all plain_json [] (param_entries plain_json wanted)

abbrev message_text : Bytes
message_text = value_or [] (plain_json.print message)

abbrev wanted_sent : Wire
wanted_sent = record { incoming = frame message_text; sent = [] }

abbrev agreed : Params
unfolding take_parameters
agreed = (take_parameters plain_json message true defaults).1

take_parameters-IsAgreed_example :
    IsAgreed wanted defaults (take_parameters plain_json message true defaults).1
unfolding message add_all
take_parameters-IsAgreed_example =
    take_parameters-IsAgreed plain_json plain_json-IsLibrary true wanted defaults message
      (λ k. get-add_all plain_json plain_json-IsLibrary [] (param_entries plain_json wanted) k refl)
      wanted-IsSent refl refl refl refl

accepted_wanted : take_parameters plain_json message true defaults ≡ (pos 0, agreed)
unfolding take_parameters message ◌+ℤ◌
accepted_wanted = refl

take_parameters-IsWithin_example : IsWithin agreed 4 20 3
unfolding agreed message ◌+ℤ◌
take_parameters-IsWithin_example =
    take_parameters-IsWithin plain_json message true defaults agreed accepted_wanted 4 20 3 refl
      refl refl (omega arith) (omega arith) (omega arith) (omega arith) (omega arith) refl

-- The sum of the rates is taken modulo 2 ^ 64: four streams of 2 ^ 62 pass a limit of 1000.
wraps_around :
    (check_limits (pos 0, record defaults { num_streams = pos 4; rate = 2 ^ 62 })).0 ≡ pos 0
unfolding check_limits ◌+ℤ◌
wraps_around = refl

get_parameters-send_parameters_example :
    ((v : Wire) × (send_parameters plain_json wire 4 true wanted wanted_sent
        ≡ some (pos 0, wanted, v))
      × (v.sent ≡ frame message_text))
    × ((r : ℤ) × (s : Params) × (x : Wire) × (get_parameters plain_json wire 4 true defaults
            wanted_sent
          ≡ some (r, s, x))
        × (x.incoming ≡ [])
        × IsAgreed wanted defaults s)
unfolding message add_all
get_parameters-send_parameters_example =
    get_parameters-send_parameters plain_json plain_json-IsLibrary wire 4 true (λ w. w.sent)
      (λ w. w.incoming) wire-Takes wire-Quiet wire-IsLocal wanted defaults [] message_text refl refl
      (record { not_empty = omega arith; small = omega arith; within = refl; space = refl })
      wanted-IsSent refl refl refl refl wanted_sent wanted_sent [] refl
