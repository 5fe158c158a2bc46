-- ===== src/Params/Get.antt =====
-- src/iperf_api.c: `get_parameters` after the message has been read.
use iperf3_windows_msvc.Prelude.{
  ℕ, ◌*◌, ◌%◌, ◌^◌, Bool, true, false, Option, none, some, ◌&&◌, ◌||◌, not, ltb, ◌==◌,
  if◌then◌else◌,
}
use iperf3_windows_msvc.Prelude.Int.{ℤ, pos, negsuc, pos_part, ltb_ℤ, ◌==ℤ◌, ◌+ℤ◌, ◌*ℤ◌}
use iperf3_windows_msvc.Control.{Mode, bidirectional}
use iperf3_windows_msvc.Json.{Bytes, Key, boolean, number, Json, get_boolean, get_number, get_text}
use iperf3_windows_msvc.Params.Words.{to_u64, to_i32, to_u32, quot}
use iperf3_windows_msvc.Params.{
  ietotalrate, ieudpfiletransfer, iemaxservertestdurationexceeded, ptcp, pudp, psctp, same_protocol,
  Params, is_receiver, set_test_reverse, set_test_bidirectional, set_protocol,
}

-- DEFAULT_UDP_BLKSIZE
abbrev pub default_udp_blksize : ℤ
default_udp_blksize = pos 1460

-- The datagrams of an old client have the size of its blocks.
unfoldable pub derive_gso : Params → Params
unfolding quot
derive_gso p =
    let size = p.blksize in
    let sized = record p {
      gso_dg_size = size;
      gso_bf_size = quot p.gso_bf_size (pos_part size) *ℤ size;
    } in
    if same_protocol p.protocol pudp && (p.gso ==ℤ pos 1) && (p.gso_dg_size ==ℤ pos 0)
    then (if ltb_ℤ (pos 0) size then sized else record p { gso_dg_size = default_udp_blksize })
    else p

-- In how many directions a stream sends.
abbrev pub directions : Mode → ℕ
directions bidirectional = 2
directions m = 1

-- The rate of all streams, as an uint64_t.
unfoldable pub total_requested : Params → ℕ → ℕ
unfolding to_u64
total_requested p rate = to_u64 p.num_streams * rate * directions p.mode % 2 ^ 64

abbrev pub over_limit : Params → ℕ → Bool
over_limit p rate = not (p.bitrate_limit == 0) && ltb p.bitrate_limit (total_requested p rate)

-- The sum of two ints; it wraps around where C leaves it undefined.
abbrev pub too_long : Params → Bool
too_long p =
    ltb_ℤ (pos 0) p.max_server_duration
    && (ltb_ℤ p.max_server_duration (to_i32 (p.duration +ℤ p.omit)) || (p.duration ==ℤ pos 0))

-- A test that fails sets the code and the result, and the next test follows.
abbrev pub refuse_if : Bool → ℕ → ℤ × Params → ℤ × Params
refuse_if test code (r, p) = if test then (negsuc 0, record p { i_errno = code }) else (r, p)

unfoldable pub check_limits : ℤ × Params → ℤ × Params
unfolding total_requested to_i32
check_limits (r, p) = refuse_if (over_limit p p.fqrate) ietotalrate (
    refuse_if (over_limit p p.rate) ietotalrate
      (refuse_if (too_long p) iemaxservertestdurationexceeded (r, p)))

-- The two calls that set the direction.
unfoldable pub turn : Bool → Bool → Bool → Params → Params
unfolding set_test_reverse set_test_bidirectional
turn has_tcpinfo reverse bidir p =
    let turned = if reverse then set_test_reverse has_tcpinfo true p else p in
    if bidir then set_test_bidirectional has_tcpinfo true turned else turned

-- The member of `json_start`, and who reports retransmits.
unfoldable pub note_parameters : Bool → Params → Params
note_parameters has_tcpinfo p =
    let told = if p.rate == 0 then p.target_bitrate else some p.rate in
    record p {
      target_bitrate = told;
      sender_has_retransmits =
          (not (is_receiver p.mode) && same_protocol p.protocol ptcp && has_tcpinfo)
          || p.sender_has_retransmits;
    }

module _ (lib : Json) (o : lib.Obj) where
  unfoldable pub get_int : Key → ℤ → ℤ
  unfolding get_number to_i32
  get_int k old = elim (get_number lib o k) [ none ↦ old | some x ↦ to_i32 (lib.to_int x) ]

  unfoldable pub get_u64 : Key → ℕ → ℕ
  unfolding get_number to_u64
  get_u64 k old = elim (get_number lib o k) [ none ↦ old | some x ↦ to_u64 (lib.to_int x) ]

  unfoldable pub get_u32 : Key → ℕ → ℕ
  unfolding get_number to_u32
  get_u32 k old = elim (get_number lib o k) [ none ↦ old | some x ↦ to_u32 (lib.to_int x) ]

  -- A number of any value switches it on.
  unfoldable pub get_switch : Key → ℤ → ℤ
  unfolding get_number
  get_switch k old = elim (get_number lib o k) [ none ↦ old | some x ↦ pos 1 ]

  unfoldable pub get_string : Key → Option Bytes → Option Bytes
  unfolding get_text
  get_string k old = elim (get_text lib o k) [ none ↦ old | some s ↦ some s ]

  -- `valueint` of a member of any type.
  unfoldable pub get_valueint : Key → ℤ → ℤ
  unfolding to_i32
  get_valueint k old = elim (lib.get o k) [
    | none ↦ old
    | some v ↦ elim v [ number x ↦ to_i32 (lib.to_int x) | boolean true ↦ pos 1 | _ ↦ pos 0 ]
  ]

  unfoldable pub get_flag : Key → Bool
  unfolding get_boolean
  get_flag k = elim (get_boolean lib o k) [ none ↦ false | some b ↦ true ]

  -- From "omit" to "parallel".
  unfoldable pub get_counts : Params → Params
  unfolding get_int get_u64 get_flag
  get_counts p = record p {
    omit = get_int Key.omit p.omit;
    server_affinity = get_int Key.server_affinity p.server_affinity;
    duration = get_int Key.time p.duration;
    bytes = get_u64 Key.num 0;
    blocks = get_u64 Key.blockcount 0;
    mss = get_int Key.mss p.mss;
    no_delay = get_flag Key.nodelay || p.no_delay;
    num_streams = get_int Key.parallel p.num_streams;
  }

  -- From "window" to "gso_bf_size".
  unfoldable pub get_sizes : Params → Params
  unfolding get_int
  get_sizes p = record p {
    socket_bufsize = get_int Key.window p.socket_bufsize;
    blksize = get_int Key.len p.blksize;
    gso = get_int Key.gso p.gso;
    gso_dg_size = get_int Key.gso_dg_size p.gso_dg_size;
    gso_bf_size = get_int Key.gso_bf_size p.gso_bf_size;
  }

  -- From "gro" to "skip_rx_copy".
  unfoldable pub get_rest : Params → Params
  unfolding get_int get_u64 get_u32 get_string get_switch get_valueint
  get_rest p = record p {
    gro = get_int Key.gro p.gro;
    gro_bf_size = get_int Key.gro_bf_size p.gro_bf_size;
    rate = get_u64 Key.bandwidth p.rate;
    fqrate = get_u64 Key.fqrate p.fqrate;
    pacing_timer = get_u32 Key.pacing_timer p.pacing_timer;
    burst = get_int Key.burst p.burst;
    tos = get_int Key.tos p.tos;
    flowlabel = get_int Key.flowlabel p.flowlabel;
    title = get_string Key.title p.title;
    extra_data = get_string Key.extra_data p.extra_data;
    congestion = get_string Key.congestion p.congestion;
    congestion_used = get_string Key.congestion_used p.congestion_used;
    get_server_output = get_switch Key.get_server_output p.get_server_output;
    udp_counters_64bit = get_switch Key.udp_counters_64bit p.udp_counters_64bit;
    repeating_payload = get_switch Key.repeating_payload p.repeating_payload;
    zerocopy = get_int Key.zerocopy p.zerocopy;
    dont_fragment = get_int Key.dont_fragment p.dont_fragment;
    skip_rx_copy = get_valueint Key.skip_rx_copy p.skip_rx_copy;
  }

  module _ (has_tcpinfo : Bool) where
    unfoldable pub choose_protocol : Params → ℤ × Params
    unfolding set_protocol get_flag
    choose_protocol p =
        let after_tcp = if get_flag Key.tcp then (set_protocol has_tcpinfo ptcp p).1 else p in
        let after_udp : ℤ × Params =
          if get_flag Key.udp
          then (if after_tcp.has_file
              then (negsuc 0, record after_tcp { i_errno = ieudpfiletransfer })
              else (pos 0, (set_protocol has_tcpinfo pudp after_tcp).1))
          else (pos 0, after_tcp) in
        (
          after_udp.0,
          if get_flag Key.sctp then (set_protocol has_tcpinfo psctp after_udp.1).1 else after_udp.1,
        )

    unfoldable pub get_direction : Params → Params
    unfolding turn get_flag
    get_direction p = turn has_tcpinfo (get_flag Key.reverse) (get_flag Key.bidirectional) p

    unfoldable pub collect_parameters : Params → ℤ × Params
    unfolding choose_protocol get_counts get_direction get_sizes derive_gso get_rest note_parameters
    collect_parameters p =
        let chosen = choose_protocol p in
        (
          chosen.0,
          note_parameters has_tcpinfo
              (get_rest (derive_gso (get_sizes (get_direction (get_counts chosen.1))))),
        )

    unfoldable pub take_parameters : Params → ℤ × Params
    unfolding collect_parameters check_limits
    take_parameters p = check_limits (collect_parameters p)
