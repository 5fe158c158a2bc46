-- ===== src/Params/Agree.antt =====
-- src/iperf_api.c: the server's parameters after `get_parameters` are those of the client.
use mathlib.Core.Path.{subst, sym, ◌∙◌}
use iperf3_windows_msvc.Prelude.{
  ℕ, ◌≡◌, refl, ap, Bool, true, false, ◌&&◌, ◌||◌, not, ◌==◌, if◌then◌else◌,
}
use iperf3_windows_msvc.Prelude.Int.{ℤ, pos, negsuc, ◌==ℤ◌}
use iperf3_windows_msvc.Control.{Mode, bidirectional}
use iperf3_windows_msvc.Json.{Key, Json, IsLibrary}
use iperf3_windows_msvc.Json.Members.{find}
use iperf3_windows_msvc.Params.Entries.{param_entries}
use iperf3_windows_msvc.Params.Fields.{
  int_sent, valueint_sent, u64_sent, u32_sent, switch_sent, string_sent, flag_sent,
}
use iperf3_windows_msvc.Params.Changes.{
  derived, datagram_size, buffer_size, SameButMode, check_limits-SameButErrno,
  derive_gso-SameButGso, turn-SameButMode,
}
use iperf3_windows_msvc.Params.Get.{
  get_int, derive_gso, check_limits, get_flag, choose_protocol, get_counts, get_direction,
  get_sizes, get_rest, note_parameters, take_parameters, collect_parameters,
}
use iperf3_windows_msvc.Params.{
  Protocol, ptcp, pudp, psctp, same_protocol, server, Params, is_receiver, direction, known,
  set_protocol, check_sender_has_retransmits,
}
use iperf3_windows_msvc.Params.Agreed.{IsSent, IsAgreed}

abbrev with_mode : Params → Mode → Bool → Bool → Bool → Params
with_mode p m rv bd z = record p { mode = m; reverse = rv; bidir = bd; sender_has_retransmits = z }

abbrev with_gso : Params → ℤ → ℤ → Params
with_gso p dg bf = record p { gso_dg_size = dg; gso_bf_size = bf }

same_of :
    (f : Bool → ℤ → ℤ → ℤ) {b b' : Bool} {m m' n n' : ℤ}
    → b ≡ b'
    → m ≡ m'
    → n ≡ n'
    → f b m n ≡ f b' m' n'
same_of f d e h i = f (d i) (e i) (h i)

module _ (lib : Json) (law : IsLibrary lib) (has_tcpinfo : Bool) (c s0 : Params) (o : lib.Obj)
    (same : (k : Key) → lib.get o k ≡ find k (param_entries lib c)) (good : IsSent c) where
  tcp_sent : get_flag lib o Key.tcp ≡ same_protocol c.protocol ptcp
  unfolding param_entries
  tcp_sent = flag_sent lib law o Key.tcp _ (same Key.tcp)

  udp_sent : get_flag lib o Key.udp ≡ same_protocol c.protocol pudp
  unfolding param_entries
  udp_sent = flag_sent lib law o Key.udp _ (same Key.udp)

  sctp_sent : get_flag lib o Key.sctp ≡ same_protocol c.protocol psctp
  unfolding param_entries
  sctp_sent = flag_sent lib law o Key.sctp _ (same Key.sctp)

  reports : Protocol → Bool
  reports id = not (is_receiver s0.mode) && same_protocol id ptcp && has_tcpinfo

  chosen :
      (id : Protocol)
      → c.protocol ≡ id
      → known id s0.protocols ≡ true
      → (same_protocol id pudp && s0.has_file) ≡ false
      → (x : Bool) × (choose_protocol lib o has_tcpinfo s0
          ≡ (pos 0, record s0 { protocol = id; sender_has_retransmits = x }))
  unfolding reports choose_protocol set_protocol check_sender_has_retransmits
  chosen ptcp e is_known fits =
      (reports ptcp, rw (choose_protocol, tcp_sent, udp_sent, sctp_sent, e, is_known) refl)
  chosen pudp e is_known fits =
      (reports pudp, rw (choose_protocol, tcp_sent, udp_sent, sctp_sent, e, fits, is_known) refl)
  chosen psctp e is_known fits =
      (reports psctp, rw (choose_protocol, tcp_sent, udp_sent, sctp_sent, e, is_known) refl)

  reverse_sent : get_flag lib o Key.reverse ≡ c.reverse
  unfolding param_entries
  reverse_sent = flag_sent lib law o Key.reverse c.reverse (same Key.reverse)

  bidirectional_sent : get_flag lib o Key.bidirectional ≡ c.bidir
  unfolding param_entries
  bidirectional_sent = flag_sent lib law o Key.bidirectional c.bidir (same Key.bidirectional)

  old_sent :
      (udp : Bool) (n m : ℤ)
      → derived udp (if udp then c.gso else n) (if udp then c.gso_dg_size else m)
        ≡ derived udp c.gso c.gso_dg_size
  old_sent false n m = refl
  old_sent true n m = refl

  agreed :
      (x : Bool) (m : Mode) (rv bd z : Bool) (dg bf : ℤ) (e : ℕ)
      → m ≡ (if c.bidir then bidirectional else direction server c.reverse)
      → let old =
          derived
            (same_protocol c.protocol pudp)
            (get_int lib o Key.gso s0.gso)
            (get_int lib o Key.gso_dg_size s0.gso_dg_size) in
        let size = get_int lib o Key.len s0.blksize in
        dg ≡ datagram_size old (get_int lib o Key.gso_dg_size s0.gso_dg_size) size
        → bf ≡ buffer_size old (get_int lib o Key.gso_bf_size s0.gso_bf_size) size
        → IsAgreed c s0
            (record (note_parameters has_tcpinfo (
              get_rest lib o
                (record (get_sizes lib o
                  (record (get_counts lib o
                    (record s0 { protocol = c.protocol; sender_has_retransmits = x })) {
                      mode = m;
                      reverse = rv;
                      bidir = bd;
                      sender_has_retransmits = z;
                    })) { gso_dg_size = dg; gso_bf_size = bf }))) { i_errno = e })
  unfolding get_counts get_sizes get_rest note_parameters param_entries
  agreed x m rv bd z dg bf e turned_to dg_is bf_is =
      let udp = same_protocol c.protocol pudp in
      let gso_is = int_sent lib law o Key.gso udp c.gso s0.gso good.gso (same Key.gso) in
      let dg_sent =
        int_sent lib law o Key.gso_dg_size udp c.gso_dg_size s0.gso_dg_size good.gso_dg_size
          (same Key.gso_dg_size) in
      let bf_sent =
        int_sent lib law o Key.gso_bf_size udp c.gso_bf_size s0.gso_bf_size good.gso_bf_size
          (same Key.gso_bf_size) in
      let size_sent =
        int_sent lib law o Key.len (not (c.blksize ==ℤ pos 0)) c.blksize s0.blksize good.blksize
          (same Key.len) in
      let old_is =
        ap (λ n. derived udp n (get_int lib o Key.gso_dg_size s0.gso_dg_size)) gso_is
        ∙ ap (λ n. derived udp (if udp then c.gso else s0.gso) n) dg_sent
        ∙ old_sent udp s0.gso s0.gso_dg_size in
      record {
        protocol = refl;
        mode = turned_to;
        omit = int_sent lib law o Key.omit true c.omit s0.omit good.omit (same Key.omit);
        server_affinity =
            int_sent lib law o Key.server_affinity (not (c.server_affinity ==ℤ negsuc 0))
              c.server_affinity s0.server_affinity good.server_affinity (same Key.server_affinity);
        duration =
            int_sent lib law o Key.time true c.duration s0.duration good.duration (same Key.time);
        bytes = u64_sent lib law o Key.num true c.bytes 0 good.bytes (same Key.num);
        blocks =
            u64_sent lib law o Key.blockcount true c.blocks 0 good.blocks (same Key.blockcount);
        mss =
            int_sent lib law o Key.mss (not (c.mss ==ℤ pos 0)) c.mss s0.mss good.mss (same Key.mss);
        no_delay =
            ap (λ b. b || s0.no_delay)
              (flag_sent lib law o Key.nodelay c.no_delay (same Key.nodelay));
        num_streams =
            int_sent lib law o Key.parallel true c.num_streams s0.num_streams good.num_streams
              (same Key.parallel);
        socket_bufsize =
            int_sent lib law o Key.window (not (c.socket_bufsize ==ℤ pos 0)) c.socket_bufsize
              s0.socket_bufsize good.socket_bufsize (same Key.window);
        blksize =
            int_sent lib law o Key.len (not (c.blksize ==ℤ pos 0)) c.blksize s0.blksize good.blksize
              (same Key.len);
        rate =
            u64_sent lib law o Key.bandwidth (not (c.rate == 0)) c.rate s0.rate good.rate
              (same Key.bandwidth);
        fqrate =
            u64_sent lib law o Key.fqrate (not (c.fqrate == 0)) c.fqrate s0.fqrate good.fqrate
              (same Key.fqrate);
        pacing_timer =
            u32_sent lib law o Key.pacing_timer (not (c.pacing_timer == 0)) c.pacing_timer
              s0.pacing_timer good.pacing_timer (same Key.pacing_timer);
        burst =
            int_sent lib law o Key.burst (not (c.burst ==ℤ pos 0)) c.burst s0.burst good.burst
              (same Key.burst);
        gso = gso_is;
        gso_dg_size = dg_is ∙ same_of datagram_size old_is dg_sent size_sent;
        gso_bf_size = bf_is ∙ same_of buffer_size old_is bf_sent size_sent;
        gro =
            int_sent lib law o Key.gro (same_protocol c.protocol pudp) c.gro s0.gro good.gro
              (same Key.gro);
        gro_bf_size =
            int_sent lib law o Key.gro_bf_size (same_protocol c.protocol pudp) c.gro_bf_size
              s0.gro_bf_size good.gro_bf_size (same Key.gro_bf_size);
        tos =
            int_sent lib law o Key.tos (not (c.tos ==ℤ pos 0)) c.tos s0.tos good.tos (same Key.tos);
        flowlabel =
            int_sent lib law o Key.flowlabel (not (c.flowlabel ==ℤ pos 0)) c.flowlabel s0.flowlabel
              good.flowlabel (same Key.flowlabel);
        title = string_sent lib law o Key.title c.title s0.title (same Key.title);
        extra_data =
            string_sent lib law o Key.extra_data c.extra_data s0.extra_data (same Key.extra_data);
        congestion =
            string_sent lib law o Key.congestion c.congestion s0.congestion (same Key.congestion);
        congestion_used =
            string_sent lib law o Key.congestion_used c.congestion_used s0.congestion_used
              (same Key.congestion_used);
        get_server_output =
            switch_sent lib law o Key.get_server_output (not (c.get_server_output ==ℤ pos 0))
              c.get_server_output s0.get_server_output (same Key.get_server_output);
        udp_counters_64bit =
            switch_sent lib law o Key.udp_counters_64bit (not (c.udp_counters_64bit ==ℤ pos 0))
              c.udp_counters_64bit s0.udp_counters_64bit (same Key.udp_counters_64bit);
        repeating_payload =
            switch_sent lib law o Key.repeating_payload (not (c.repeating_payload ==ℤ pos 0))
              c.repeating_payload s0.repeating_payload (same Key.repeating_payload);
        zerocopy =
            int_sent lib law o Key.zerocopy (not (c.zerocopy ==ℤ pos 0)) c.zerocopy s0.zerocopy
              good.zerocopy (same Key.zerocopy);
        dont_fragment =
            int_sent lib law o Key.dont_fragment (not (c.dont_fragment ==ℤ pos 0)) c.dont_fragment
              s0.dont_fragment good.dont_fragment (same Key.dont_fragment);
        skip_rx_copy =
            valueint_sent lib law o Key.skip_rx_copy (not (c.skip_rx_copy ==ℤ pos 0)) c.skip_rx_copy
              s0.skip_rx_copy good.skip_rx_copy (same Key.skip_rx_copy);
      }

  directed :
      (q : Params)
      → q.role ≡ server
      → q.mode ≡ direction server false
      → SameButMode c.reverse c.bidir q (get_direction lib o has_tcpinfo q)
  unfolding get_direction
  directed q is_server fresh =
      rw (reverse_sent, bidirectional_sent)
        (turn-SameButMode has_tcpinfo c.reverse c.bidir q is_server fresh)

  -- The server that has taken over a message with the members which send_parameters adds has the
  -- client's protocol, direction, durations, counts, rates and sizes; a parameter that the client does
  -- not send, because it is 0 or NULL, stays as it was, and where a client with segmentation gives no
  -- size of a datagram, that size and the one of the buffer come of the size of a block. The values are
  -- ints, or below 2 ^ 32 for the pacing timer, and bytes, blocks and rates are at most 2 ^ 53; the
  -- server knows the protocol, does not write a UDP test to a file, has the role of a server and is in
  -- its initial direction.
  pub take_parameters-IsAgreed :
      known c.protocol s0.protocols ≡ true
      → (same_protocol c.protocol pudp && s0.has_file) ≡ false
      → s0.role ≡ server
      → s0.mode ≡ direction server false
      → IsAgreed c s0 (take_parameters lib o has_tcpinfo s0).1
  unfolding take_parameters collect_parameters get_counts get_sizes
  take_parameters-IsAgreed is_known fits is_server fresh =
      let (x, is_chosen) = chosen c.protocol refl is_known fits in
      let q : Params = record s0 { protocol = c.protocol; sender_has_retransmits = x } in
      let (m, rv, bd, z, to_mode, m_is) = directed (get_counts lib o q) is_server fresh in
      let (dg, bf, to_gso, dg_is, bf_is) =
        derive_gso-SameButGso (get_sizes lib o (with_mode (get_counts lib o q) m rv bd z)) in
      let (e, to_end) =
        check_limits-SameButErrno (pos 0)
          (finish (with_gso (get_sizes lib o (with_mode (get_counts lib o q) m rv bd z)) dg bf)) in
      subst (IsAgreed c s0)
        (sym (
          ap {A = ℤ × Params}
            (λ a.
              (check_limits (
                a.0,
                finish (
                    derive_gso
                      (get_sizes lib o (get_direction lib o has_tcpinfo (get_counts lib o a.1)))),
              )).1)
            is_chosen
          ∙ ap (λ a. (check_limits (pos 0, finish (derive_gso (get_sizes lib o a)))).1) to_mode
          ∙ ap (λ a. (check_limits (pos 0, finish a)).1) to_gso
          ∙ to_end))
        (agreed x m rv bd z dg bf e m_is dg_is bf_is)
    where
      finish : Params → Params
      finish p = note_parameters has_tcpinfo (get_rest lib o p)
