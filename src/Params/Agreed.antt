-- ===== src/Params/Agreed.antt =====
-- src/iperf_api.c: what the client and the server agree on.
use iperf3_windows_msvc.Prelude.{ℕ, ◌≤◌, ◌<◌, ◌^◌, ◌≡◌, Bool, ◌||◌, not, ◌==◌, if◌then◌else◌}
use iperf3_windows_msvc.Prelude.Int.{ℤ, pos, negsuc, ◌==ℤ◌}
use iperf3_windows_msvc.Control.{bidirectional}
use iperf3_windows_msvc.Json.Members.{or_else}
use iperf3_windows_msvc.Params.Words.{IsInt}
use iperf3_windows_msvc.Params.Changes.{derived, datagram_size, buffer_size}
use iperf3_windows_msvc.Params.{pudp, same_protocol, server, Params, direction}

-- The values survive the way: ints, and counts that a double holds exactly.
pub record IsSent (c : Params) : Type 0 where
  pub omit : IsInt c.omit
  pub server_affinity : IsInt c.server_affinity
  pub duration : IsInt c.duration
  pub bytes : c.bytes ≤ 2 ^ 53
  pub blocks : c.blocks ≤ 2 ^ 53
  pub mss : IsInt c.mss
  pub num_streams : IsInt c.num_streams
  pub socket_bufsize : IsInt c.socket_bufsize
  pub blksize : IsInt c.blksize
  pub rate : c.rate ≤ 2 ^ 53
  pub fqrate : c.fqrate ≤ 2 ^ 53
  pub pacing_timer : c.pacing_timer < 2 ^ 32
  pub burst : IsInt c.burst
  pub gro : IsInt c.gro
  pub gro_bf_size : IsInt c.gro_bf_size
  pub gso : IsInt c.gso
  pub gso_dg_size : IsInt c.gso_dg_size
  pub gso_bf_size : IsInt c.gso_bf_size
  pub tos : IsInt c.tos
  pub flowlabel : IsInt c.flowlabel
  pub zerocopy : IsInt c.zerocopy
  pub dont_fragment : IsInt c.dont_fragment
  pub skip_rx_copy : IsInt c.skip_rx_copy

-- A value that is sent only if it is not 0.
abbrev pub or_old : ℤ → ℤ → ℤ
or_old n old = if not (n ==ℤ pos 0) then n else old

abbrev pub or_old_ℕ : ℕ → ℕ → ℕ
or_old_ℕ n old = if not (n == 0) then n else old

-- A client that uses segmentation and sends no size of a datagram.
abbrev pub is_old : Params → Bool
is_old c = derived (same_protocol c.protocol pudp) c.gso c.gso_dg_size

-- What the client `c` wants, what the server `s0` had before, and what it has in the end.
pub record IsAgreed (c s0 s : Params) : Type 0 where
  pub protocol : s.protocol ≡ c.protocol
  pub mode : s.mode ≡ (if c.bidir then bidirectional else direction server c.reverse)
  pub omit : s.omit ≡ c.omit
  pub server_affinity :
      s.server_affinity
      ≡ (if not (c.server_affinity ==ℤ negsuc 0) then c.server_affinity else s0.server_affinity)
  pub duration : s.duration ≡ c.duration
  pub bytes : s.bytes ≡ c.bytes
  pub blocks : s.blocks ≡ c.blocks
  pub mss : s.mss ≡ or_old c.mss s0.mss
  pub no_delay : s.no_delay ≡ (c.no_delay || s0.no_delay)
  pub num_streams : s.num_streams ≡ c.num_streams
  pub socket_bufsize : s.socket_bufsize ≡ or_old c.socket_bufsize s0.socket_bufsize
  pub blksize : s.blksize ≡ or_old c.blksize s0.blksize
  pub rate : s.rate ≡ or_old_ℕ c.rate s0.rate
  pub fqrate : s.fqrate ≡ or_old_ℕ c.fqrate s0.fqrate
  pub pacing_timer : s.pacing_timer ≡ or_old_ℕ c.pacing_timer s0.pacing_timer
  pub burst : s.burst ≡ or_old c.burst s0.burst
  pub gso : s.gso ≡ (if same_protocol c.protocol pudp then c.gso else s0.gso)
  pub gso_dg_size :
      s.gso_dg_size
      ≡ datagram_size
          (is_old c)
          (if same_protocol c.protocol pudp then c.gso_dg_size else s0.gso_dg_size)
          (or_old c.blksize s0.blksize)
  pub gso_bf_size :
      s.gso_bf_size
      ≡ buffer_size
          (is_old c)
          (if same_protocol c.protocol pudp then c.gso_bf_size else s0.gso_bf_size)
          (or_old c.blksize s0.blksize)
  pub gro : s.gro ≡ (if same_protocol c.protocol pudp then c.gro else s0.gro)
  pub gro_bf_size :
      s.gro_bf_size ≡ (if same_protocol c.protocol pudp then c.gro_bf_size else s0.gro_bf_size)
  pub tos : s.tos ≡ or_old c.tos s0.tos
  pub flowlabel : s.flowlabel ≡ or_old c.flowlabel s0.flowlabel
  pub title : s.title ≡ or_else c.title s0.title
  pub extra_data : s.extra_data ≡ or_else c.extra_data s0.extra_data
  pub congestion : s.congestion ≡ or_else c.congestion s0.congestion
  pub congestion_used : s.congestion_used ≡ or_else c.congestion_used s0.congestion_used
  pub get_server_output :
      s.get_server_output
      ≡ (if not (c.get_server_output ==ℤ pos 0) then pos 1 else s0.get_server_output)
  pub udp_counters_64bit :
      s.udp_counters_64bit
      ≡ (if not (c.udp_counters_64bit ==ℤ pos 0) then pos 1 else s0.udp_counters_64bit)
  pub repeating_payload :
      s.repeating_payload
      ≡ (if not (c.repeating_payload ==ℤ pos 0) then pos 1 else s0.repeating_payload)
  pub zerocopy : s.zerocopy ≡ or_old c.zerocopy s0.zerocopy
  pub dont_fragment : s.dont_fragment ≡ or_old c.dont_fragment s0.dont_fragment
  pub skip_rx_copy : s.skip_rx_copy ≡ or_old c.skip_rx_copy s0.skip_rx_copy
