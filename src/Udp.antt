-- ===== src/Udp.antt =====
-- src/iperf_udp.c: what the UDP code keeps of a stream, and the settings that it reads.
pub mod Packet
pub mod Count
pub mod Recv
pub mod Send
mod Examples
pub use iperf3_windows_msvc.Prelude.Double.{Double}
use iperf3_windows_msvc.Prelude.{ℕ, Bool}

-- The fields of `struct iperf_stream` and its `result` that the UDP code reads or writes. An int64_t
-- is its bit pattern, below 2 ^ 64.
pub record UdpStream (F : Type 0) : Type 0 where
  pub packet_count : ℕ  -- int64_t
  pub cnt_error : ℕ  -- int64_t
  pub outoforder_packets : ℕ  -- int64_t
  pub jitter : F
  pub prev_transit : F
  pub bytes_received : ℕ  -- uint64_t
  pub bytes_received_this_interval : ℕ  -- uint64_t
  pub bytes_sent : ℕ  -- uint64_t
  pub bytes_sent_this_interval : ℕ  -- uint64_t

-- The fields of `test`, `test->settings` and `sp->settings` that it reads.
pub record UdpSettings : Type 0 where
  pub blksize : ℕ
  pub gro : Bool
  pub gro_bf_size : ℕ
  pub gso : Bool
  pub gso_dg_size : ℕ
  pub gso_bf_size : ℕ
  pub skip_rx_copy : Bool
  pub udp_counters_64bit : Bool
  pub test_running : Bool  -- test->state == TEST_RUNNING
