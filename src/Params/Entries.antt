-- ===== src/Params/Entries.antt =====
-- src/iperf_api.c: the members that `send_parameters` adds, in its order.
use iperf3_windows_msvc.Prelude.{
  ℕ, Bool, true, ◌==◌, not, Option, none, some, [], ◌∷◌, if◌then◌else◌,
}
use iperf3_windows_msvc.Prelude.Int.{ℤ, pos, negsuc, ◌==ℤ◌}
use iperf3_windows_msvc.Json.{Bytes, Key, Item, boolean, number, text, Json}
use iperf3_windows_msvc.Json.Members.{Entries}
use iperf3_windows_msvc.Params.{ptcp, pudp, psctp, same_protocol, Params}

-- A call under an `if`.
abbrev pub given_if {ℓ} : {A : Type ℓ} → Bool → A → Option A
given_if test a = if test then some a else none

-- A call under an `if` on a pointer.
abbrev pub text_item : {F : Type 0} → Option Bytes → Option (Item F)
text_item none = none
text_item (some s) = some (text s)

-- IPERF_VERSION, "3.21".
abbrev pub iperf_version : Bytes
iperf_version = 51 ∷ 46 ∷ 50 ∷ 49 ∷ []

module _ (lib : Json) where
  abbrev pub int_item : ℤ → Item lib.F
  int_item n = number (lib.of_int n)

  abbrev pub nonzero : ℤ → Option (Item lib.F)
  nonzero n = given_if (not (n ==ℤ pos 0)) (int_item n)

  abbrev pub nonzero_ℕ : ℕ → Option (Item lib.F)
  nonzero_ℕ n = given_if (not (n == 0)) (int_item (pos n))

  abbrev pub flag : Bool → Option (Item lib.F)
  flag test = given_if test (boolean true)

  unfoldable pub param_entries : Params → Entries lib.F
  param_entries p =
      let udp = same_protocol p.protocol pudp in
      (Key.tcp, flag (same_protocol p.protocol ptcp))
      ∷ (Key.udp, flag udp)
      ∷ (Key.sctp, flag (same_protocol p.protocol psctp))
      ∷ (Key.omit, some (int_item p.omit))
      ∷ (
        Key.server_affinity,
        given_if (not (p.server_affinity ==ℤ negsuc 0)) (int_item p.server_affinity),
      )
      ∷ (Key.time, some (int_item p.duration))
      ∷ (Key.num, some (int_item (pos p.bytes)))
      ∷ (Key.blockcount, some (int_item (pos p.blocks)))
      ∷ (Key.mss, nonzero p.mss)
      ∷ (Key.nodelay, flag p.no_delay)
      ∷ (Key.parallel, some (int_item p.num_streams))
      ∷ (Key.reverse, flag p.reverse)
      ∷ (Key.bidirectional, flag p.bidir)
      ∷ (Key.window, nonzero p.socket_bufsize)
      ∷ (Key.len, nonzero p.blksize)
      ∷ (Key.bandwidth, nonzero_ℕ p.rate)
      ∷ (Key.fqrate, nonzero_ℕ p.fqrate)
      ∷ (Key.pacing_timer, nonzero_ℕ p.pacing_timer)
      ∷ (Key.burst, nonzero p.burst)
      ∷ (Key.gso, given_if udp (int_item p.gso))
      ∷ (Key.gso_dg_size, given_if udp (int_item p.gso_dg_size))
      ∷ (Key.gso_bf_size, given_if udp (int_item p.gso_bf_size))
      ∷ (Key.gro, given_if udp (int_item p.gro))
      ∷ (Key.gro_bf_size, given_if udp (int_item p.gro_bf_size))
      ∷ (Key.tos, nonzero p.tos)
      ∷ (Key.flowlabel, nonzero p.flowlabel)
      ∷ (Key.title, text_item p.title)
      ∷ (Key.extra_data, text_item p.extra_data)
      ∷ (Key.congestion, text_item p.congestion)
      ∷ (Key.congestion_used, text_item p.congestion_used)
      ∷ (Key.get_server_output, nonzero p.get_server_output)
      ∷ (Key.udp_counters_64bit, nonzero p.udp_counters_64bit)
      ∷ (Key.repeating_payload, nonzero p.repeating_payload)
      ∷ (Key.zerocopy, nonzero p.zerocopy)
      ∷ (Key.dont_fragment, nonzero p.dont_fragment)
      ∷ (Key.skip_rx_copy, nonzero p.skip_rx_copy)
      ∷ (Key.client_version, some (text iperf_version))
      ∷ []
