-- ===== src/Params.antt =====
-- src/iperf_api.c: the parameters of a test, that the client sends and the server takes over.
pub mod Words
pub mod Entries
pub mod Get
pub mod Fields
pub mod Changes
pub mod Agreed
pub mod Agree
pub mod Limits
pub mod Exchange
mod Examples
use iperf3_windows_msvc.Prelude.{
  ℕ, Bool, true, false, List, [], ◌∷◌, Option, not, ◌&&◌, ◌||◌, if◌then◌else◌,
}
use iperf3_windows_msvc.Prelude.Int.{ℤ, pos, negsuc}
use iperf3_windows_msvc.Json.{Bytes}
use iperf3_windows_msvc.Control.{Mode, sender, receiver, bidirectional}

-- The error codes that this part of the code sets.
abbrev pub ietotalrate : ℕ
ietotalrate = 27

abbrev pub ieudpfiletransfer : ℕ
ieudpfiletransfer = 34

abbrev pub iemaxservertestdurationexceeded : ℕ
iemaxservertestdurationexceeded = 37

abbrev pub iesendparams : ℕ
iesendparams = 113

abbrev pub ierecvparams : ℕ
ierecvparams = 114

abbrev pub ieprotocol : ℕ
ieprotocol = 131

-- `prot->id`
pub data Protocol : Type 0 where
  ptcp pudp psctp : Protocol

abbrev pub same_protocol : Protocol → Protocol → Bool
same_protocol ptcp ptcp = true
same_protocol pudp pudp = true
same_protocol psctp psctp = true
same_protocol p q = false

-- `test->role`
pub data Role : Type 0 where
  client server : Role

-- The fields of `struct iperf_test` and `struct iperf_settings` that the exchange reads or sets. An int
-- is an integer, a string that may be NULL an option. `has_file` says whether `diskfile_name` is set,
-- `target_bitrate` is the member that goes into `json_start`.
pub record Params : Type 0 where
  pub role : Role
  pub mode : Mode
  pub reverse : Bool
  pub bidir : Bool
  pub sender_has_retransmits : Bool
  pub protocols : List Protocol
  pub protocol : Protocol
  pub omit : ℤ
  pub server_affinity : ℤ
  pub duration : ℤ
  pub bytes : ℕ
  pub blocks : ℕ
  pub mss : ℤ
  pub no_delay : Bool
  pub num_streams : ℤ
  pub socket_bufsize : ℤ
  pub blksize : ℤ
  pub rate : ℕ
  pub fqrate : ℕ
  pub pacing_timer : ℕ
  pub burst : ℤ
  pub gso : ℤ
  pub gso_dg_size : ℤ
  pub gso_bf_size : ℤ
  pub gro : ℤ
  pub gro_bf_size : ℤ
  pub tos : ℤ
  pub flowlabel : ℤ
  pub title : Option Bytes
  pub extra_data : Option Bytes
  pub congestion : Option Bytes
  pub congestion_used : Option Bytes
  pub get_server_output : ℤ
  pub udp_counters_64bit : ℤ
  pub repeating_payload : ℤ
  pub zerocopy : ℤ
  pub dont_fragment : ℤ
  pub skip_rx_copy : ℤ
  pub has_file : Bool
  pub max_server_duration : ℤ
  pub bitrate_limit : ℕ
  pub target_bitrate : Option ℕ
  pub i_errno : ℕ

-- Who sends, by the role and `reverse`.
abbrev pub direction : Role → Bool → Mode
direction client false = sender
direction server false = receiver
direction client true = receiver
direction server true = sender

-- The search in the list of protocols.
abbrev pub known : Protocol → List Protocol → Bool
known id [] = false
known id (q ∷ qs) = same_protocol q id || known id qs

-- `has_tcpinfo_retransmits()` is a constant of the build.
abbrev pub is_receiver : Mode → Bool
is_receiver receiver = true
is_receiver m = false

module _ (has_tcpinfo : Bool) where
  unfoldable pub check_sender_has_retransmits : Params → Params
  check_sender_has_retransmits p = record p {
    sender_has_retransmits =
        not (is_receiver p.mode) && same_protocol p.protocol ptcp && has_tcpinfo;
  }

  unfoldable pub set_test_reverse : Bool → Params → Params
  unfolding check_sender_has_retransmits
  set_test_reverse reverse p =
      check_sender_has_retransmits (record p { reverse = reverse; mode = direction p.role reverse })

  unfoldable pub set_test_bidirectional : Bool → Params → Params
  unfolding set_test_reverse
  set_test_bidirectional bidir p =
      if bidir
      then record p { bidir = bidir; mode = bidirectional }
      else set_test_reverse p.reverse (record p { bidir = bidir })

  unfoldable pub set_test_role : Role → Params → Params
  unfolding check_sender_has_retransmits
  set_test_role role p =
      let forward = if p.bidir then bidirectional else direction role false in
      check_sender_has_retransmits
        (record p { role = role; mode = if p.reverse then direction role true else forward })

  -- The result and the state; the error is left in `i_errno`.
  unfoldable pub set_protocol : Protocol → Params → ℤ × Params
  unfolding check_sender_has_retransmits
  set_protocol id p =
      if known id p.protocols
      then (pos 0, check_sender_has_retransmits (record p { protocol = id }))
      else (negsuc 0, record p { i_errno = ieprotocol })
