-- ===== src/Udp/Send.antt =====
-- src/iperf_udp.c: `iperf_udp_send`.
pub mod Fill
pub mod Result
use iperf3_windows_msvc.Prelude.{
  ℕ, zero, suc, ◌+◌, ◌-◌, ◌^◌, Bool, true, false, not, ◌&&◌, ◌||◌, ◌++◌, Option, none, some, length,
  take, drop, ltb, leb, ◌==◌, if◌then◌else◌,
}
use iperf3_windows_msvc.Prelude.Int.{ℤ, pos, negsuc}
use iperf3_windows_msvc.Time.{IperfTime, u64}
use iperf3_windows_msvc.Net.{Bytes, Sys, Round, return, continue, loop, nwrite}
use iperf3_windows_msvc.Net.Offload.{nwrite_gso}
use iperf3_windows_msvc.Udp.{UdpStream, UdpSettings}
use iperf3_windows_msvc.Udp.Packet.{header}

-- The variables of the loop that puts the headers into the send buffer; `offset` is
-- `dgram_buf - sp->buffer`.
pub record Filling (W : Type 0) : Type 0 where
  pub offset : ℕ
  pub buf_sz : ℕ
  pub buffer : Bytes  -- sp->buffer
  pub packet_count : ℕ  -- sp->packet_count
  pub world : W

-- `memcpy` of `bytes` into `buf` at `offset`.
abbrev pub write_at : ℕ → Bytes → Bytes → Bytes
write_at offset bytes buf = take offset buf ++ (bytes ++ drop (offset + length bytes) buf)

-- What `iperf_udp_send` returns and changes.
pub record Sent (F W : Type 0) : Type 0 where
  pub result : ℤ
  pub sp : UdpStream F
  pub buffer : Bytes
  pub settings : UdpSettings
  pub world : W

-- `dgram_sz`, `buf_sz` and the settings: segmentation is turned off if its sizes make no sense.
unfoldable pub plan : UdpSettings → ℕ × ℕ × UdpSettings
plan settings =
    if settings.gso
    then if settings.gso_dg_size == 0
        || ltb settings.gso_dg_size 12
        || ltb settings.gso_bf_size settings.gso_dg_size
      then (settings.blksize, settings.blksize, record settings { gso = false })
      else (settings.gso_dg_size, settings.gso_bf_size, settings)
    else (settings.blksize, settings.blksize, settings)

module _ {W : Type 0} (sys : Sys W) where
  -- The body of the `while` loop; `total` is `dgram_buf_end - sp->buffer`.
  unfoldable pub fill_body : Bool → ℕ → ℕ → Filling W → Round (Filling W) (Filling W)
  fill_body wide dgram_sz total s =
      let (before, w) = sys.now s.world in
      let packet_count = u64 (s.packet_count + 1) in
      if ltb 0 s.buf_sz && leb (s.offset + dgram_sz) total
      then if ltb s.buf_sz dgram_sz
        then return s
        else continue (record {
          offset = s.offset + dgram_sz;
          buf_sz = s.buf_sz - dgram_sz;
          buffer = write_at s.offset (header wide before packet_count) s.buffer;
          packet_count = packet_count;
          world = w;
        })
      else return s

  -- The loop over a buffer of `total` bytes.
  unfoldable pub fill_headers : Bool → ℕ → ℕ → Bytes → ℕ → W → Option (Filling W)
  fill_headers wide dgram_sz total buffer packet_count w =
      loop (fill_body wide dgram_sz total) (suc total) (record {
        offset = 0;
        buf_sz = total;
        buffer = buffer;
        packet_count = packet_count;
        world = w;
      })

  transmit : UdpSettings → ℕ → Bytes → W → Option (ℤ × W)
  transmit settings socket buffer w =
      if settings.gso
      then some (nwrite_gso sys socket (take settings.gso_bf_size buffer) settings.gso_dg_size w)
      else nwrite sys socket buffer settings.blksize w

-- After the write: where no data was sent one packet number is given back, and an error counts no
-- bytes.
unfoldable pub account : {F : Type 0} → ℤ → UdpStream F → UdpStream F
account (negsuc n) sp = record sp { packet_count = u64 (sp.packet_count + (2 ^ 64 - 1)) }
account (pos zero) sp = record sp { packet_count = u64 (sp.packet_count + (2 ^ 64 - 1)) }
account (pos (suc r)) sp = record sp {
  bytes_sent = u64 (sp.bytes_sent + suc r);
  bytes_sent_this_interval = u64 (sp.bytes_sent_this_interval + suc r);
}

module _ {W : Type 0} (sys : Sys W) {F : Type 0} where
  -- The write, and what follows it.
  deliver : UdpSettings → ℕ → UdpStream F → Option (Filling W) → Option (Sent F W)
  unfolding transmit account
  deliver settings socket sp none = none
  deliver settings socket sp (some filled) =
      elim (transmit sys settings socket filled.buffer filled.world) [
        | none ↦ none
        | some (r, w) ↦ some (record {
          result = r;
          sp = account r (record sp { packet_count = filled.packet_count });
          buffer = filled.buffer;
          settings = settings;
          world = w;
        })
      ]

  unfoldable pub udp_send : UdpSettings → ℕ → UdpStream F → Bytes → W → Option (Sent F W)
  unfolding plan deliver fill_headers
  udp_send settings socket sp buffer w =
      let (dgram_sz, total, planned) = plan settings in
      deliver planned socket sp
        (fill_headers sys planned.udp_counters_64bit dgram_sz total buffer sp.packet_count w)
