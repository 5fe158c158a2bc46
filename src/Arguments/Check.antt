-- ===== src/Arguments/Check.antt =====
-- src/iperf_api.c: the checks on the file, the block size and the conditions that end the test.
use iperf3_windows_msvc.Prelude.{Bool, ℕ, Option, none, some, not, ◌&&◌, ◌||◌, ◌==◌, if◌then◌else◌}
use iperf3_windows_msvc.Prelude.Int.{ℤ, pos, ltb_ℤ, ◌==ℤ◌, ◌*ℤ◌, pos_part}
use iperf3_windows_msvc.Params.Words.{quot}
use iperf3_windows_msvc.Params.Get.{default_udp_blksize}
use iperf3_windows_msvc.Params.{Protocol, ptcp, pudp, psctp, same_protocol, ieudpfiletransfer}
use iperf3_windows_msvc.Arguments.Checked.{Checked, refused, accepted, ◌>>=◌, given, is_client}
use iperf3_windows_msvc.Arguments.Auth.{check_roles, check_auth}
use iperf3_windows_msvc.Arguments.{Arguments, Environment}

abbrev pub ienorole : ℕ
ienorole = 2

abbrev pub ieblocksize : ℕ
ieblocksize = 7

abbrev pub ieendconditions : ℕ
ieendconditions = 16

abbrev pub ieudpblocksize : ℕ
ieudpblocksize = 20

-- MAX_BLOCKSIZE, MIN_UDP_BLOCKSIZE, MAX_UDP_BLOCKSIZE, UDP_RATE
abbrev pub max_blocksize : ℤ
max_blocksize = pos 1048576

abbrev pub min_udp_blocksize : ℤ
min_udp_blocksize = pos 16

abbrev pub max_udp_blocksize : ℤ
max_udp_blocksize = pos 65507

abbrev pub udp_rate : ℕ
udp_rate = 1048576

unfoldable pub check_file : Arguments → Checked
check_file a =
    if a.has_file && same_protocol a.protocol pudp then refused ieudpfiletransfer else accepted a

-- The block size of a protocol where none is given; that of UDP is found out later.
unfoldable pub default_block : Protocol → ℤ
default_block pudp = pos 0
default_block psctp = pos 65536
default_block ptcp = pos 131072

unfoldable pub choose_block : Arguments → Arguments
choose_block a = record a {
  block = if a.block ==ℤ pos 0 then default_block a.protocol else a.block;
}

-- Block sizes that no protocol can use, and those that UDP cannot.
unfoldable pub bad_block : Protocol → ℤ → Bool
bad_block p n = (not (same_protocol p pudp) && not (ltb_ℤ (pos 0) n)) || ltb_ℤ max_blocksize n

unfoldable pub bad_udp_block : Protocol → ℤ → Bool
bad_udp_block p n =
    same_protocol p pudp
    && (ltb_ℤ (pos 0) n && (ltb_ℤ n min_udp_blocksize || ltb_ℤ max_udp_blocksize n))

unfoldable pub test_block : Arguments → Checked
unfolding bad_block bad_udp_block
test_block a =
    if bad_block a.protocol a.block
    then refused ieblocksize
    else if bad_udp_block a.protocol a.block
    then refused ieudpblocksize
    else accepted a

-- The sizes of segmentation offload.
unfoldable pub set_gso : Arguments → Arguments
unfolding quot
set_gso a =
    let sized = record a {
      gso_dg_size = a.block;
      gso_bf_size = quot a.gso_bf_size (pos_part a.block) *ℤ a.block;
    } in
    if same_protocol a.protocol pudp && not (a.gso ==ℤ pos 0)
    then (if ltb_ℤ (pos 0) a.block then sized else record a { gso_dg_size = default_udp_blksize })
    else a

unfoldable pub default_rate : Protocol → ℕ
default_rate pudp = udp_rate
default_rate p = 0

unfoldable pub set_sizes : Arguments → Arguments
unfolding default_rate
set_sizes a = record a {
  blksize = a.block;
  rate = if a.rate_flag then a.rate else default_rate a.protocol;
}

-- The size of the file is the number of bytes to send, if nothing else ends the test.
unfoldable pub set_bytes : Option ℕ → Arguments → Arguments
set_bytes none a = a
set_bytes (some size) a =
    if (a.bytes == 0)
      && ((a.blocks == 0) && (not a.duration_flag && (a.has_file && is_client a.role)))
    then record a { bytes = size }
    else a

-- Without a duration on the command line, a number of bytes or blocks ends the test alone.
unfoldable pub set_duration : Arguments → Arguments
set_duration a =
    if (not (a.bytes == 0) || not (a.blocks == 0)) && not a.duration_flag
    then record a { duration = pos 0 }
    else a

-- One condition at most ends the test.
unfoldable pub check_end : Arguments → Checked
check_end a =
    if (a.duration_flag && not (a.bytes == 0))
      || ((a.duration_flag && not (a.blocks == 0)) || (not (a.bytes == 0) && not (a.blocks == 0)))
    then refused ieendconditions
    else accepted a

unfoldable pub check_role : Arguments → Checked
check_role a = if given a.role then accepted a else refused ienorole

-- All settings.
unfoldable pub prepare : Option ℕ → Arguments → Arguments
unfolding set_gso set_sizes set_bytes set_duration
prepare size a = set_duration (set_bytes size (set_sizes (set_gso a)))

-- The checks in their order, up to that on the role.
unfoldable pub check_arguments : Environment → Arguments → Checked
unfolding check_roles check_auth check_file choose_block test_block prepare check_end check_role
check_arguments env a =
    check_roles a
    >>= check_auth env
    >>= check_file
    >>= (λ b. test_block (choose_block b))
    >>= (λ b. check_end (prepare env.stat_file b))
    >>= check_role
