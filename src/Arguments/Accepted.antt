-- ===== src/Arguments/Accepted.antt =====
-- src/iperf_api.c: what the arguments satisfy that iperf_parse_arguments accepts.
use iperf3_windows_msvc.Prelude.{
  ℕ, ◌≡◌, ◌≢◌, ◌⊎◌, ap, ◌∙◌, sym, true, false, Option, none, some, arith, if◌then◌else◌,
}
use iperf3_windows_msvc.Prelude.Int.{ℤ, pos, ltb_ℤ, ◌==ℤ◌}
use iperf3_windows_msvc.Params.{pudp, same_protocol}
use iperf3_windows_msvc.Arguments.Checked.{accepted, given, >>=-accepted}
use iperf3_windows_msvc.Arguments.Auth.{check_roles, check_auth}
use iperf3_windows_msvc.Arguments.Check.{
  check_file, choose_block, default_block, test_block, set_gso, set_sizes, set_bytes, set_duration,
  prepare, default_rate, check_end, check_role, check_arguments,
}
use iperf3_windows_msvc.Arguments.{Arguments, Environment}
use iperf3_windows_msvc.Arguments.Authorized.{IsAuthorized, check_auth-IsAuthorized}
use iperf3_windows_msvc.Arguments.Steps.{
  test_block-IsBlock, end_lem, file_lem, roles_lem, check_auth_lem, SameButAuth, IsOneEnd,
  IsOwnRole, IsBlock,
}

-- What the arguments keep after the block size is settled.
record IsPrepared (a b : Arguments) : Type 0 where
  role : b.role ≡ a.role
  protocol : b.protocol ≡ a.protocol
  has_file : b.has_file ≡ a.has_file
  duration_flag : b.duration_flag ≡ a.duration_flag
  gso : b.gso ≡ a.gso
  blksize : b.blksize ≡ a.block
  rate : b.rate ≡ (if a.rate_flag then a.rate else default_rate a.protocol)

prepare-IsPrepared : (size : Option ℕ) (a : Arguments) → IsPrepared a (prepare size a)
unfolding prepare set_gso set_sizes set_bytes set_duration
prepare-IsPrepared none a = ground arith
prepare-IsPrepared (some n) a = ground arith

prepare_datagram :
    (size : Option ℕ) (a : Arguments)
    → same_protocol a.protocol pudp ≡ true
    → a.gso ≢ pos 0
    → ltb_ℤ (pos 0) (prepare size a).gso_dg_size ≡ true
unfolding prepare set_gso set_sizes set_bytes set_duration
prepare_datagram none a h g = ground arith
prepare_datagram (some n) a h g = ground arith

prepare_endless :
    (size : Option ℕ) (a : Arguments)
    → a.duration_flag ≡ false
    → let b = prepare size a in ((b.bytes ≡ 0) × (b.blocks ≡ 0)) ⊎ (b.duration ≡ pos 0)
unfolding prepare set_gso set_sizes set_bytes set_duration
prepare_endless none a h = ground arith
prepare_endless (some n) a h = ground arith

-- The block size that is used where none is given on the command line.
abbrev pub block_of : Arguments → ℤ
block_of a = if a.block ==ℤ pos 0 then default_block a.protocol else a.block

-- Options that go together.
pub record IsValid (a : Arguments) : Type 0 where
  pub has_role : given a.role ≡ true
  pub own_role : IsOwnRole a
  pub file : (a.has_file ≡ false) ⊎ (same_protocol a.protocol pudp ≡ false)
  pub block : IsBlock a.protocol (block_of a)
  pub one_end : IsOneEnd a.duration_flag a.bytes a.blocks

-- The settings that come of them.
pub record IsSettled (a b : Arguments) : Type 0 where
  pub role : b.role ≡ a.role
  pub protocol : b.protocol ≡ a.protocol
  pub blksize : b.blksize ≡ block_of a
  pub rate : b.rate ≡ (if a.rate_flag then a.rate else default_rate a.protocol)
  pub datagram :
      same_protocol a.protocol pudp ≡ true → a.gso ≢ pos 0 → ltb_ℤ (pos 0) b.gso_dg_size ≡ true
  pub endless : a.duration_flag ≡ false → ((b.bytes ≡ 0) × (b.blocks ≡ 0)) ⊎ (b.duration ≡ pos 0)

-- The end conditions before and after the size of the file is looked up.
prepare-IsOneEnd :
    (size : Option ℕ) (a : Arguments)
    → let b = prepare size a in
      IsOneEnd b.duration_flag b.bytes b.blocks → IsOneEnd a.duration_flag a.bytes a.blocks
unfolding prepare set_gso set_sizes set_bytes set_duration
prepare-IsOneEnd none a h = ground (arith, h)
prepare-IsOneEnd (some n) a h = ground (arith, h)

check_role_lem : (a b : Arguments) → check_role a ≡ accepted b → (b ≡ a) × (given a.role ≡ true)
unfolding check_role
check_role_lem a b h = ground (arith, h)

-- What the arguments have kept when the block size is settled.
record IsReady (a b : Arguments) : Type 0 where
  role : b.role ≡ a.role
  protocol : b.protocol ≡ a.protocol
  has_file : b.has_file ≡ a.has_file
  duration_flag : b.duration_flag ≡ a.duration_flag
  rate_flag : b.rate_flag ≡ a.rate_flag
  rate : b.rate ≡ a.rate
  gso : b.gso ≡ a.gso
  bytes : b.bytes ≡ a.bytes
  blocks : b.blocks ≡ a.blocks
  block : b.block ≡ block_of a

choose_block-IsReady : (a c : Arguments) → SameButAuth a c → IsReady a (choose_block c)
unfolding choose_block
choose_block-IsReady a c h = ground (arith, h)

-- The arguments between the steps.
settled :
    (env : Environment) (a c1 c2 c3 c4 c5 b : Arguments)
    → check_roles a ≡ accepted c1
    → check_auth env c1 ≡ accepted c2
    → check_file c2 ≡ accepted c3
    → test_block (choose_block c3) ≡ accepted c4
    → check_end (prepare env.stat_file c4) ≡ accepted c5
    → check_role c5 ≡ accepted b
    → IsValid a × IsSettled a b × ((env.has_ssl ≡ false) ⊎ IsAuthorized env a)
settled env a c1 c2 c3 c4 c5 b h1 h2 h3 h4 h5 h6 =
    let (same1, roles) = roles_lem a c1 h1 in
    let (same3, file) = file_lem c2 c3 h3 in
    let (same4, block) = test_block-IsBlock (choose_block c3) c4 h4 in
    let (same5, ends) = end_lem (prepare env.stat_file c4) c5 h5 in
    let (same6, role) = check_role_lem c5 b h6 in
    let auth : SameButAuth a c3 = rw (same3, sym same1) (check_auth_lem env c1 c2 h2) in
    let kept : IsReady a c4 = rw (same4) (choose_block-IsReady a c3 auth) in
    let authorized = check_auth-IsAuthorized env c1 c2 h2 in
    let done : b ≡ prepare env.stat_file c4 = same6 ∙ same5 in
    let set = prepare-IsPrepared env.stat_file c4 in
    (
      record {
        has_role = ground (arith, kept, set, same5, role);
        own_role = roles;
        file = ground (arith, file, auth, same3);
        block = ground (arith, block, same4, kept);
        one_end = ground (arith, prepare-IsOneEnd env.stat_file c4 ends, kept);
      },
      record {
        role = ap (λ x. x.role) done ∙ set.role ∙ kept.role;
        protocol = ap (λ x. x.protocol) done ∙ set.protocol ∙ kept.protocol;
        blksize = ap (λ x. x.blksize) done ∙ set.blksize ∙ kept.block;
        rate = ground (arith, done, set.rate, kept);
        datagram = λ udp gso. rw (done) (
            prepare_datagram env.stat_file c4 (ap (λ p. same_protocol p pudp) kept.protocol ∙ udp)
              (λ e. gso (sym kept.gso ∙ e)));
        endless = λ free. rw (done) (prepare_endless env.stat_file c4 (kept.duration_flag ∙ free));
      },
      rw (sym same1) authorized,
    )

-- Arguments that the checks accept go together: a role, none of the options that say they are for the
-- other role, no file over UDP, a block size that the protocol can use or a negative one of UDP, and one
-- condition at most that ends the test. The settings have the role, the protocol, the block size and
-- the rate that were asked for, or the default size and rate, a positive datagram size for segmentation
-- offload over UDP, and, if no duration is asked for, the duration 0 or neither a number of bytes nor of
-- blocks. With OpenSSL, a client has no private key, file of users or time skew, no receive timeout if
-- it only sends, and both a name and a public key or neither; a server has no name and no public key,
-- and both a private key and a file of users, which can be read, or neither.
pub check_arguments-IsValid :
    (env : Environment) (a b : Arguments)
    → check_arguments env a ≡ accepted b
    → IsValid a × IsSettled a b × ((env.has_ssl ≡ false) ⊎ IsAuthorized env a)
unfolding check_arguments
check_arguments-IsValid env a b h =
    let (c5, e5, k5) = >>=-accepted _ _ b h in
    let (c4, e4, k4) = >>=-accepted _ _ c5 e5 in
    let (c3, e3, k3) = >>=-accepted _ _ c4 e4 in
    let (c2, e2, k2) = >>=-accepted _ _ c3 e3 in
    let (c1, e1, k1) = >>=-accepted _ _ c2 e2 in settled env a c1 c2 c3 c4 c5 b e1 k1 k2 k3 k4 k5
