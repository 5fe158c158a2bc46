-- ===== src/Arguments/Complete.antt =====
-- src/iperf_api.c: arguments that iperf_parse_arguments does not refuse.
use iperf3_windows_msvc.Prelude.{ℕ, ◌≡◌, ◌⊎◌, refl, ap, ◌∙◌, true, false, Option, none, some, arith}
use iperf3_windows_msvc.Prelude.Int.{ℤ, pos, negsuc}
use iperf3_windows_msvc.Params.{Protocol, ptcp, pudp, psctp, same_protocol}
use iperf3_windows_msvc.Arguments.Checked.{accepted, given}
use iperf3_windows_msvc.Arguments.Auth.{check_roles, check_auth}
use iperf3_windows_msvc.Arguments.Check.{
  check_file, choose_block, bad_block, bad_udp_block, test_block, set_gso, set_sizes, set_bytes,
  set_duration, prepare, check_end, check_role, check_arguments,
}
use iperf3_windows_msvc.Arguments.Steps.{IsBlock, IsOneEnd, IsOwnRole}
use iperf3_windows_msvc.Arguments.Accepted.{IsValid}
use iperf3_windows_msvc.Arguments.{Arguments, Environment}

roles_pass : (a : Arguments) → IsOwnRole a → check_roles a ≡ accepted a
unfolding check_roles
roles_pass a h = ground (arith, h)

auth_passes :
    (env : Environment) (a : Arguments) → env.has_ssl ≡ false → check_auth env a ≡ accepted a
unfolding check_auth
auth_passes env a h = rw h refl

file_passes :
    (a : Arguments)
    → (a.has_file ≡ false) ⊎ (same_protocol a.protocol pudp ≡ false)
    → check_file a ≡ accepted a
unfolding check_file
file_passes a h = ground arith

block-good :
    (p : Protocol) (n : ℤ) → IsBlock p n → (bad_block p n ≡ false) × (bad_udp_block p n ≡ false)
unfolding bad_block bad_udp_block
block-good ptcp (pos n) h = ground arith
block-good ptcp (negsuc n) h = absurd h
block-good psctp (negsuc n) h = absurd h
block-good psctp (pos n) h = ground arith
block-good pudp (pos n) h = ground arith
block-good pudp (negsuc n) h = ground arith

block_passes : (a : Arguments) → IsBlock a.protocol a.block → test_block a ≡ accepted a
unfolding test_block
block_passes a h = let (small, udp) = block-good a.protocol a.block h in ground (arith, small, udp)

end_passes : (a : Arguments) → IsOneEnd a.duration_flag a.bytes a.blocks → check_end a ≡ accepted a
unfolding check_end
end_passes a h = ground arith

prepare-IsOneEnd :
    (size : Option ℕ) (a : Arguments)
    → IsOneEnd a.duration_flag a.bytes a.blocks
    → let b = prepare size a in IsOneEnd b.duration_flag b.bytes b.blocks
unfolding prepare set_gso set_sizes set_bytes set_duration
prepare-IsOneEnd none a h = ground arith
prepare-IsOneEnd (some n) a h = ground arith

role_passes : (a : Arguments) → given a.role ≡ true → check_role a ≡ accepted a
unfolding check_role
role_passes a h = rw h refl

prepare_role : (size : Option ℕ) (a : Arguments) → (prepare size a).role ≡ a.role
unfolding prepare set_gso set_sizes set_bytes set_duration
prepare_role none a = ground arith
prepare_role (some n) a = ground arith

-- In a build without OpenSSL, arguments that go together are accepted, with the settings that `prepare`
-- makes of them once the block size is chosen.
pub check_arguments_accepts :
    (env : Environment) (a : Arguments)
    → env.has_ssl ≡ false
    → IsValid a
    → check_arguments env a ≡ accepted (prepare env.stat_file (choose_block a))
unfolding check_arguments choose_block
check_arguments_accepts env a no_ssl h =
    let c = choose_block a in
    let b = prepare env.stat_file c in
    rw
      (
        roles_pass a h.own_role,
        auth_passes env a no_ssl,
        file_passes a h.file,
        block_passes c h.block,
        end_passes b (prepare-IsOneEnd env.stat_file c h.one_end),
      )
      (role_passes b (ap given (prepare_role env.stat_file c) ∙ h.has_role))
