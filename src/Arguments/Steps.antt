-- ===== src/Arguments/Steps.antt =====
-- src/iperf_api.c: what each check of iperf_parse_arguments that passes says and leaves.
use iperf3_windows_msvc.Prelude.{ℕ, ◌≤◌, ◌<◌, ◌≡◌, ◌⊎◌, ◌∙◌, Bool, false, none, some, arith}
use iperf3_windows_msvc.Prelude.Int.{ℤ, pos, negsuc}
use iperf3_windows_msvc.Params.{Protocol, ptcp, pudp, psctp, same_protocol}
use iperf3_windows_msvc.Arguments.Checked.{accepted, ◌>>=◌, is_client, is_server, >>=-accepted}
use iperf3_windows_msvc.Arguments.Auth.{
  check_roles, check_auth, client_auth, load_client, auth_roles, read_users, server_key,
  load_server_key,
}
use iperf3_windows_msvc.Arguments.Check.{
  check_file, bad_block, bad_udp_block, test_block, check_end,
}
use iperf3_windows_msvc.Arguments.{Arguments, Environment}

-- A block size that the protocol can use; 0 is the one of UDP that is found out later, and a negative
-- size of UDP is not refused.
abbrev pub IsBlock : Protocol → ℤ → Type 0
IsBlock pudp (pos n) = (n ≡ 0) ⊎ ((16 ≤ n) × (n ≤ 65507))
IsBlock pudp (negsuc n) = Unit {0}
IsBlock p (pos n) = (0 < n) × (n ≤ 1048576)
IsBlock p (negsuc n) = ⊥

not_bad-IsBlock :
    (p : Protocol) (n : ℤ) → bad_block p n ≡ false → bad_udp_block p n ≡ false → IsBlock p n
unfolding bad_block bad_udp_block
not_bad-IsBlock ptcp (pos n) h g = ground arith
not_bad-IsBlock ptcp (negsuc n) h g = ground arith
not_bad-IsBlock psctp (pos n) h g = ground arith
not_bad-IsBlock psctp (negsuc n) h g = ground arith
not_bad-IsBlock pudp (pos n) h g = ground arith
not_bad-IsBlock pudp (negsuc n) h g = tt

pub test_block-IsBlock :
    (a b : Arguments) → test_block a ≡ accepted b → (b ≡ a) × IsBlock a.protocol a.block
unfolding test_block
test_block-IsBlock a b h =
    (ground (arith, h), not_bad-IsBlock a.protocol a.block (ground (arith, h)) (ground (arith, h)))

-- One condition at most ends a test: the bytes, the blocks, or the time that was asked for.
abbrev pub IsOneEnd : Bool → ℕ → ℕ → Type 0
IsOneEnd timed bytes blocks =
    ((bytes ≡ 0) ⊎ (blocks ≡ 0)) × ((timed ≡ false) ⊎ ((bytes ≡ 0) × (blocks ≡ 0)))

pub end_lem :
    (a b : Arguments)
    → check_end a ≡ accepted b
    → (b ≡ a) × IsOneEnd a.duration_flag a.bytes a.blocks
unfolding check_end
end_lem a b h = ground (arith, h)

pub file_lem :
    (a b : Arguments)
    → check_file a ≡ accepted b
    → (b ≡ a) × ((a.has_file ≡ false) ⊎ (same_protocol a.protocol pudp ≡ false))
unfolding check_file
file_lem a b h = ground (arith, h)

-- No option of the other role is given.
pub record IsOwnRole (a : Arguments) : Type 0 where
  pub server_flag : (a.server_flag ≡ false) ⊎ (is_client a.role ≡ false)
  pub client_flag : (a.client_flag ≡ false) ⊎ (is_server a.role ≡ false)
  pub gsro_flag : (a.gsro_flag ≡ false) ⊎ (is_server a.role ≡ false)

pub roles_lem : (a b : Arguments) → check_roles a ≡ accepted b → (b ≡ a) × IsOwnRole a
unfolding check_roles
roles_lem a b h = ground (arith, h)

-- What the checks for authentication may change.
abbrev pub SameButAuth : Arguments → Arguments → Type 0
SameButAuth a b = b ≡ record a {
  public_key_option = b.public_key_option;
  private_key_option = b.private_key_option;
  client_username = b.client_username;
  client_password = b.client_password;
  client_rsa_pubkey = b.client_rsa_pubkey;
  server_rsa_private_key = b.server_rsa_private_key;
  server_skew_threshold = b.server_skew_threshold;
}

pub auth_roles_lem : (a b : Arguments) → auth_roles a ≡ accepted b → b ≡ a
unfolding auth_roles
auth_roles_lem a b h = ground (arith, h)

module _ (env : Environment) where
  load_client_lem :
      (u k : _) (a b : Arguments) → load_client env u k a ≡ accepted b → SameButAuth a b
  unfolding load_client
  load_client_lem u k a b h = ground (arith, h)

  load_server_key_lem :
      (k : _) (a b : Arguments) → load_server_key env k a ≡ accepted b → SameButAuth a b
  unfolding load_server_key
  load_server_key_lem k a b h = ground (arith, h)

  pub client_auth_lem :
      (u k : _) (a b : Arguments) → client_auth env u k a ≡ accepted b → SameButAuth a b
  unfolding client_auth
  client_auth_lem none none a b h = ground (arith, h)
  client_auth_lem (some u) (some k) a b h = ground (arith, h, load_client_lem u k a b)
  client_auth_lem (some u) none a b h = ground (arith, h)
  client_auth_lem none (some k) a b h = ground (arith, h)

  pub read_users_lem : (u : _) (a b : Arguments) → read_users env u a ≡ accepted b → b ≡ a
  unfolding read_users
  read_users_lem none a b h = ground (arith, h)
  read_users_lem (some u) a b h = ground (arith, h)

  pub server_key_lem : (u : _) (a b : Arguments) → server_key env u a ≡ accepted b → SameButAuth a b
  unfolding server_key
  server_key_lem none a b h = ground (arith, h)
  server_key_lem (some u) a b h = ground (arith, h, load_server_key_lem u a b)

  pub auth_with_ssl :
      (a b : Arguments)
      → (client_auth env a.user_option a.public_key_option a
          >>= auth_roles
          >>= (λ b. read_users env b.server_authorized_users b)
          >>= (λ b. server_key env b.private_key_option b))
        ≡ accepted b
      → SameButAuth a b
  auth_with_ssl a b h =
      let (c3, e3, k3) = >>=-accepted _ _ b h in
      let (c2, e2, k2) = >>=-accepted _ _ c3 e3 in
      let (c1, e1, k1) = >>=-accepted _ _ c2 e2 in
      let first : SameButAuth a c1 = client_auth_lem _ _ a c1 e1 in
      let same : c3 ≡ c1 = read_users_lem _ c2 c3 k2 ∙ auth_roles_lem c1 c2 k1 in
      let last : SameButAuth c3 b = server_key_lem _ c3 b k3 in ground (arith, first, same, last)

  pub check_auth_lem : (a b : Arguments) → check_auth env a ≡ accepted b → SameButAuth a b
  unfolding check_auth
  check_auth_lem a b h = ground (arith, h, auth_with_ssl a b)
