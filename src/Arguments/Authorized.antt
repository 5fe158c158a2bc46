-- ===== src/Arguments/Authorized.antt =====
-- src/iperf_api.c: what the checks for authentication say of the options, in a build with OpenSSL.
use iperf3_windows_msvc.Prelude.{
  ◌≡◌, ◌⊎◌, refl, inl, inr, Bool-cases, Bool, true, false, Option, none, some, arith,
}
use iperf3_windows_msvc.Prelude.Int.{pos, ◌==ℤ◌}
use iperf3_windows_msvc.Json.{Bytes}
use iperf3_windows_msvc.Arguments.Checked.{
  accepted, given, ◌>>=◌, is_client, is_server, >>=-accepted,
}
use iperf3_windows_msvc.Arguments.Auth.{
  check_auth, client_auth, load_client, auth_roles, only_sends, read_users, server_key,
}
use iperf3_windows_msvc.Arguments.Steps.{auth_roles_lem}
use iperf3_windows_msvc.Arguments.{Arguments, Environment}

abbrev pub can_read_users : Environment → Option Bytes → Bool
can_read_users env none = true
can_read_users env (some file) = env.can_read file

-- With OpenSSL: a client has no option of the server, no receive timeout unless it receives, and both
-- a name and a key or neither; a server has no option of the client, and both a key and a file of users
-- that can be read, or neither.
pub record IsAuthorized (env : Environment) (a : Arguments) : Type 0 where
  pub no_key : (is_client a.role ≡ false) ⊎ (given a.private_key_option ≡ false)
  pub no_users : (is_client a.role ≡ false) ⊎ (given a.server_authorized_users ≡ false)
  pub no_skew : (is_client a.role ≡ false) ⊎ ((a.server_skew_threshold ==ℤ pos 0) ≡ true)
  pub receives :
      (is_client a.role ≡ false) ⊎ ((a.rcv_timeout_flag ≡ false) ⊎ (only_sends a.mode ≡ false))
  pub paired :
      (is_server a.role ≡ false) ⊎ (given a.private_key_option ≡ given a.server_authorized_users)
  pub named : (is_client a.role ≡ false) ⊎ (given a.user_option ≡ given a.public_key_option)
  pub no_name : (is_server a.role ≡ false) ⊎ (given a.user_option ≡ false)
  pub no_public_key : (is_server a.role ≡ false) ⊎ (given a.public_key_option ≡ false)
  pub readable : (is_server a.role ≡ false) ⊎ (can_read_users env a.server_authorized_users ≡ true)

-- What the checks of a client's options may change.
abbrev SameButKeys : Arguments → Arguments → Type 0
SameButKeys a b = b ≡ record a {
  public_key_option = b.public_key_option;
  client_username = b.client_username;
  client_password = b.client_password;
  client_rsa_pubkey = b.client_rsa_pubkey;
}

auth_roles_said :
    (a b : Arguments)
    → auth_roles a ≡ accepted b
    → let key = given a.private_key_option in
      let users = given a.server_authorized_users in
      ((is_client a.role ≡ false)
        ⊎ ((key ≡ false)
            × (users ≡ false)
            × ((a.server_skew_threshold ==ℤ pos 0) ≡ true)
            × ((a.rcv_timeout_flag ≡ false) ⊎ (only_sends a.mode ≡ false))))
      × ((is_server a.role ≡ false) ⊎ (key ≡ users))
unfolding auth_roles
auth_roles_said a b h = ground (arith, h)

module _ (env : Environment) where
  client_auth_said :
      (u k : Option Bytes) (a b : Arguments)
      → client_auth env u k a ≡ accepted b
      → ((is_client a.role ≡ false) ⊎ (given u ≡ given k))
        × ((is_server a.role ≡ false) ⊎ ((given u ≡ false) × (given k ≡ false)))
  unfolding client_auth
  client_auth_said none none a b h = (inr refl, inr (refl, refl))
  client_auth_said (some u) (some k) a b h = (inr refl, ground (arith, h))
  client_auth_said (some u) none a b h = ground (arith, h)
  client_auth_said none (some k) a b h = ground (arith, h)

  read_users_said :
      (u : Option Bytes) (a b : Arguments)
      → read_users env u a ≡ accepted b
      → (is_server a.role ≡ false) ⊎ (can_read_users env u ≡ true)
  unfolding read_users
  read_users_said none a b h = inr refl
  read_users_said (some u) a b h = ground (arith, h)

  load_client_keys :
      (u k : Bytes) (a b : Arguments) → load_client env u k a ≡ accepted b → SameButKeys a b
  unfolding load_client
  load_client_keys u k a b h = ground (arith, h)

  client_auth_keys :
      (u k : Option Bytes) (a b : Arguments) → client_auth env u k a ≡ accepted b → SameButKeys a b
  unfolding client_auth
  client_auth_keys none none a b h = ground (arith, h)
  client_auth_keys (some u) (some k) a b h = ground (arith, h, load_client_keys u k a b)
  client_auth_keys (some u) none a b h = ground (arith, h)
  client_auth_keys none (some k) a b h = ground (arith, h)

  authorized :
      (a c d e : Arguments)
      → client_auth env a.user_option a.public_key_option a ≡ accepted c
      → auth_roles c ≡ accepted d
      → read_users env d.server_authorized_users d ≡ accepted e
      → IsAuthorized env a
  authorized a c d e h1 h2 h3 =
      let keys : SameButKeys a c = client_auth_keys _ _ a c h1 in
      let (named, unnamed) = client_auth_said _ _ a c h1 in
      let (client, paired) = auth_roles_said c d h2 in
      let same : d ≡ c = auth_roles_lem c d h2 in
      let users = read_users_said _ d e h3 in
      record {
        no_key = ground (arith, client, keys);
        no_users = ground (arith, client, keys);
        no_skew = ground (arith, client, keys);
        receives = ground (arith, client, keys);
        paired = ground (arith, paired, keys);
        named = named;
        no_name = ground (arith, unnamed);
        no_public_key = ground (arith, unnamed);
        readable = ground (arith, users, same, keys);
      }

  all-IsAuthorized :
      (a b : Arguments)
      → (client_auth env a.user_option a.public_key_option a
          >>= auth_roles
          >>= (λ b. read_users env b.server_authorized_users b)
          >>= (λ b. server_key env b.private_key_option b))
        ≡ accepted b
      → IsAuthorized env a
  all-IsAuthorized a b h =
      let (e, e3, k3) = >>=-accepted _ _ b h in
      let (d, e2, k2) = >>=-accepted _ _ e e3 in
      let (c, e1, k1) = >>=-accepted _ _ d e2 in authorized a c d e e1 k1 k2

  pub check_auth-IsAuthorized :
      (a b : Arguments) → check_auth env a ≡ accepted b → (env.has_ssl ≡ false) ⊎ IsAuthorized env a
  unfolding check_auth
  check_auth-IsAuthorized a b h = elim (Bool-cases env.has_ssl) [
    | inl e ↦ inr (all-IsAuthorized a b (rw e at h))
    | inr e ↦ inl e
  ]
