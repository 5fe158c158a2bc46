-- ===== src/Arguments/Auth.antt =====
-- src/iperf_api.c: the checks on roles and on the options for authentication.
use iperf3_windows_msvc.Prelude.{
  ℕ, Bool, true, false, Option, none, some, not, ◌&&◌, ◌||◌, if◌then◌else◌,
}
use iperf3_windows_msvc.Prelude.Int.{pos, ◌==ℤ◌}
use iperf3_windows_msvc.Json.{Bytes}
use iperf3_windows_msvc.Control.{Mode, sender}
use iperf3_windows_msvc.Arguments.Checked.{
  Checked, refused, accepted, ◌>>=◌, given, is_client, is_server,
}
use iperf3_windows_msvc.Arguments.{Arguments, Environment}

-- The error codes of these checks.
abbrev pub ieserveronly : ℕ
ieserveronly = 3

abbrev pub ieclientonly : ℕ
ieclientonly = 4

abbrev pub iesetclientauth : ℕ
iesetclientauth = 22

abbrev pub iesetserverauth : ℕ
iesetserverauth = 23

abbrev pub iervrsonlyrcvtimeout : ℕ
iervrsonlyrcvtimeout = 32

abbrev pub ieserverauthusers : ℕ
ieserverauthusers = 35

-- The options of the other role.
unfoldable pub check_roles : Arguments → Checked
check_roles a =
    if is_client a.role && a.server_flag
    then refused ieserveronly
    else if is_server a.role && a.client_flag
    then refused ieclientonly
    else if is_server a.role && a.gsro_flag
    then refused ieclientonly
    else accepted a

abbrev pub only_sends : Mode → Bool
only_sends sender = true
only_sends m = false

-- The options for authentication of the other role.
unfoldable pub auth_roles : Arguments → Checked
auth_roles a =
    let key = given a.private_key_option in
    let users = given a.server_authorized_users in
    if is_client a.role && (key || users)
    then refused ieserveronly
    else if is_client a.role && not (a.server_skew_threshold ==ℤ pos 0)
    then refused ieserveronly
    else if is_client a.role && (a.rcv_timeout_flag && only_sends a.mode)
    then refused iervrsonlyrcvtimeout
    else if is_server a.role && ((key || users) && not (key && users))
    then refused iesetserverauth
    else accepted a

module _ (env : Environment) where
  -- The password of the environment, else the one that is typed.
  unfoldable pub ask_password : Option Bytes
  ask_password = elim env.getenv_password [ some p ↦ some p | none ↦ env.getpass ]

  -- A client with a name and a key.
  unfoldable pub load_client : Bytes → Bytes → Arguments → Checked
  unfolding ask_password
  load_client user key a =
      if env.test_load_pubkey key
      then elim ask_password [
        | none ↦ refused iesetclientauth
        | some password ↦ accepted (record a {
          client_username = some user;
          client_password = some password;
          client_rsa_pubkey = env.load_pubkey key;
          public_key_option = none;
        })
      ]
      else refused iesetclientauth

  unfoldable pub client_auth : Option Bytes → Option Bytes → Arguments → Checked
  unfolding load_client
  client_auth none none a = accepted a
  client_auth (some user) (some key) a =
      if is_server a.role
      then refused ieclientonly
      else if is_client a.role
      then load_client user key a
      else accepted a
  client_auth user key a =
      if is_server a.role
      then refused ieclientonly
      else if is_client a.role
      then refused iesetclientauth
      else accepted a

  unfoldable pub read_users : Option Bytes → Arguments → Checked
  read_users none a = accepted a
  read_users (some users) a =
      if is_server a.role && not (env.can_read users) then refused ieserverauthusers else accepted a

  -- The threshold is 10 seconds if none is set.
  unfoldable pub load_server_key : Bytes → Arguments → Checked
  load_server_key file a = elim (env.load_privkey file) [
    | none ↦ refused iesetserverauth
    | some key ↦ accepted (record a {
      server_rsa_private_key = some key;
      private_key_option = none;
      server_skew_threshold =
          if a.server_skew_threshold ==ℤ pos 0 then pos 10 else a.server_skew_threshold;
    })
  ]

  unfoldable pub server_key : Option Bytes → Arguments → Checked
  unfolding load_server_key
  server_key none a = accepted a
  server_key (some file) a = if is_server a.role then load_server_key file a else accepted a

  unfoldable pub check_auth : Arguments → Checked
  unfolding client_auth auth_roles read_users server_key
  check_auth a =
      if env.has_ssl
      then client_auth a.user_option a.public_key_option a
        >>= auth_roles
        >>= (λ b. read_users b.server_authorized_users b)
        >>= (λ b. server_key b.private_key_option b)
      else accepted a
