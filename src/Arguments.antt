-- ===== src/Arguments.antt =====
-- src/iperf_api.c: the checks at the end of iperf_parse_arguments, after the loop over the options.
pub mod Checked
pub mod Auth
pub mod Check
pub mod Steps
pub mod Authorized
pub mod Accepted
pub mod Complete
mod Examples
use iperf3_windows_msvc.Prelude.{ℕ, Bool, Option}
use iperf3_windows_msvc.Prelude.Int.{ℤ}
use iperf3_windows_msvc.Json.{Bytes}
use iperf3_windows_msvc.Control.{Mode}
use iperf3_windows_msvc.Params.{Protocol, Role}

-- What the loop over the options has set: its local variables, and the fields of `struct iperf_test`
-- and `struct iperf_settings` that the checks read or set. An int is an integer, an int that is only a
-- flag a Boolean, a string or a key that may be NULL an option; `role` is `none` if it is neither 'c'
-- nor 's'. `block` is the local variable `blksize`, `has_file` says whether `diskfile_name` is set.
pub record Arguments : Type 0 where
  pub role : Option Role
  pub mode : Mode
  pub protocol : Protocol
  pub has_file : Bool
  pub server_flag : Bool
  pub client_flag : Bool
  pub gsro_flag : Bool
  pub rate_flag : Bool
  pub duration_flag : Bool
  pub rcv_timeout_flag : Bool
  pub block : ℤ
  pub blksize : ℤ
  pub gso : ℤ
  pub gso_dg_size : ℤ
  pub gso_bf_size : ℤ
  pub rate : ℕ
  pub bytes : ℕ
  pub blocks : ℕ
  pub duration : ℤ
  pub user_option : Option Bytes
  pub public_key_option : Option Bytes
  pub private_key_option : Option Bytes
  pub client_username : Option Bytes
  pub client_password : Option Bytes
  pub client_rsa_pubkey : Option Bytes
  pub server_authorized_users : Option Bytes
  pub server_rsa_private_key : Option Bytes
  pub server_skew_threshold : ℤ

-- What the checks ask of OpenSSL, the terminal and the file system. `has_ssl` is HAVE_SSL; `stat_file`
-- is the size of the file of `diskfile_name`, if stat(2) succeeds.
pub record Environment : Type 0 where
  pub has_ssl : Bool
  pub test_load_pubkey : Bytes → Bool
  pub load_pubkey : Bytes → Option Bytes
  pub load_privkey : Bytes → Option Bytes
  pub getenv_password : Option Bytes
  pub getpass : Option Bytes
  pub can_read : Bytes → Bool
  pub stat_file : Option ℕ
