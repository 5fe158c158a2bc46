-- ===== src/Arguments/Examples.antt =====
-- src/iperf_api.c: a UDP client with segmentation, and one that sends a file over TCP.
use iperf3_windows_msvc.Prelude.{◌⊎◌, ◌≡◌, refl, true, false, some, none, arith, inl, inr, [], ◌∷◌}
use iperf3_windows_msvc.Prelude.Int.{◌*ℤ◌, pos, negsuc}
use iperf3_windows_msvc.Control.{sender}
use iperf3_windows_msvc.Params.{client, ptcp, pudp}
use iperf3_windows_msvc.Arguments.Checked.{refused, accepted}
use iperf3_windows_msvc.Arguments.Auth.{iervrsonlyrcvtimeout}
use iperf3_windows_msvc.Arguments.Check.{default_block, choose_block, prepare, check_arguments}
use iperf3_windows_msvc.Arguments.Authorized.{IsAuthorized}
use iperf3_windows_msvc.Arguments.Accepted.{IsValid, IsSettled, check_arguments-IsValid}
use iperf3_windows_msvc.Arguments.Complete.{check_arguments_accepts}
use iperf3_windows_msvc.Arguments.{Arguments, Environment}

abbrev file_sender : Arguments
file_sender = record {
  role = some client;
  mode = sender;
  protocol = ptcp;
  has_file = true;
  server_flag = false;
  client_flag = true;
  gsro_flag = false;
  rate_flag = false;
  duration_flag = false;
  rcv_timeout_flag = false;
  block = pos 0;
  blksize = pos 0;
  gso = pos 0;
  gso_dg_size = pos 0;
  gso_bf_size = pos 65507;
  rate = 0;
  bytes = 0;
  blocks = 0;
  duration = pos 10;
  user_option = none;
  public_key_option = none;
  private_key_option = none;
  client_username = none;
  client_password = none;
  client_rsa_pubkey = none;
  server_authorized_users = none;
  server_rsa_private_key = none;
  server_skew_threshold = pos 0;
}

abbrev segmented : Arguments
segmented = record file_sender {
  protocol = pudp;
  has_file = false;
  gsro_flag = true;
  duration_flag = true;
  block = pos 1000;
  gso = pos 1;
}

-- With OpenSSL, and without.
abbrev with_ssl : Environment
with_ssl = record {
  has_ssl = true;
  test_load_pubkey = λ key. true;
  load_pubkey = λ key. some key;
  load_privkey = λ key. some key;
  getenv_password = none;
  getpass = some (1 ∷ []);
  can_read = λ file. true;
  stat_file = some 5000;
}

abbrev without_ssl : Environment
without_ssl = record with_ssl { has_ssl = false }

abbrev segmented_set : Arguments
segmented_set = record segmented {
  blksize = pos 1000;
  gso_dg_size = pos 1000;
  gso_bf_size = pos 65000;
  rate = 1048576;
}

segmented_passes : check_arguments with_ssl segmented ≡ accepted segmented_set
unfolding check_arguments ◌*ℤ◌ default_block
segmented_passes = refl

check_arguments-IsValid_example :
    IsValid segmented
    × IsSettled segmented segmented_set
    × ((with_ssl.has_ssl ≡ false) ⊎ IsAuthorized with_ssl segmented)
check_arguments-IsValid_example =
    check_arguments-IsValid with_ssl segmented segmented_set segmented_passes

file_sender-IsValid : IsValid file_sender
unfolding default_block
file_sender-IsValid = record {
  has_role = refl;
  own_role = record { server_flag = inl refl; client_flag = inr refl; gsro_flag = inl refl };
  file = inr refl;
  block = (omega arith, omega arith);
  one_end = (inl refl, inl refl);
}

check_arguments_accepts_example :
    check_arguments without_ssl file_sender
    ≡ accepted (prepare (some 5000) (choose_block file_sender))
check_arguments_accepts_example =
    check_arguments_accepts without_ssl file_sender refl file_sender-IsValid

file_settings : prepare (some 5000) (choose_block file_sender) ≡ record file_sender {
  block = pos 131072;
  blksize = pos 131072;
  bytes = 5000;
  duration = pos 0;
}
unfolding prepare choose_block default_block
file_settings = refl

-- A negative block size of a UDP test is not refused.
negative_block :
    check_arguments without_ssl (record segmented { block = negsuc 4 })
    ≡ accepted (record segmented_set {
      block = negsuc 4;
      blksize = negsuc 4;
      gso_dg_size = pos 1460;
      gso_bf_size = pos 65507;
    })
unfolding check_arguments ◌*ℤ◌ default_block
negative_block = refl

-- The receive timeout of a sender is refused only with OpenSSL.
timeout_refused :
    check_arguments with_ssl (record file_sender { rcv_timeout_flag = true })
    ≡ refused iervrsonlyrcvtimeout
unfolding check_arguments ◌*ℤ◌ default_block
timeout_refused = refl

timeout_accepted :
    check_arguments without_ssl (record file_sender { rcv_timeout_flag = true })
    ≡ accepted (record file_sender {
      rcv_timeout_flag = true;
      block = pos 131072;
      blksize = pos 131072;
      bytes = 5000;
      duration = pos 0;
    })
unfolding check_arguments ◌*ℤ◌ default_block
timeout_accepted = refl
