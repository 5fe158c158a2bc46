-- ===== src/Arguments/Checked.antt =====
-- src/iperf_api.c: how the checks of iperf_parse_arguments end.
use iperf3_windows_msvc.Prelude.{ℕ, ◌≡◌, refl, Bool, true, false, Option, none, some}
use iperf3_windows_msvc.Params.{Role, client, server}
use iperf3_windows_msvc.Arguments.{Arguments}

-- `refused` is a return of -1 with this code in `i_errno`; the caller then exits.
pub data Checked : Type 0 where
  refused : ℕ → Checked
  accepted : Arguments → Checked

infixl 5 ◌>>=◌
abbrev pub ◌>>=◌ : Checked → (Arguments → Checked) → Checked
refused code >>= f = refused code
accepted a >>= f = f a

-- Both steps have accepted.
pub >>=-accepted :
    (c : Checked) (f : Arguments → Checked) (b : Arguments)
    → (c >>= f) ≡ accepted b
    → (a : Arguments) × (c ≡ accepted a) × (f a ≡ accepted b)
>>=-accepted (refused code) f b h = absurd (cc h)
>>=-accepted (accepted a) f b h = (a, refl, h)

abbrev pub given {ℓ} : {A : Type ℓ} → Option A → Bool
given none = false
given (some a) = true

abbrev pub is_client : Option Role → Bool
is_client (some client) = true
is_client r = false

abbrev pub is_server : Option Role → Bool
is_server (some server) = true
is_server r = false
