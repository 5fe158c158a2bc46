-- ===== src/Control/Sockets.antt =====
-- src/iperf_api.c: what closing the sockets of the streams leaves of a test.
use iperf3_windows_msvc.Prelude.{refl, ◌≡◌, false, List, [], ◌∷◌, All, Bool-cases, inl, inr}
use iperf3_windows_msvc.Prelude.Int.{ℤ, ◌==ℤ◌}
use iperf3_windows_msvc.Control.{Calls, close_streams, Test, fd_clr}

-- The descriptor is not in the set.
abbrev pub Absent : ℤ → List ℤ → Type 0
Absent fd = All (λ s. (s ==ℤ fd) ≡ false)

fd_clr-Absent : (fd : ℤ) (set : List ℤ) → Absent fd (fd_clr fd set)
fd_clr-Absent fd [] = tt
fd_clr-Absent fd (s ∷ set) = elim (Bool-cases (s ==ℤ fd)) [
  | inl same ↦ rw same (fd_clr-Absent fd set)
  | inr other ↦ rw other (other, fd_clr-Absent fd set)
]

fd_clr_keeps : (fd other : ℤ) (set : List ℤ) → Absent fd set → Absent fd (fd_clr other set)
fd_clr_keeps fd other [] a = tt
fd_clr_keeps fd other (s ∷ set) (h, a) = elim (Bool-cases (s ==ℤ other)) [
  | inl same ↦ rw same (fd_clr_keeps fd other set a)
  | inr differs ↦ rw differs (h, fd_clr_keeps fd other set a)
]

-- Where a descriptor is in neither set that the main loop waits on.
abbrev pub Unwatched : {W : Type 0} → Test W → ℤ → Type 0
Unwatched test fd = Absent fd test.read_set × Absent fd test.write_set

abbrev pub IsCleared : {W : Type 0} → Test W → List ℤ → Type 0
IsCleared test sockets = All (Unwatched test) sockets

module _ {W : Type 0} (calls : Calls W) where
  -- What closing the sockets does not change.
  pub close_streams_keeps :
      (sockets : List ℤ) (test : Test W)
      → let t = close_streams calls sockets test in
        (t.state ≡ test.state)
        × (t.done ≡ test.done)
        × (t.i_errno ≡ test.i_errno)
        × (t.ctrl_sck ≡ test.ctrl_sck)
        × (t.streams ≡ test.streams)
  unfolding close_streams
  close_streams_keeps [] test = (refl, refl, refl, refl, refl)
  close_streams_keeps (socket ∷ rest) test = close_streams_keeps rest _

  close_streams-Unwatched :
      (sockets : List ℤ) (test : Test W) (fd : ℤ)
      → Unwatched test fd
      → Unwatched (close_streams calls sockets test) fd
  unfolding close_streams
  close_streams-Unwatched [] test fd h = h
  close_streams-Unwatched (socket ∷ rest) test fd (r, w) =
      close_streams-Unwatched rest _ fd
        (fd_clr_keeps fd socket test.read_set r, fd_clr_keeps fd socket test.write_set w)

  pub close_streams-IsCleared :
      (sockets : List ℤ) (test : Test W) → IsCleared (close_streams calls sockets test) sockets
  unfolding close_streams
  close_streams-IsCleared [] test = tt
  close_streams-IsCleared (socket ∷ rest) test = (
    close_streams-Unwatched rest _ socket
        (fd_clr-Absent socket test.read_set, fd_clr-Absent socket test.write_set),
    close_streams-IsCleared rest _,
  )
