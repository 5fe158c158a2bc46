-- ===== src/Json/Local.antt =====
-- A connection to run the model on, of which each call moves all that there is.
use iperf3_windows_msvc.Prelude.{
  ◌≡◌, refl, sym, ap, ◌∙◌, none, [], ◌∷◌, ◌++◌, length, take, drop, arith, length-take,
  take-append-drop,
}
use iperf3_windows_msvc.Net.{Bytes, got, failed, eagain, ready, Sys}
use iperf3_windows_msvc.Net.Recv.{IsStream}
use iperf3_windows_msvc.Net.Whole.{IsLocal}
use iperf3_windows_msvc.Json.Trip.{Takes, Quiet}

-- What has yet to be read, and what has been written.
pub record Wire : Type 0 where
  pub incoming : Bytes
  pub sent : Bytes

abbrev pub wire : Sys Wire
wire = record {
  msg_trunc = 0x20;
  select = λ fd t w. (ready, w);
  read = λ fd n w. (
    got (length (take n w.incoming)) (take n w.incoming),
    record w { incoming = drop n w.incoming },
  );
  recv = λ fd n opt w. (got 0 [], w);
  write = λ fd xs w. (got (length xs) [], record w { sent = w.sent ++ xs });
  now = λ w. (record { secs = 5; usecs = 0 }, w);
  recvmsg = λ fd n w. ((failed eagain, none), w);
  sendmsg = λ fd xs gso w. (failed eagain, w);
}

take-front : (front rest : Bytes) → take (length front) (front ++ rest) ≡ front
take-front [] rest = refl
take-front (x ∷ front) rest = ap (λ xs. x ∷ xs) (take-front front rest)

drop-front : (front rest : Bytes) → drop (length front) (front ++ rest) ≡ rest
drop-front [] rest = refl
drop-front (x ∷ front) rest = drop-front front rest

pub wire-Takes : Takes wire 4 (λ w. w.sent)
wire-Takes xs w = (record w { sent = w.sent ++ xs }, [], refl, refl)

pub wire-Quiet : Quiet wire 4 (λ w. w.incoming)
wire-Quiet t w = refl

pub wire-IsLocal : IsLocal wire 4 (λ w. w.incoming)
wire-IsLocal = record {
  is_ready = λ t w. refl;
  reads = λ n w front rest len e.
      let all : take n w.incoming ≡ front =
        ap (take n) e ∙ ap (λ k. take k (front ++ rest)) (sym len) ∙ take-front front rest in
      (
        record w { incoming = drop n w.incoming },
        (λ i. (got ((ap length all ∙ len) i) (all i), record w { incoming = drop n w.incoming })),
        ap (drop n) e ∙ ap (λ k. drop k (front ++ rest)) (sym len) ∙ drop-front front rest,
      );
}

pub wire-IsStream : IsStream wire 4 (λ w. w.incoming)
wire-IsStream = record {
  read_law =
      λ n w. (refl, omega (arith, length-take n w.incoming), sym (take-append-drop n w.incoming));
  select_law = λ t w. refl;
  now_law = λ w. refl;
}
