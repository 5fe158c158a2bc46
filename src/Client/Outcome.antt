-- ===== src/Client/Outcome.antt =====
-- src/iperf_client_api.c: in which states a message of the server may leave the client.
use iperf3_windows_msvc.Prelude.{
  ℕ, ap, ◌≡◌, ◌≢◌, refl, arith, ◌⊎◌, inl, inr, true, false, List, [], ◌∷◌, ◌==◌, ==_iff, Bool-cases,
  branches, if◌then◌else◌,
}
use iperf3_windows_msvc.Prelude.Int.{ℤ, pos, ltb_ℤ, ◌==ℤ◌}
use iperf3_windows_msvc.Control.{
  Test, Status, ok, failed, checked, set_test_state, set_send_state, param_exchange,
  create_streams_state, test_start, test_running, exchange_results_state, display_results,
  iperf_done, server_terminate, access_denied, server_error, iectrlclose, ierecvmessage, iemessage,
  ieserverterm, ieaccessdenied,
}
use iperf3_windows_msvc.Control.Steps.{other_state, Holds}
use iperf3_windows_msvc.Client.Message.{
  ClientCalls, new_state, report_end, close_control, is_positive_char, client_end, state_of,
  on_server_terminate, on_server_error, closing_switch, client_switch, client_answer,
  handle_message_client,
}
use iperf3_windows_msvc.Client.States.{
  InState, checked-InState, chain-InState, exchange_results-InState, on_create_streams-InState,
  on_test_start-InState,
}

-- The messages on which the client makes calls that may fail.
abbrev pub Calling : ℕ → Type 0
Calling message =
    (message ≡ param_exchange)
    ⊎ ((message ≡ create_streams_state)
        ⊎ ((message ≡ test_start) ⊎ (message ≡ exchange_results_state)))

-- How a message may leave the client when the handler succeeds.
pub data Continues {W : Type 0} (message : ℕ) (t : Test W) : Type 0 where
  called : Calling message → t.state ≡ message → Continues message t
  running : message ≡ test_running → t.state ≡ message → Continues message t
  displayed : message ≡ display_results → t.state ≡ iperf_done → Continues message t
  over : message ≡ iperf_done → t.state ≡ iperf_done → Continues message t

-- Why the handler may fail.
pub data Stops {W : Type 0} (message : ℕ) (t : Test W) : Type 0 where
  call_failed : Calling message → t.state ≡ message → Stops message t
  terminated :
      message ≡ server_terminate → t.i_errno ≡ ieserverterm → t.state ≡ message → Stops message t
  denied : message ≡ access_denied → t.i_errno ≡ ieaccessdenied → Stops message t
  server_failed : message ≡ server_error → Stops message t
  unknown :
      (Calling message → ⊥)
      → (message ≢ test_running)
        × (message ≢ display_results)
        × (message ≢ iperf_done)
        × (message ≢ server_terminate)
        × (message ≢ access_denied)
        × (message ≢ server_error)
      → t.i_errno ≡ iemessage
      → Stops message t

-- What the answer of the handler may be, on a message that came.
abbrev Answers : {W : Type 0} → ℕ → Status W → Type 0
Answers message = Holds (Continues message) (Stops message)

-- What the answer of the handler may be, by what read(2) answered.
pub data Answered {W : Type 0} (rval : ℤ) (message : ℕ) (s : Status W) : Type 0 where
  closed :
      (rval ==ℤ pos 0) ≡ true
      → Holds (λ t. ⊥) (λ t. t.i_errno ≡ iectrlclose) s
      → Answered rval message s
  unreadable :
      ltb_ℤ rval (pos 0) ≡ true
      → Holds (λ t. ⊥) (λ t. t.i_errno ≡ ierecvmessage) s
      → Answered rval message s
  came :
      ltb_ℤ (pos 0) rval ≡ true
      → Holds (Continues message) (Stops message) s
      → Answered rval message s

above_0 : (r : ℤ) → (r ==ℤ pos 0) ≡ false → ltb_ℤ r (pos 0) ≡ false → ltb_ℤ (pos 0) r ≡ true
above_0 r h g = ground arith

module _ {W : Type 0} (calls : ClientCalls W) (m : ℕ) where
  of_call : (s : Status W) → Calling m → InState m s → Answers m s
  of_call (ok t) c h = Continues.called c h
  of_call (failed t) c h = Stops.call_failed c h

four_others :
    {m : ℕ}
    → m ≢ param_exchange
    → m ≢ create_streams_state
    → m ≢ test_start
    → m ≢ exchange_results_state
    → Calling m
    → ⊥
four_others a b c d (inl e) = a e
four_others a b c d (inr (inl e)) = b e
four_others a b c d (inr (inr (inl e))) = c e
four_others a b c d (inr (inr (inr e))) = d e

state_of-InState : {W : Type 0} {m : ℕ} (s : Status W) → InState m s → (state_of s).state ≡ m
unfolding state_of
state_of-InState (ok t) h = h
state_of-InState (failed t) h = h

module _ {W : Type 0} (calls : ClientCalls W) where
  set_send_state-InState :
      (m : ℕ) (t : Test W)
      → ltb_ℤ t.ctrl_sck (pos 0) ≡ false
      → InState m (set_send_state (calls.common) m t)
  unfolding set_send_state set_test_state
  set_send_state-InState m t sock = rw sock (
      branches (InState m) (ltb_ℤ (calls.common.nwrite t.ctrl_sck (m ∷ []) t.world).0 (pos 0)) refl
        refl)

  close_control-InState :
      (t : Test W) → t.state ≡ iperf_done → InState iperf_done (close_control calls t)
  unfolding close_control
  close_control-InState t h =
      branches (λ (u : Test W). u.state ≡ iperf_done) (ltb_ℤ t.ctrl_sck (pos 0)) {a = t}
        {b = record t { world = calls.sync_close_socket t.ctrl_sck t.world }} h h

  -- The state is IPERF_DONE before that is sent, so also where it cannot be sent.
  client_end-InState :
      (t : Test W)
      → t.state ≡ display_results
      → ltb_ℤ t.ctrl_sck (pos 0) ≡ false
      → InState iperf_done (client_end calls t)
  unfolding client_end report_end
  client_end-InState t h sock =
      let sends : is_positive_char t.state ≡ true = ap is_positive_char h in
      rw sends (
        chain-InState calls iperf_done
          (set_send_state (calls.common) iperf_done (report_end calls t)) (close_control calls)
          (set_send_state-InState iperf_done (report_end calls t) sock) close_control-InState)

  on_server_error-Answers :
      (err : List ℕ) (t : Test W)
      → t.state ≡ server_error
      → Answers t.state (on_server_error calls err t)
  unfolding on_server_error
  on_server_error-Answers err t h =
      let ((r, code), w) = calls.common.nread t.ctrl_sck 4 t.world in
      let r' = (calls.common.nread t.ctrl_sck 4 w).0.0 in
      branches (Answers t.state) (ltb_ℤ r (pos 0)) (Stops.server_failed h) (
        branches (Answers t.state) (ltb_ℤ r' (pos 0)) (Stops.server_failed h)
          (Stops.server_failed h))

  closing_switch-Answers :
      (err : List ℕ) (t : Test W)
      → ltb_ℤ t.ctrl_sck (pos 0) ≡ false
      → (Calling t.state → ⊥)
      → t.state ≢ test_running
      → Answers t.state (closing_switch calls err t)
  unfolding closing_switch on_server_terminate
  closing_switch-Answers err t sock no_call idle = elim (Bool-cases (t.state == display_results)) [
    | inl a ↦
        let e = (==_iff _ _).0 a in
        let finished = record t { world = calls.common.on_test_finish t.world } in
        rw a (
          Continues.displayed e
            (state_of-InState (client_end calls finished) (client_end-InState finished e sock)))
    | inr a ↦ elim (Bool-cases (t.state == iperf_done)) [
      | inl b ↦ let e = (==_iff _ _).0 b in rw (a, b) (Continues.over e e)
      | inr b ↦ elim (Bool-cases (t.state == server_terminate)) [
        | inl c ↦ rw (a, b, c) (Stops.terminated ((==_iff _ _).0 c) refl refl)
        | inr c ↦ elim (Bool-cases (t.state == access_denied)) [
          | inl d ↦ rw (a, b, c, d) (Stops.denied ((==_iff _ _).0 d) refl)
          | inr d ↦ elim (Bool-cases (t.state == server_error)) [
            | inl e ↦ rw (a, b, c, d, e) (on_server_error-Answers err t ((==_iff _ _).0 e))
            | inr e ↦
                rw (a, b, c, d, e)
                  (Stops.unknown no_call
                    (
                      idle,
                      other_state a,
                      other_state b,
                      other_state c,
                      other_state d,
                      other_state e,
                    )
                    refl)
          ]
        ]
      ]
    ]
  ]

  running_or_closing :
      (err : List ℕ) (t : Test W)
      → ltb_ℤ t.ctrl_sck (pos 0) ≡ false
      → (Calling t.state → ⊥)
      → Answers t.state (if t.state == test_running then ok t else closing_switch calls err t)
  running_or_closing err t sock no_call = elim (Bool-cases (t.state == test_running)) [
    | inl a ↦ rw a (Continues.running ((==_iff _ _).0 a) refl)
    | inr a ↦ rw a (closing_switch-Answers err t sock no_call (other_state a))
  ]

  client_switch-Answers :
      (err : List ℕ) (t : Test W)
      → ltb_ℤ t.ctrl_sck (pos 0) ≡ false
      → Answers t.state (client_switch calls err t)
  unfolding client_switch
  client_switch-Answers err t sock =
      let m = t.state in
      elim (Bool-cases (m == param_exchange)) [
        | inl a ↦ rw a (
            of_call calls m _ (inl ((==_iff _ _).0 a)) (
              chain-InState calls m (checked calls.send_parameters t)
                (λ u. ok (record u { world = calls.on_connect u.world }))
                (checked-InState calls m (calls.send_parameters) t refl) (λ u h. h)))
        | inr a ↦ elim (Bool-cases (m == create_streams_state)) [
          | inl b ↦
              rw (a, b)
                (of_call calls m _ (inr (inl ((==_iff _ _).0 b)))
                  (on_create_streams-InState calls m t refl))
          | inr b ↦ elim (Bool-cases (m == test_start)) [
            | inl c ↦
                rw (a, b, c)
                  (of_call calls m _ (inr (inr (inl ((==_iff _ _).0 c))))
                    (on_test_start-InState calls m t refl))
            | inr c ↦ elim (Bool-cases (m == exchange_results_state)) [
              | inl d ↦
                  rw (a, b, c, d)
                    (of_call calls m _ (inr (inr (inr ((==_iff _ _).0 d))))
                      (exchange_results-InState calls m t refl))
              | inr d ↦
                  rw (a, b, c, d)
                    (running_or_closing err t sock
                      (four_others (other_state a) (other_state b) (other_state c) (other_state d)))
            ]
          ]
        ]
      ]

  client_answer-Answered :
      (err : List ℕ) (t : Test W) (rval : ℤ) (bytes : List ℕ) (w : W)
      → ltb_ℤ t.ctrl_sck (pos 0) ≡ false
      → Answered rval (new_state bytes t.state) (client_answer calls err t rval bytes w)
  unfolding client_answer
  client_answer-Answered err t rval bytes w sock = elim (Bool-cases (rval ==ℤ pos 0)) [
    | inl a ↦ Answered.closed a (rw a refl)
    | inr a ↦ elim (Bool-cases (ltb_ℤ rval (pos 0))) [
      | inl b ↦ Answered.unreadable b (rw (a, b) refl)
      | inr b ↦
          let m = new_state bytes t.state in
          Answered.came (above_0 rval a b)
            (rw (a, b) (client_switch-Answers err (record t { state = m; world = w }) sock))
    ]
  ]

  -- Whatever the calls of the handler answer: if read(2) finds the connection closed, the handler fails
  -- with IECTRLCLOSE, and if read(2) fails, with IERECVMESSAGE. A message that came leads to its own
  -- outcome. The client stays in the state of the message on PARAM_EXCHANGE, CREATE_STREAMS,
  -- TEST_START and EXCHANGE_RESULTS, where a call may fail, and on TEST_RUNNING; on DISPLAY_RESULTS and
  -- IPERF_DONE it ends in IPERF_DONE, also if it cannot send that; on SERVER_TERMINATE, ACCESS_DENIED
  -- and SERVER_ERROR it fails, and on any other byte, with IEMESSAGE. The control
  -- socket is open.
  pub handle_message_client-Answered :
      (err : List ℕ) (t : Test W)
      → ltb_ℤ t.ctrl_sck (pos 0) ≡ false
      → Answered
          (calls.read t.ctrl_sck 1 t.world).0.0
          (new_state (calls.read t.ctrl_sck 1 t.world).0.1 t.state)
          (handle_message_client calls err t)
  unfolding handle_message_client
  handle_message_client-Answered err t sock =
      let ((rval, bytes), w) = calls.read t.ctrl_sck 1 t.world in
      client_answer-Answered err t rval bytes w sock
