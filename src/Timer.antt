-- ===== src/Timer.antt =====
-- src/timer.c: the list of active timers, sorted by time, and the list of free ones. A timer's
-- address is its `address`; a linked list is the list of its nodes.
pub mod Order
pub mod Timeout
pub mod Operations
pub mod Keep
mod Examples
use iperf3_windows_msvc.Prelude.{
  ℕ, zero, suc, ◌/◌, ◌%◌, Bool, true, false, Option, none, some, List, [], ◌∷◌, ltb, ◌==◌,
  if◌then◌else◌,
}
use iperf3_windows_msvc.Prelude.Int.{pos, ltb_ℤ}
use iperf3_windows_msvc.Time.{IperfTime, time_add_usecs, time_compare, time_diff, time_in_usecs}
use iperf3_windows_msvc.Net.{Round, return, continue, loop}

-- Timer; the links are in the lists of `Timers`. A `timer_proc` is known by its number.
pub record Timer : Type 0 where
  pub address : ℕ
  pub timer_proc : ℕ
  pub client_data : ℕ
  pub usecs : ℕ  -- int64_t
  pub periodic : Bool
  pub time : IperfTime

-- The static variables `timers` and `free_timers`.
pub record Timers : Type 0 where
  pub timers : List Timer
  pub free_timers : List Timer

unfoldable pub list_add : Timer → List Timer → List Timer
list_add t [] = t ∷ []
list_add t (t2 ∷ rest) =
    if ltb_ℤ (time_compare t.time t2.time) (pos 0) then t ∷ t2 ∷ rest else t2 ∷ list_add t rest

-- The node at `address` is unlinked.
unfoldable pub list_remove : ℕ → List Timer → List Timer
list_remove address [] = []
list_remove address (t ∷ rest) = if t.address == address then rest else t ∷ list_remove address rest

unfoldable pub list_resort : Timer → List Timer → List Timer
unfolding list_add list_remove
list_resort t ts = list_add t (list_remove t.address ts)

-- The timer that is to be used again, or a new one at the address that malloc gave; `none` is a
-- malloc that fails. The second part is what is left of the free list.
take_free : List Timer → Option ℕ → Option ℕ × List Timer
take_free [] malloc = (malloc, [])
take_free (t ∷ rest) malloc = (some t.address, rest)

unfoldable pub tmr_create : Option ℕ → IperfTime → ℕ → ℕ → ℕ → Bool → Timers → Option Timer × Timers
unfolding take_free list_add
tmr_create malloc now timer_proc client_data usecs periodic s =
    let (place, rest) = take_free s.free_timers malloc in
    elim place [
      | none ↦ (none, s)
      | some address ↦
          let t : Timer = record {
            address = address;
            timer_proc = timer_proc;
            client_data = client_data;
            usecs = usecs;
            periodic = periodic;
            time = time_add_usecs now usecs;
          } in
          (some t, record { timers = list_add t s.timers; free_timers = rest })
    ]

-- Since the list is sorted, only its first timer matters.
timeout_of : IperfTime → List Timer → Option (ℕ × ℕ)
timeout_of now [] = none
timeout_of now (t ∷ rest) =
    let (past, diff) = time_diff t.time now in
    let usecs : ℕ = if past == 0 then time_in_usecs diff else 0 in
    some (usecs / 1000000, usecs % 1000000)

-- `tv_sec` and `tv_usec` of the time until the first timer triggers.
unfoldable pub tmr_timeout : IperfTime → Timers → Option (ℕ × ℕ)
unfolding timeout_of
tmr_timeout now s = timeout_of now s.timers

unfoldable pub tmr_reset : IperfTime → Timer → Timers → Timers
unfolding list_resort
tmr_reset now t s = record s {
  timers = list_resort (record t { time = time_add_usecs now t.usecs }) s.timers;
}

unfoldable pub tmr_cancel : Timer → Timers → Timers
unfolding list_remove
tmr_cancel t s = record { timers = list_remove t.address s.timers; free_timers = t ∷ s.free_timers }

-- Every free timer is given back; the list is empty afterwards.
unfoldable pub tmr_cleanup : Timers → Timers
tmr_cleanup s = record s { free_timers = [] }

-- `while (timers != NULL) tmr_cancel(timers)`
cancel_all : List Timer → List Timer → Timers
cancel_all [] free = record { timers = []; free_timers = free }
cancel_all (t ∷ rest) free = cancel_all rest (t ∷ free)

unfoldable pub tmr_destroy : Timers → Timers
unfolding cancel_all tmr_cleanup
tmr_destroy s = tmr_cleanup (cancel_all s.timers s.free_timers)

-- What a `timer_proc` does to the timers and to the rest of the program.
abbrev pub Callback : Type 0 → Type 0
Callback W = Timer → IperfTime → Timers × W → Timers × W

-- The variables of the loop of `tmr_run`: the address in `t`, and what the callbacks change.
pub record Running (W : Type 0) : Type 0 where
  pub cur : Option ℕ
  pub lists : Timers
  pub world : W

-- The active timer at an address.
pub find : ℕ → List Timer → Option Timer
find address [] = none
find address (t ∷ rest) = if t.address == address then some t else find address rest

abbrev first : List Timer → Option ℕ
first [] = none
first (t ∷ rest) = some t.address

-- `t->next`
pub next_of : ℕ → List Timer → Option ℕ
next_of address [] = none
next_of address (t ∷ rest) = if t.address == address then first rest else next_of address rest

module _ {W : Type 0} (call : Callback W) (now : IperfTime) where
  -- After the callback: the timer is rescheduled or cancelled. A timer that its own callback took
  -- off the list is a fault.
  settle : ℕ → Option ℕ → Timers × W → Round (Option (Timers × W)) (Running W)
  unfolding list_resort tmr_cancel
  settle p next (lists, world) = elim (find p lists.timers) [
    | none ↦ return none
    | some t ↦ continue (record {
      cur = next;
      lists =
          if t.periodic
          then record lists {
            timers = list_resort (record t { time = time_add_usecs t.time t.usecs }) lists.timers;
          }
          else tmr_cancel t lists;
      world = world;
    })
  ]

  -- The body of the loop; `next` is read before the callback runs. Where `next` is no longer on the
  -- list, the walk goes through memory that is no active timer, which is a fault too.
  unfoldable pub run_body : Running W → Round (Option (Timers × W)) (Running W)
  unfolding settle find next_of
  run_body s = elim s.cur [
    | none ↦ return (some (s.lists, s.world))
    | some p ↦ elim (find p s.lists.timers) [
      | none ↦ return none
      | some t ↦
          if ltb_ℤ (pos 0) (time_compare t.time now)
          then return (some (s.lists, s.world))
          else settle p (next_of p s.lists.timers) (call t now (s.lists, s.world))
    ]
  ]

  unfoldable pub tmr_run : ℕ → Timers → W → Option (Option (Timers × W))
  tmr_run fuel s w = loop run_body fuel (record { cur = first s.timers; lists = s; world = w })
