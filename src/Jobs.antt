-- ===== src/Jobs.antt =====
-- src/hil_controller/api/jobs.py: GET /v1/jobs/{id}/wait. A request reads the job's row and its events,
-- and where there is no new event it waits and reads them once more; what others write meanwhile shows
-- in the second reading, which comes after an event or after the timeout.
pub mod Cursor
pub mod Polled
pub mod Reached
pub mod Requests
pub mod Window
pub mod Cancelled
pub mod Tests
pub mod RequestTests
use sbc_mcu_dut_controller.Prelude.{ℕ, suc, String, Option, none, some, List, [], ◌∷◌, ◌++◌}
use sbc_mcu_dut_controller.Store.{Job}
use sbc_mcu_dut_controller.Journal.{Event, get_events_since}

pub record Reading : Type 0 where
  pub row : Option Job
  pub events : List Event

pub record WaitResponse : Type 0 where
  pub events : List Event
  pub next_since : ℕ
  pub state : String
  pub result : Option String

pub data Reply : Type 0 where
  response : WaitResponse → Reply
  -- the 404, and the TypeError where the row is gone after the wait
  not_found crashed : Reply

-- `events[-1]["seq"] if events else since`
abbrev pub last_seq : ℕ → List Event → ℕ
last_seq since [] = since
last_seq since (e ∷ es) = last_seq e.seq es

abbrev pub wait_response : (since : ℕ) → List Event → Option Job → Reply
wait_response since events none = crashed
wait_response since events (some row) = response (record {
  events = events;
  next_since = last_seq since events;
  state = row.state;
  result = row.result;
})

abbrev pub unless_empty : (since : ℕ) → List Event → Job → Reply → Reply
unless_empty since [] row waited = waited
unless_empty since (e ∷ es) row waited = wait_response since (e ∷ es) (some row)

unfoldable pub long_poll_wait : (job_id : String) (since : ℕ) (first second : Reading) → Reply
unfolding get_events_since
long_poll_wait job_id since first second = elim first.row [
  | none ↦ not_found
  | some row ↦
      unless_empty since (get_events_since job_id (suc since) first.events) row
        (wait_response since (get_events_since job_id (suc since) second.events) second.row)
]

-- A client that passes each `next_since` to its next request, and what it has got in all.
abbrev pub got_from : (since : ℕ) → Reply → List Event × ℕ
got_from since (response w) = (w.events, w.next_since)
got_from since not_found = ([], since)
got_from since crashed = ([], since)

unfoldable pub follow : (job_id : String) (since : ℕ) → List (Reading × Reading) → List Event × ℕ
unfolding long_poll_wait
follow job_id since [] = ([], since)
follow job_id since ((first, second) ∷ rs) =
    let (es, next) = got_from since (long_poll_wait job_id since first second) in
    let (later, last) = follow job_id next rs in (es ++ later, last)
