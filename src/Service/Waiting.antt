-- ===== src/Service/Waiting.antt =====
-- go/internal/service/service.go and ask.go: await and awaitSelection, the loops that poll the store
-- until a petition is decided. A schedule has one round for each turn of the loop.
pub mod Answers
pub mod Reached
use fado.Base.{ℕ, Bool, true, false, Option, none, some, List, [], ◌∷◌, String, ltb, if◌then◌else◌}
use fado.Protocol.{VerdictRecord, CancelRecord, SelectionRecord}
use fado.Store.{Store, verdict, cancel_info, selection_info}
use fado.Store.Files.{Fault}
use fado.Store.Writes.{Write, perform_all}

-- What other goroutines write before the first read and between the two, the time in nanoseconds,
-- and whether the caller's channel is closed when the loop selects.
pub record Round : Type 0 where
  pub writes : List (Fault × ℕ × Write)
  pub between : List (Fault × ℕ × Write)
  pub now : ℕ
  pub aborted : Bool

pub record Answer : Type 0 where
  pub decision : String
  pub by : String

-- `waiting` where the schedule ends first. An answer leaves the store and the rest of the schedule;
-- `none` is a timeout.
pub data Waited : Type 0 where
  waiting : Store → Waited
  answered : Option Answer → Store → List Round → Waited

unfoldable pub await : String → ℕ → List Round → Store → Waited
await rid expires [] s = waiting s
await rid expires (r ∷ rs) s =
    let t = perform_all r.writes s in
    let u = perform_all r.between t in
    elim (verdict rid t) [
      | some v ↦ answered (some (record { decision = v.decision; by = v.by })) t rs
      | none ↦ elim (cancel_info rid u) [
        | some c ↦ answered (some (record { decision = "cancelled"; by = c.by })) u rs
        | none ↦ elim (ltb expires r.now) [
          | true ↦ answered none u rs
          | false ↦ elim r.aborted [
            | true ↦ answered (some (record { decision = "client_aborted"; by = "client" })) u rs
            | false ↦ await rid expires rs u
          ]
        ]
      ]
    ]

pub data Chosen : Type 0 where
  unanswered : Store → Chosen
  chosen : SelectionRecord → Store → List Round → Chosen
  gave_up timed_out : Store → List Round → Chosen

unfoldable pub await_selection : String → ℕ → List Round → Store → Chosen
await_selection rid expires [] s = unanswered s
await_selection rid expires (r ∷ rs) s =
    let t = perform_all r.writes s in
    let u = perform_all r.between t in
    elim (selection_info rid t) [
      | some sel ↦ chosen sel t rs
      | none ↦ elim (cancel_info rid u) [
        | some c ↦ gave_up u rs
        | none ↦ elim (ltb expires r.now) [
          | true ↦ timed_out u rs
          | false ↦ elim r.aborted [
            | true ↦ gave_up u rs
            | false ↦ await_selection rid expires rs u
          ]
        ]
      ]
    ]
