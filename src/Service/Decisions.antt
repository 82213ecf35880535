-- ===== src/Service/Decisions.antt =====
-- go/internal/service/service.go, notify.go and suspend.go: Submit and Ack, and what Cancel shares with them. An edit of a card
-- is a message to Telegram that changes no state of the daemon, so it is left out.
pub mod Attribution
pub mod Cancels
pub mod Final
pub mod Refusals
use fado.Base.{
  ℕ, ◌+◌, ◌≡◌, Bool, true, false, not, ◌||◌, ◌&&◌, Option, none, some, List, [], ◌∷◌, ◌++◌, String,
  ℤ, pos, minus_one, lt_int, leb, if◌then◌else◌, ◌==◌, string_eq, nat_eq,
}
use fado.Text.{trim_space}
use fado.Protocol.{PendingRecord, SuspendPin, VerdictRecord, AuditEvent, zero_event}
use fado.Store.{
  Store, load, verdict, consume, ack, ack_info, selection_info, cancel, cancel_info, save_result,
  append_event, find_confirmation,
}
use fado.Store.Files.{Fault}
use fado.Store.Listing.{is_some}
use Attribution.{clean_by}

-- The store, and the process groups that were sent SIGCONT, the last one first.
pub record World : Type 0 where
  pub store : Store
  pub resumed : List ℤ

-- What the operating system gives a handler: os.Getuid, the time in nanoseconds, in seconds and as
-- text, how its nth write goes, and the error text of a SIGCONT, "" for none.
pub record Env : Type 0 where
  pub uid : ℕ
  pub now : ℕ
  pub now_unix : ℕ
  pub ts : String
  pub fault : ℕ → Fault
  pub cont_error : ℤ → String

pub record VerdictSubmit : Type 0 where
  pub id : String
  pub decision : String
  pub by : String

pub record VerdictAck : Type 0 where
  pub recorded : Bool
  pub error : String

pub record AckSubmit : Type 0 where
  pub id : String
  pub by : String

pub record AckResponse : Type 0 where
  pub acked : Bool
  pub error : String

pub record CancelRequest : Type 0 where
  pub id : String
  pub by : String
  pub reason : String

pub record CancelResponse : Type 0 where
  pub cancelled : Bool
  pub error : String

abbrev pub accepted : CancelResponse
accepted = record { cancelled = true; error = "" }

abbrev pub rejected : String → CancelResponse
rejected error = record { cancelled = false; error = error }

module _ (env : Env) where
  unfoldable pub is_admin_uid : ℕ → Bool
  is_admin_uid caller = caller == 0 || caller == env.uid

  unfoldable pub append : AuditEvent → World → World
  append ev w = record w { store = append_event env.ts ev w.store }

  unfoldable pub resume_suspend : String → Option SuspendPin → World → World
  resume_suspend rid pin w = elim pin [
    | none ↦ w
    | some p ↦
        if not p.suspended || not (lt_int (pos 1) p.pgid)
        then w
        else let err = env.cont_error p.pgid in
          append
            (record zero_event {
              ev = "resume";
              rid = rid;
              decision = if err == "" then "" else "skip";
              summary = err;
            })
            (record w { resumed = p.pgid ∷ w.resumed })
  ]

  unfoldable pub resume_stored : String → World → World
  resume_stored rid w = elim (load rid w.store) [
    | none ↦ w
    | some rec ↦ resume_suspend rid rec.suspend w
  ]

  unfoldable pub submit : VerdictSubmit → ℕ → World → World × VerdictAck
  submit sub caller w =
      if not (is_admin_uid caller)
      then (
        append
            (record zero_event {
              ev = "verdict_unauthorized";
              by = clean_by sub.by;
              rid = sub.id;
              decision = sub.decision;
            })
            w,
        record { recorded = false; error = "unauthorized" },
      )
      else if not (sub.decision == "approve") && not (sub.decision == "deny")
      then (w, record { recorded = false; error = "" })
      else let (s, ok) =
          consume (env.fault 0) env.now sub.id sub.decision (clean_by sub.by) w.store in
        (record w { store = s }, record { recorded = ok; error = "" })

  unfoldable pub ack_petition : AckSubmit → ℕ → World → World × AckResponse
  ack_petition sub caller w =
      let by = clean_by sub.by in
      if not (is_admin_uid caller)
      then (
        append (record zero_event { ev = "ack_unauthorized"; by = by; rid = sub.id }) w,
        record { acked = false; error = "unauthorized" },
      )
      else let (s, ok) = ack (env.fault 0) env.now sub.id by w.store in
        if ok
        then (
          append (record zero_event { ev = "ack"; rid = sub.id; by = by }) (record w { store = s }),
          record { acked = true; error = "" },
        )
        else (record w { store = s }, record { acked = false; error = "" })
