-- ===== src/Service/Runs/Requests/Confirm.antt =====
-- go/internal/service/service.go: confirm, the second question for a command that is approved once.
use fado.Base.{
  ℕ, ◌+◌, ◌*◌, ◌/◌, not, ◌||◌, Option, none, some, List, String, ℤ, minus_one, if◌then◌else◌, ◌==◌,
  string_eq,
}
use fado.Protocol.{PendingRecord, zero_record, AuditEvent, zero_event}
use fado.Store.{load, save, consume}
use fado.Service.Host.{Host}
use fado.Service.Pins.{snapshot_git}
use fado.Service.Pins.Entry.{snapshot_entry}
use fado.Service.Pins.Frozen.{snapshot_seal}
use fado.Service.Waiting.{Round, Answer, waiting, answered, await}
use fado.Service.Runs.{Service, RunRequest, RunResult, denied, Machine, audit}
use fado.Service.Runs.Approved.{with_store, result, run_approved}

-- The host at each moment of a request.
pub record Hosts : Type 0 where
  pub made : Host
  pub decided : Host
  pub confirmed : Host
  pub started : Host
  pub returned : Host

-- How a request ends: with an answer, still waiting where its schedule ends, or in a panic.
pub data RunEnd : Type 0 where
  replies : RunResult → RunEnd
  waits panics : RunEnd

-- Consume, the nth write at this host; its answer is not looked at.
unfoldable pub consumed : Host → ℕ → String → String → String → Machine → Machine
consumed os n rid decision by m =
    with_store (consume (os.env.fault n) os.env.now rid decision by m.world.store).0 m

-- In nanoseconds.
unfoldable pub deadline : Service → Host → ℕ
deadline svc os = os.env.now + svc.conf.timeout * 1000000000

-- What no answer means.
abbrev pub decision_of : String → String → Option Answer → Answer
decision_of decision by none = record { decision = decision; by = by }
decision_of decision by (some a) = a

module _ (svc : Service) (at : Hosts) (rid1 : String) where
  -- The results of the two petitions.
  unfoldable pub both_results : String → ℤ → String → Machine → Machine
  unfolding result
  both_results rid exit output m =
      result at.confirmed 2 rid1 exit output (result at.confirmed 1 rid exit output m)

  event : String → String → RunRequest → Answer → AuditEvent
  event ev rid req a = record zero_event {
    ev = ev;
    argv = req.argv;
    rid = rid;
    step = "confirm";
    confirm_of = rid1;
    by = a.by;
  }

  unfoldable pub confirm_decided :
      String → RunRequest → List (String × String) → Answer → Machine → Machine × RunResult
  unfolding both_results event consumed
  confirm_decided rid req clean a m =
      if a.decision == "client_aborted"
      then (
        audit at.confirmed (event "client_aborted" rid req a) (
            both_results rid minus_one "client_aborted"
              (consumed at.confirmed 0 rid a.decision a.by m)),
        denied "client_aborted",
      )
      else if a.decision == "cancelled"
      then (
        both_results rid minus_one "cancelled" (consumed at.confirmed 0 rid a.decision a.by m),
        denied "cancelled",
      )
      else if a.decision == "confirmation_timeout" || a.decision == "timeout"
      then (
        audit at.confirmed
            (event "confirmation_timeout" rid req (record { decision = "timeout"; by = "system" }))
            (both_results rid minus_one "confirmation_timeout"
              (consumed at.confirmed 0 rid "timeout" "system" m)),
        denied "confirmation_timeout",
      )
      else let m1 =
          audit at.confirmed (record (event "verdict" rid req a) { decision = a.decision }) m in
        if not (a.decision == "approve")
        then (both_results rid minus_one "" m1, denied a.decision)
        else let (m2, r) = run_approved svc at.confirmed at.started rid req clean m1 in
          (result at.returned 2 rid1 r.exit r.output m2, r)

  -- The record of the confirmation, which takes the card of the first one.
  unfoldable pub open_confirmation :
      String → PendingRecord → RunRequest → ℕ → List (String × String) → String → Machine → Machine
  unfolding event
  open_confirmation rid first req uid clean by m =
      let os = at.decided in
      let (s, seal) =
        snapshot_seal os svc.conf.state_dir svc.hash_text rid req.argv req.cwd m.world.store in
      let s1 =
        (save (os.env.fault 2) os.env.now
          (record zero_record {
            argv = req.argv;
            uid = uid;
            as_uid = os.euid;
            cwd = req.cwd;
            expires = deadline svc os / 1000000000;
            env = clean;
            step = "confirm";
            confirm_of = rid1;
            chat_id = first.chat_id;
            msg_id = first.msg_id;
            preview = first.preview;
            git = snapshot_git os req.cwd;
            fd = snapshot_entry os req.argv req.cwd;
            seal = seal;
            suspend = first.suspend;
          })
          rid s).0 in
      audit os (event "confirm" rid req (record { decision = ""; by = by })) (with_store s1 m)

  unfoldable pub confirm :
      RunRequest → ℕ → List (String × String) → String → List Round → Machine → Machine × RunEnd
  unfolding open_confirmation confirm_decided
  confirm req uid clean by rounds m = elim (load rid1 m.world.store) [
    | none ↦ (m, replies (denied "lost-record"))
    | some first ↦
        let rid = at.decided.new_rid in
        let m1 = open_confirmation rid first req uid clean by m in
        elim (await rid (deadline svc at.decided) rounds m1.world.store) [
          | waiting s ↦ (with_store s m1, waits)
          | answered a s left ↦
              let (m2, r) =
                confirm_decided rid req clean (decision_of "confirmation_timeout" "" a)
                  (with_store s m1) in
              (m2, replies r)
        ]
  ]
