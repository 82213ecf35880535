-- ===== src/Service/Runs/Requests.antt =====
-- go/internal/service/service.go: Run, confirm, runDetached and adoptOne. A request passes four
-- moments, each with its host: it is made, it is decided, its confirmation is decided, and its
-- command starts. Between the first three it waits, over the rounds of a schedule.
pub mod Confirm
use fado.Base.{
  ℕ, ◌+◌, ◌*◌, ◌/◌, Bool, true, false, not, ◌||◌, ◌&&◌, Option, none, some, List, [], ◌∷◌, String,
  ℤ, pos, minus_one, if◌then◌else◌, ◌==◌, string_eq,
}
use fado.Protocol.{PendingRecord, zero_record, AuditEvent, zero_event}
use fado.Policy.{tier, needs_confirm}
use fado.Store.{Store, load, save, consume, attach_pager}
use fado.Service.Decisions.{World, resume_stored}
use fado.Service.Host.{Host}
use fado.Service.Pins.{snapshot_git}
use fado.Service.Pins.Entry.{snapshot_entry}
use fado.Service.Pins.Frozen.{snapshot_seal}
use fado.Service.Waiting.{Round, Answer, Waited, waiting, answered, await}
use fado.Service.Preview.Impact.{preview_impact}
use fado.Text.{append_text}
use fado.Service.Runs.{
  Conf, Service, RunRequest, RunResult, denied, allowed, Machine, audit, scrub_env,
}
use fado.Service.Runs.Exec.{Report, execute}
use fado.Service.Runs.Suspend.{snapshot_suspend, resume}
use fado.Service.Runs.Approved.{with_store, result, run_approved}
use Confirm.{Hosts, RunEnd, replies, waits, panics, consumed, deadline, decision_of, confirm}

-- The order of Go's map is not fixed; the entries' names differ.
unfoldable pub flatten : List (String × String) → List String
flatten [] = []
flatten ((k, v) ∷ env) = append_text k (append_text "=" v) ∷ flatten env

module _ (svc : Service) (at : Hosts) where
  unfoldable pub confirms : List String → Bool
  confirms argv = svc.conf.confirm_all || needs_confirm svc.policy argv

  -- What follows an approval: the second question, if it is to be asked, or the command.
  unfoldable pub go_ahead :
      Bool
      → String
      → RunRequest
      → ℕ
      → List (String × String)
      → String
      → List Round
      → Machine
      → Machine × RunEnd
  go_ahead asks rid req uid clean by rounds m =
      if asks
      then confirm svc at rid req uid clean by rounds m
      else (let (m1, r) = run_approved svc at.decided at.started rid req clean m in (m1, replies r))

  abbrev pub requested : RunRequest → ℕ → AuditEvent
  requested req uid = record zero_event {
    ev = "request";
    uid = uid;
    argv = req.argv;
    cwd = req.cwd;
    tier = tier svc.exe svc.policy req.argv;
    env_dropped = (scrub_env svc.policy req.env).1;
    step = "initial";
  }

  abbrev pub decided_event : String → RunRequest → Answer → AuditEvent
  decided_event rid req a = record zero_event {
    ev = "verdict";
    argv = req.argv;
    rid = rid;
    step = "initial";
    decision = a.decision;
    by = a.by;
  }

  -- What Run does with the decision.
  unfoldable pub run_decided :
      String
      → RunRequest
      → ℕ
      → List (String × String)
      → Answer
      → List Round
      → Machine
      → Machine × RunEnd
  unfolding confirms result consumed
  run_decided rid req uid clean a rounds m =
      if a.decision == "client_aborted"
      then (
        audit at.decided
            (record zero_event {
              ev = "client_aborted";
              argv = req.argv;
              rid = rid;
              step = "initial";
              by = a.by;
            })
            (result at.decided 1 rid minus_one "client_aborted"
              (consumed at.decided 0 rid a.decision a.by m)),
        replies (denied "client_aborted"),
      )
      else if a.decision == "cancelled"
      then (
        result at.decided 1 rid minus_one "cancelled" (consumed at.decided 0 rid a.decision a.by m),
        replies (denied "cancelled"),
      )
      else let m1 = audit at.decided (decided_event rid req a) m in
        if not (a.decision == "approve")
        then (result at.decided 1 rid minus_one "" m1, replies (denied a.decision))
        else go_ahead (confirms req.argv) rid req uid clean a.by rounds m1

  -- The record of a new petition, and the card.
  unfoldable pub open_petition :
      String → RunRequest → ℕ → List (String × String) → Machine → Machine
  open_petition rid req uid clean m =
      let os = at.made in
      let (s, seal) =
        snapshot_seal os svc.conf.state_dir svc.hash_text rid req.argv req.cwd m.world.store in
      let s1 =
        (save (os.env.fault 0) os.env.now
          (record zero_record {
            argv = req.argv;
            uid = uid;
            as_uid = os.euid;
            cwd = req.cwd;
            expires = deadline svc os / 1000000000;
            env = clean;
            step = "initial";
            preview = some (preview_impact os req.argv req.cwd (flatten clean));
            git = snapshot_git os req.cwd;
            fd = snapshot_entry os req.argv req.cwd;
            seal = seal;
          })
          rid s).0 in
      with_store
        (elim os.posted [
          | none ↦ s1
          | some (chat, msg) ↦ attach_pager (os.env.fault 1) os.env.now rid chat msg s1
        ])
        m

  -- The petition waits with the caller's group stopped, which is resumed when Run returns.
  unfoldable pub run_waiting :
      String → RunRequest → ℕ → ℤ → List (String × String) → List Round → Machine → Machine × RunEnd
  unfolding run_decided
  run_waiting rid req uid peer clean rounds m =
      let (m1, pin) = snapshot_suspend at.made rid peer uid m in
      elim (await rid (deadline svc at.made) rounds m1.world.store) [
        | waiting s ↦ (with_store s m1, waits)
        | answered a s left ↦
            let (m2, end) =
              run_decided rid req uid clean (decision_of "timeout" "" a) left (with_store s m1) in
            (resume at.returned rid pin m2, end)
      ]

  unfoldable pub run : RunRequest → ℕ → ℤ → List Round → Machine → Machine × RunEnd
  unfolding open_petition run_waiting
  run req uid peer rounds m =
      let clean = (scrub_env svc.policy req.env).0 in
      let t = tier svc.exe svc.policy req.argv in
      let m1 = audit at.made (requested req uid) m in
      if t == "allow"
      then (let (m2, done) = execute svc at.made req.argv req.cwd clean m1 in
          elim done [
            | none ↦ (m2, panics)
            | some r ↦ (
              audit at.made
                  (record zero_event {
                    ev = "allow";
                    uid = uid;
                    argv = req.argv;
                    as_uid = r.as_uid;
                    exit = r.code;
                    step = "initial";
                  })
                  m2,
              replies (allowed r.code r.out),
            )
          ])
      else if t == "deny"
      then (m1, replies (denied "policy"))
      else let rid = at.made.new_rid in
        let m2 = open_petition rid req uid clean m1 in
        if req.detach
        then (m2, replies (record (denied "") { status = "pending"; id = rid }))
        else run_waiting rid req uid peer clean rounds m2

  -- The goroutine of a detached request.
  unfoldable pub run_detached :
      String → RunRequest → ℕ → ℤ → List (String × String) → List Round → Machine → Machine × RunEnd
  unfolding confirms result
  run_detached rid req uid peer clean rounds m =
      let (m1, pin) = snapshot_suspend at.made rid peer uid m in
      elim (await rid (deadline svc at.made) rounds m1.world.store) [
        | waiting s ↦ (with_store s m1, waits)
        | answered answer s left ↦
            let a = decision_of "timeout" "" answer in
            let m2 = with_store s m1 in
            let (m3, end) : Machine × RunEnd =
              if a.decision == "cancelled"
              then (result at.decided 1 rid minus_one "cancelled" m2, replies (denied "cancelled"))
              else let m3 = audit at.decided (decided_event rid req a) m2 in
                if not (a.decision == "approve")
                then (result at.decided 1 rid minus_one "" m3, replies (denied a.decision))
                else go_ahead (confirms req.argv) rid req uid clean a.by left m3 in
            (resume at.returned rid pin m3, end)
      ]

  -- The waiter of a petition that an earlier daemon left.
  unfoldable pub adopt_one : String → PendingRecord → List Round → Machine → Machine × RunEnd
  unfolding confirms result
  adopt_one rid rec rounds m =
      let req : RunRequest = record {
        argv = rec.argv;
        cwd = rec.cwd;
        env = rec.env;
        detach = false;
      } in
      elim (await rid (rec.expires * 1000000000) rounds m.world.store) [
        | waiting s ↦ (with_store s m, waits)
        | answered answer s left ↦
            let a = decision_of "timeout" "system" answer in
            let m1 =
              audit at.decided
                (record zero_event {
                  ev = "verdict";
                  argv = rec.argv;
                  rid = rid;
                  step = rec.step;
                  decision = a.decision;
                  by = a.by;
                })
                (with_store s m) in
            let (m2, end) : Machine × RunEnd =
              if not (a.decision == "approve")
              then (result at.decided 1 rid minus_one "" m1, replies (denied a.decision))
              else go_ahead (not (rec.step == "confirm") && confirms req.argv) rid req rec.uid
                  (scrub_env svc.policy req.env).0 a.by left m1 in
            (record m2 { world = resume_stored at.returned.env rid m2.world }, end)
      ]
