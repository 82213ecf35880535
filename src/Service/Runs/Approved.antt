-- ===== src/Service/Runs/Approved.antt =====
-- go/internal/service/service.go: runApproved. `seen` is the host at the checks, `os` the one when the
-- command starts.
use fado.Base.{
  ℕ, ◌||◌, Option, none, some, List, [], ◌∷◌, String, ℤ, minus_one, if◌then◌else◌, ◌==◌, string_eq,
  nat_eq, length,
}
use fado.Text.{append_text}
use fado.Protocol.{FdPin, SealPin, Drift, zero_event}
use fado.Store.{Store, load, save_result}
use fado.Service.Host.{Host}
use fado.Service.Pins.{check_git_drift}
use fado.Service.Pins.Entry.{snapshot_entry, check_fd_drift}
use fado.Service.Pins.Seals.{check_seal_drift}
use fado.Service.Pins.Frozen.{materialize_seal, sealed_token, sealed_argv}
use fado.Service.Runs.{Service, RunRequest, RunResult, denied, allowed, Machine, audit}
use fado.Service.Runs.Exec.{run_pinned}

abbrev pub with_store : Store → Machine → Machine
with_store s m = record m { world = record m.world { store = s } }

-- SaveResult, the nth write at this host.
unfoldable pub result : Host → ℕ → String → ℤ → String → Machine → Machine
result os n rid exit output m =
    with_store (save_result (os.env.fault n) os.env.now rid exit output m.world.store) m

-- What is to be run: the program, its arguments and the pin of its file.
pub record Plan : Type 0 where
  pub name : String
  pub args : List String
  pub pin : Option FdPin

-- A drift that is there and counts.
unfoldable pub drifts : Option Drift → Option Drift
drifts none = none
drifts (some d) = if d.drift then some d else none

module _ (svc : Service) (seen os : Host) (rid : String) where
  -- A refusal: the event, the result and the answer, each with its text.
  unfoldable pub block : String → String → String → List String → Machine → Machine × RunResult
  unfolding result
  block ev prefix reason argv m = (
    result seen 1 rid minus_one (append_text prefix reason) (
        audit seen
          (record zero_event {
            ev = ev;
            argv = argv;
            rid = rid;
            decision = "block";
            summary = reason;
          })
          m),
    denied (append_text prefix reason),
  )

  -- Run the plan; a reason is put before the output as a warning.
  unfoldable pub start :
      String → List String → String → List (String × String) → Plan → Machine → Machine × RunResult
  unfolding result
  start warning argv cwd clean plan m =
      let (m1, r) = run_pinned svc os rid plan.name plan.args cwd clean plan.pin m in
      let out = append_text warning r.out in
      (
        result os 1 rid r.code out (
            audit os
              (record zero_event {
                ev = "exec";
                argv = argv;
                rid = rid;
                as_uid = r.as_uid;
                exit = r.code;
                dry = svc.conf.dry_run;
              })
              m1),
        allowed r.code out,
      )

  unfoldable pub warned : List String → Drift → Machine → Machine
  warned argv d m =
      audit seen
        (record zero_event {
          ev = "git_drift";
          argv = argv;
          rid = rid;
          decision = "warn";
          summary = d.reason;
        })
        m

  -- The checks of the entry and of the work tree, and the start.
  unfoldable pub check_and_start :
      List String → String → List (String × String) → Plan → Machine → Machine × RunResult
  check_and_start argv cwd clean plan m = elim (drifts (check_fd_drift seen rid m.world.store)) [
    | some d ↦ block "fd_drift" "fd-drift: " d.reason argv m
    | none ↦ elim (drifts (check_git_drift seen svc.policy rid cwd m.world.store)) [
      | none ↦ start "" argv cwd clean plan m
      | some d ↦
          if d.block
          then block "git_drift" "git-drift: " d.reason argv m
          else start (append_text "WARNING: " (append_text d.reason ".\n")) argv cwd clean plan
              (warned argv d m)
    ]
  ]

  abbrev unusable : String
  unusable = "sealed artifact for approval is unusable"

  -- The pin whose copies are to be run.
  unfoldable pub sealed_files : Option SealPin → Option SealPin
  sealed_files none = none
  sealed_files (some pin) = if length pin.files == 0 || svc.conf.dry_run then none else some pin

  unfoldable pub frozen_plan : String → List String → String → SealPin → String → Plan
  unfolding sealed_argv
  frozen_plan name args cwd pin dir = record {
    name = sealed_token seen cwd pin dir name;
    args = sealed_argv seen args cwd pin dir;
    pin = snapshot_entry seen (sealed_argv seen (name ∷ args) cwd pin dir) cwd;
  }

  unfoldable pub lost : RunRequest → Machine → Machine × RunResult
  unfolding result
  lost req m = (
    result seen 1 rid minus_one "lost-record: stored request is missing or corrupt" (
        audit seen
          (record zero_event { ev = "lost_record"; argv = req.argv; rid = rid; decision = "block" })
          m),
    denied "lost-record",
  )

  unfoldable pub run_approved : RunRequest → List (String × String) → Machine → Machine × RunResult
  unfolding result
  run_approved req clean m = elim (load rid m.world.store) [
    | none ↦ lost req m
    | some rec ↦ elim rec.argv [
      | [] ↦ lost req m
      | name ∷ args ↦ elim (drifts (check_seal_drift seen rid m.world.store)) [
        | some d ↦ block "seal_drift" "seal-drift: " d.reason (name ∷ args) m
        | none ↦ elim (sealed_files rec.seal) [
          | none ↦
              check_and_start (name ∷ args) rec.cwd clean
                (record { name = name; args = args; pin = rec.fd }) m
          | some pin ↦
              let (s, copies) = materialize_seal seen svc.conf.state_dir rid m.world.store in
              elim copies [
                | none ↦ block "seal_drift" "seal-drift: " unusable (name ∷ args) (with_store s m)
                | some (dir, files) ↦
                    check_and_start (name ∷ args) rec.cwd clean
                      (frozen_plan name args rec.cwd pin dir) (with_store s m)
              ]
        ]
      ]
    ]
  ]
