-- ===== src/Service/Runs/Permitted.antt =====
-- go/internal/service/service.go: Run starts a command only where the policy allows it, or where the
-- verdict of its petition, and of its confirmation if it needs one, is "approve".
use fado.Base.{
  ℕ, ◌≡◌, ◌≢◌, ◌⊎◌, inl, inr, refl, sym, ap, subst, false, List, String, ℤ, arith, Bool-cases,
  Option-cases, ◌==◌, string_eq, eq_iff,
}
use fado.Protocol.{zero_event}
use fado.Store.{Store}
use fado.Policy.{tier}
use fado.Service.Host.{Spawn}
use fado.Service.Waiting.{Round, Answer, await}
use fado.Service.Waiting.Reached.{Reached, await-Reached}
use fado.Service.Runs.{scrub_env, Service, RunRequest, Machine, audit}
use fado.Service.Runs.Approved.{with_store, result}
use fado.Service.Runs.Requests.Confirm.{Hosts, consumed, decision_of, deadline}
use fado.Service.Runs.Suspend.{snapshot_suspend, resume}
use fado.Service.Runs.Requests.{
  requested, decided_event, confirms, run_decided, run_waiting, open_petition, run,
}
use fado.Service.Runs.Exec.{execute}
use fado.Service.Runs.Starts.{Plainly, execute-Starts, Starts, Starts-map}
use fado.Service.Runs.Verdicts.{Waited-cases, IsApproved, await-IsApproved, no_timeout}
use fado.Service.Runs.Granted.{
  Starts-to, Starts-after, snapshot_suspend-spawned, Ahead, go_ahead-Starts,
}

module _ (svc : Service) (at : Hosts) (clean : List (String × String)) where
  run_refusal-Starts :
      (rid : String) (req : RunRequest) (uid : ℕ) (a : Answer) (rounds : List Round) (m : Machine)
      → (a.decision == "approve") ≡ false
      → (run_decided svc at rid req uid clean a rounds m).0.spawned ≡ m.spawned
  unfolding run_decided result consumed
  run_refusal-Starts rid req uid a rounds m no_approval = ground (arith, no_approval)

  -- From the store `opened`, in which the petition is open, the rounds lead to one in which it is
  -- approved, and what the approval leads to.
  abbrev pub Asked : String → RunRequest → ℕ → List Round → Store → Spawn → Type 0
  Asked rid req uid rounds opened cmd =
      (s : Store) × (left : List Round) × Reached rounds opened s left
      × IsApproved rid s
      × Ahead svc at clean (confirms svc at req.argv) rid req uid left s cmd

  approval-Starts :
      (rid : String) (req : RunRequest) (uid : ℕ) (by : String) (rounds : List Round) (m : Machine)
      → Starts
          (Ahead svc at clean (confirms svc at req.argv) rid req uid rounds m.world.store)
          m
          (run_decided svc at rid req uid clean
            (record { decision = "approve"; by = by })
            rounds
            m).0
  unfolding run_decided
  approval-Starts rid req uid by rounds m =
      go_ahead-Starts svc at clean (confirms svc at req.argv) rid req uid by rounds
        (decided_event svc at rid req (record { decision = "approve"; by = by })) m

  run_waiting-Starts :
      (rid : String) (req : RunRequest) (uid : ℕ) (peer : ℤ) (rounds : List Round) (m : Machine)
      → Starts
          (Asked rid req uid rounds (snapshot_suspend at.made rid peer uid m).0.world.store)
          m
          (run_waiting svc at rid req uid peer clean rounds m).0
  unfolding run_waiting resume
  run_waiting-Starts rid req uid peer rounds m =
      let held = snapshot_suspend at.made rid peer uid m in
      let m1 = held.0 in
      let kept : m1.spawned ≡ m.spawned = snapshot_suspend-spawned at.made rid peer uid m in
      let P = Asked rid req uid rounds m1.world.store in
      let so = Starts-to P m (run_waiting svc at rid req uid peer clean rounds m).0 in
      elim (Waited-cases (await rid (deadline svc at.made) rounds m1.world.store)) [
        | inl (s, f) ↦ inl (ground (arith, f, kept))
        | inr (answer, s, left, f) ↦
            let a = decision_of "timeout" "" answer in
            let m2 = with_store s m1 in
            let d = run_decided svc at rid req uid clean a left m2 in
            let r = resume at.returned rid held.1 d.0 in
            so r (ground (arith, f)) (
              Starts-after P m m2 r kept (elim (Bool-cases (a.decision == "approve")) [
                | inr g ↦ inl (run_refusal-Starts rid req uid a left m2 g)
                | inl g ↦
                    let word = (eq_iff a.decision "approve").0 g in
                    let ok : IsApproved rid s =
                      await-IsApproved rid (deadline svc at.made) rounds left m1.world.store s
                        answer "timeout" "" f no_timeout word in
                    let reached : Reached rounds m1.world.store s left =
                      await-Reached rid (deadline svc at.made) rounds left m1.world.store s answer
                        f in
                    Starts-map m2 d.0 (λ cmd p. (s, left, reached, ok, p))
                      (subst
                        (λ b.
                          Starts (Ahead svc at clean (confirms svc at req.argv) rid req uid left s)
                            m2 (run_decided svc at rid req uid clean b left m2).0)
                        (sym (ap (λ d. record { decision = d; by = a.by }) word))
                        (approval-Starts rid req uid a.by left m2))
              ]))
      ]

module _ (svc : Service) (at : Hosts) where
  -- The store in which the petition of a request is open, and its caller stopped.
  abbrev pub opened : RunRequest → ℕ → ℤ → Machine → Store
  opened req uid peer m =
      let rid = at.made.new_rid in
      let clean = (scrub_env svc.policy req.env).0 in
      let m1 =
        open_petition svc at rid req uid clean (audit at.made (requested svc at req uid) m) in
      (snapshot_suspend at.made rid peer uid m1).0.world.store

  -- The grounds of a command that a request starts: the policy allows its argv, or it is to be asked
  -- for and its petition is approved in a store that the schedule leads to.
  abbrev pub Permitted : RunRequest → ℕ → ℤ → List Round → Machine → Spawn → Type 0
  Permitted req uid peer rounds m cmd =
      let clean = (scrub_env svc.policy req.env).0 in
      ((tier svc.exe svc.policy req.argv ≡ "allow")
        × Plainly svc at.made req.argv req.cwd clean cmd)
      ⊎ ((tier svc.exe svc.policy req.argv ≢ "allow")
          × (tier svc.exe svc.policy req.argv ≢ "deny")
          × Asked svc at clean at.made.new_rid req uid rounds (opened req uid peer m) cmd)

  open_petition-spawned :
      (rid : String) (req : RunRequest) (uid : ℕ) (clean : List (String × String)) (m : Machine)
      → (open_petition svc at rid req uid clean m).spawned ≡ m.spawned
  unfolding open_petition
  open_petition-spawned rid req uid clean m = refl

  is_not : (s word : String) → (s == word) ≡ false → s ≢ word
  is_not s word f e = cc ((eq_iff s word).1 e, f)

  -- A run request starts no command or one. It is the argv itself where the policy allows it; else the
  -- policy neither allows nor denies it, the writes of a part of the schedule lead from the store in
  -- which its petition is open to one where its verdict is "approve", and, if a confirmation is asked
  -- for, those of a later part from the store in which that is open to one where its verdict is
  -- "approve"; what starts is that of the record there, with every check passed.
  pub run-Starts :
      (req : RunRequest) (uid : ℕ) (peer : ℤ) (rounds : List Round) (m : Machine)
      → Starts (Permitted req uid peer rounds m) m (run svc at req uid peer rounds m).0
  unfolding run
  run-Starts req uid peer rounds m =
      let clean = (scrub_env svc.policy req.env).0 in
      let t = tier svc.exe svc.policy req.argv in
      let m1 = audit at.made (requested svc at req uid) m in
      let so = Starts-to (Permitted req uid peer rounds m) m (run svc at req uid peer rounds m).0 in
      elim (Bool-cases (t == "allow")) [
        | inl e ↦
            let word = (eq_iff t "allow").0 e in
            let ran = execute svc at.made req.argv req.cwd clean m1 in
            let r =
              Starts-map m1 ran.0 (λ cmd p. inl (word, p))
                (execute-Starts svc at.made req.argv req.cwd clean m1) in
            elim (Option-cases ran.1) [
              | inl f ↦ so ran.0 (ground (arith, e, f)) r
              | inr (report, f) ↦
                  let ev = record zero_event {
                    ev = "allow";
                    uid = uid;
                    argv = req.argv;
                    as_uid = report.as_uid;
                    exit = report.code;
                    step = "initial";
                  } in
                  so (audit at.made ev ran.0) (ground (arith, e, f)) r
            ]
        | inr e ↦ elim (Bool-cases (t == "deny")) [
          | inl f ↦ inl (ground (arith, e, f))
          | inr f ↦
              let rid = at.made.new_rid in
              let m2 = open_petition svc at rid req uid clean m1 in
              let kept : m2.spawned ≡ m.spawned = open_petition-spawned rid req uid clean m1 in
              elim (Bool-cases req.detach) [
                | inl g ↦ inl (ground (arith, e, f, g, kept))
                | inr g ↦
                    let r = run_waiting svc at rid req uid peer clean rounds m2 in
                    so r.0 (ground (arith, e, f, g)) (
                      Starts-after (Permitted req uid peer rounds m) m m2 r.0 kept (
                        Starts-map m2 r.0 (λ cmd p. inr (is_not t "allow" e, is_not t "deny" f, p))
                          (run_waiting-Starts svc at clean rid req uid peer rounds m2)))
              ]
        ]
      ]
