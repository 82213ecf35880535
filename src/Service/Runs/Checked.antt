-- ===== src/Service/Runs/Checked.antt =====
-- go/internal/service/service.go: the command of an approved petition is that of its stored record,
-- and it starts only when every check has passed.
use fado.Base.{
  ◌≡◌, ◌⊎◌, inl, inr, refl, sym, ap, subst, ◌∙◌, Bool, true, false, Option, none, some, List, ◌∷◌,
  String, arith, Bool-cases, Option-cases, List-cases, nat_eq, eq_iff,
}
use fado.Text.{append_text}
use fado.Protocol.{PendingRecord, SealPin, Drift}
use fado.Store.{Store, load}
use fado.Store.Files.{files-put}
use fado.Service.Host.{Host, Spawn}
use fado.Service.Pins.{check_git_drift}
use fado.Service.Pins.Entry.{check_fd_drift}
use fado.Service.Pins.Seals.{check_seal_drift}
use fado.Service.Pins.Frozen.{Copy, with_dir, materialize_seal}
use fado.Service.Runs.{Service, RunRequest, RunResult, Machine}
use fado.Service.Runs.Approved.{
  Plan, with_store, result, block, drifts, start, warned, check_and_start, sealed_files,
  frozen_plan, lost, run_approved,
}
use fado.Service.Runs.Starts.{Starts, Starts-map, Pinned, run_pinned-Starts}

abbrev maybe_block : Option Drift → Bool
maybe_block none = false
maybe_block (some d) = d.block

module _ (svc : Service) (seen os : Host) (rid : String) where
  start-Starts :
      (warning : String) (argv : List String) (cwd : String) (clean : List (String × String))
      (plan : Plan) (m : Machine)
      → Starts
          (Pinned svc os plan.name plan.args cwd clean plan.pin)
          m
          (start svc seen os rid warning argv cwd clean plan m).0
  unfolding start result
  start-Starts warning argv cwd clean plan m =
      run_pinned-Starts svc os rid plan.name plan.args cwd clean plan.pin m

  -- No check of the entry or of the work tree speaks against the command.
  abbrev pub Undrifted : String → Store → Type 0
  Undrifted cwd s =
      (drifts (check_fd_drift seen rid s) ≡ none)
      × ((d : Drift)
          → drifts (check_git_drift seen svc.policy rid cwd s) ≡ some d
          → d.block ≡ false)

  abbrev Cleared : String → List (String × String) → Plan → Store → Spawn → Type 0
  Cleared cwd clean plan s cmd =
      Undrifted cwd s × Pinned svc os plan.name plan.args cwd clean plan.pin cmd

  check_and_start-Starts :
      (argv : List String) (cwd : String) (clean : List (String × String)) (plan : Plan)
      (m : Machine)
      → Starts
          (Cleared cwd clean plan m.world.store)
          m
          (check_and_start svc seen os rid argv cwd clean plan m).0
  unfolding check_and_start block warned result
  check_and_start-Starts argv cwd clean plan m =
      let s = m.world.store in
      let so : (r : Machine × RunResult)
          → check_and_start svc seen os rid argv cwd clean plan m ≡ r
          → Starts (Cleared cwd clean plan s) m r.0
          → Starts (Cleared cwd clean plan s) m
              (check_and_start svc seen os rid argv cwd clean plan m).0 =
        λ r e h. subst (λ r. Starts (Cleared cwd clean plan s) m r.0) (sym e) h in
      elim (Option-cases (drifts (check_fd_drift seen rid s))) [
        | inr (d, e) ↦ inl (ground (arith, e))
        | inl e ↦ elim (Option-cases (drifts (check_git_drift seen svc.policy rid cwd s))) [
          | inl f ↦
              let r = start svc seen os rid "" argv cwd clean plan m in
              so r (ground (arith, e, f)) (
                Starts-map m r.0 (λ cmd p. ((e, λ d g. cc (g, f)), p))
                  (start-Starts "" argv cwd clean plan m))
          | inr (d, f) ↦ elim (Bool-cases d.block) [
            | inl g ↦ inl (ground (arith, e, f, g))
            | inr g ↦
                let text = append_text "WARNING: " (append_text d.reason ".\n") in
                let m1 = warned svc seen os rid argv d m in
                let r = start svc seen os rid text argv cwd clean plan m1 in
                so r (ground (arith, e, f, g)) (
                  Starts-map m r.0
                    (λ cmd p. ((e, λ d' k. subst (λ o. maybe_block o ≡ false) (sym f ∙ k) g), p))
                    (start-Starts text argv cwd clean plan m1))
          ]
        ]
      ]

  load-with_dir :
      (state_dir : String) (there : Bool) (s : Store)
      → load rid (with_dir seen state_dir rid there s) ≡ load rid s
  unfolding load
  load-with_dir state_dir there s = rw (files-put rid rid) (ground (arith, eq_iff rid rid))

  load-materialize_seal :
      (state_dir : String) (s : Store)
      → load rid (materialize_seal seen state_dir rid s).0 ≡ load rid s
  unfolding materialize_seal
  load-materialize_seal state_dir s =
      ground (arith, load-with_dir state_dir true s, load-with_dir state_dir false s)

  check_fd_drift-load :
      (s t : Store)
      → load rid t ≡ load rid s
      → check_fd_drift seen rid t ≡ check_fd_drift seen rid s
  unfolding check_fd_drift
  check_fd_drift-load s t e = rw (e, check_fd_drift) refl

  check_git_drift-load :
      (cwd : String) (s t : Store)
      → load rid t ≡ load rid s
      → check_git_drift seen svc.policy rid cwd t ≡ check_git_drift seen svc.policy rid cwd s
  unfolding check_git_drift
  check_git_drift-load cwd s t e = rw (e, check_git_drift) refl

  Undrifted-load :
      (cwd : String) (s t : Store) → load rid t ≡ load rid s → Undrifted cwd t → Undrifted cwd s
  Undrifted-load cwd s t e (fd, git) = (
    ap drifts (sym (check_fd_drift-load s t e)) ∙ fd,
    λ d h. git d (ap drifts (check_git_drift-load cwd s t e) ∙ h),
  )

  -- What the plan of an approved petition is made of: its record, or the frozen copies of it.
  abbrev pub PlanOf : PendingRecord → Store → Plan → Type 0
  PlanOf rec s plan =
      ((sealed_files svc seen os rid rec.seal ≡ none)
        × (rec.argv ≡ plan.name ∷ plan.args)
        × (plan.pin ≡ rec.fd))
      ⊎ ((pin : SealPin) × (dir : String) × (copies : List Copy) × (name : String) × (args : List
            String)
          × (sealed_files svc seen os rid rec.seal ≡ some pin)
          × ((materialize_seal seen svc.conf.state_dir rid s).1 ≡ some (dir, copies))
          × (rec.argv ≡ name ∷ args)
          × (plan ≡ frozen_plan svc seen os rid name args rec.cwd pin dir))

  -- The grounds of a command that is started for the petition `rid`.
  abbrev pub Approved : List (String × String) → Store → Spawn → Type 0
  Approved clean s cmd =
      (rec : PendingRecord) × (plan : Plan) × (load rid s ≡ some rec)
      × PlanOf rec s plan
      × (drifts (check_seal_drift seen rid s) ≡ none)
      × Undrifted rec.cwd s
      × Pinned svc os plan.name plan.args rec.cwd clean plan.pin cmd

  -- A command that is started for an approved petition is that of its record, or of the frozen copies
  -- of it where it has some; no check speaks against it, and the daemon's own user runs it.
  pub run_approved-Starts :
      (req : RunRequest) (clean : List (String × String)) (m : Machine)
      → Starts (Approved clean m.world.store) m (run_approved svc seen os rid req clean m).0
  unfolding run_approved lost block result
  run_approved-Starts req clean m =
      let s = m.world.store in
      let so : (r : Machine × RunResult)
          → run_approved svc seen os rid req clean m ≡ r
          → Starts (Approved clean s) m r.0
          → Starts (Approved clean s) m (run_approved svc seen os rid req clean m).0 =
        λ r e h. subst (λ r. Starts (Approved clean s) m r.0) (sym e) h in
      elim (Option-cases (load rid s)) [
        | inl e ↦ inl (ground (arith, e))
        | inr (rec, e) ↦ elim (List-cases rec.argv) [
          | inl f ↦ inl (ground (arith, e, f))
          | inr (name, args, f) ↦ elim (Option-cases (drifts (check_seal_drift seen rid s))) [
            | inr (d, g) ↦ inl (ground (arith, e, f, g))
            | inl g ↦ elim (Option-cases (sealed_files svc seen os rid rec.seal)) [
              | inl h ↦
                  let plan : Plan = record { name = name; args = args; pin = rec.fd } in
                  let r = check_and_start svc seen os rid (name ∷ args) rec.cwd clean plan m in
                  so r (ground (arith, e, f, g, h)) (
                    Starts-map m r.0 (λ cmd p. (rec, plan, e, inl (h, f, refl), g, p.0, p.1))
                      (check_and_start-Starts (name ∷ args) rec.cwd clean plan m))
              | inr (pin, h) ↦
                  let made = materialize_seal seen svc.conf.state_dir rid s in
                  elim (Option-cases made.1) [
                    | inl k ↦ inl (ground (arith, e, f, g, h, k))
                    | inr (found, k) ↦
                        let plan = frozen_plan svc seen os rid name args rec.cwd pin found.0 in
                        let m1 = with_store made.0 m in
                        let r =
                          check_and_start svc seen os rid (name ∷ args) rec.cwd clean plan m1 in
                        so r (ground (arith, e, f, g, h, k)) (
                          Starts-map m r.0
                            (λ cmd p. (
                              rec,
                              plan,
                              e,
                              inr (pin, found.0, found.1, name, args, h, k, f, refl),
                              g,
                              Undrifted-load rec.cwd s made.0
                                  (load-materialize_seal svc.conf.state_dir s) p.0,
                              p.1,
                            ))
                            (check_and_start-Starts (name ∷ args) rec.cwd clean plan m1))
                  ]
            ]
          ]
        ]
      ]
