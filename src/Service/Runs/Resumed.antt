-- ===== src/Service/Runs/Resumed.antt =====
-- go/internal/service/service.go and suspend.go: the process group that a waiting request stopped goes
-- on when the request returns.
use fado.Base.{
  string_eq, ℕ, ◌≡◌, ◌≢◌, ◌⊎◌, inl, inr, refl, true, false, ◌||◌, Option, some, List, ◌∷◌, String,
  ℤ, pos, lt_int, arith, Bool-cases, Option-cases, ◌==◌,
}
use fado.Protocol.{SuspendPin}
use fado.Service.Host.{Host}
use fado.Service.Decisions.{resume_suspend, append}
use fado.Service.Waiting.{Round, await}
use fado.Service.Runs.{Service, RunRequest, Machine}
use fado.Service.Runs.Verdicts.{Waited-cases}
use fado.Service.Runs.Suspend.{
  resolve_suspend_pgid, stop_pgid, snapshot_suspend, resume, same_int, le_one,
}
use fado.Service.Runs.Approved.{with_store}
use fado.Service.Runs.Requests.Confirm.{Hosts, waits, deadline, decision_of}
use fado.Service.Runs.Requests.{run_decided, run_waiting}

-- Nothing is stopped, or a group that may be: not one of init or of the kernel, nor the daemon's own.
abbrev pub Stopped : Host → ℤ → Machine → Machine × Option SuspendPin → Type 0
Stopped os peer m held =
    (held.0.stopped ≡ m.stopped)
    ⊎ ((pgid : ℤ) × (held.0.stopped ≡ pgid ∷ m.stopped)
        × (held.1 ≡ some (record { pid = peer; pgid = pgid; suspended = true }))
        × (lt_int (pos 1) pgid ≡ true)
        × (same_int pgid os.own_group ≡ false))

not_stopped :
    (os : Host) (pgid : ℤ)
    → (le_one pgid || same_int pgid os.own_group) ≡ true
    → (stop_pgid os pgid == "") ≡ false
unfolding stop_pgid
not_stopped os pgid e = rw (e) refl

snapshot_suspend-Stopped :
    (os : Host) (rid : String) (peer : ℤ) (uid : ℕ) (m : Machine)
    → Stopped os peer m (snapshot_suspend os rid peer uid m)
unfolding snapshot_suspend
snapshot_suspend-Stopped os rid peer uid m =
    elim (Option-cases (resolve_suspend_pgid os peer uid)) [
      | inl e ↦ inl (ground (arith, e))
      | inr (pgid, e) ↦ elim (Bool-cases (stop_pgid os pgid == "")) [
        | inr f ↦ inl (ground (arith, e, f))
        | inl f ↦ elim (Bool-cases (le_one pgid || same_int pgid os.own_group)) [
          | inl g ↦ absurd (cc (f, not_stopped os pgid g))
          | inr g ↦ inr (
            pgid,
            ground (arith, e, f),
            ground (arith, e, f),
            ground (arith, g),
            ground (arith, g),
          )
        ]
      ]
    ]

resume-resumed :
    (os : Host) (rid : String) (peer pgid : ℤ) (m : Machine)
    → lt_int (pos 1) pgid ≡ true
    → (resume os rid (some (record { pid = peer; pgid = pgid; suspended = true })) m).world.resumed
      ≡ pgid ∷ m.world.resumed
unfolding resume resume_suspend append
resume-resumed os rid peer pgid m e = ground (arith, e)

-- When a waiting request returns, either it stopped no group, or it stopped one, neither the daemon's own nor one
-- with a number up to 1, and the last group that was resumed is this one.
pub run_waiting_resumes :
    (svc : Service) (at : Hosts) (rid : String) (req : RunRequest) (uid : ℕ) (peer : ℤ)
    (clean : List (String × String)) (rounds : List Round) (m : Machine)
    → (run_waiting svc at rid req uid peer clean rounds m).1 ≢ waits
    → let held = snapshot_suspend at.made rid peer uid m in
      (held.0.stopped ≡ m.stopped)
      ⊎ ((pgid : ℤ) × (before : List ℤ) × (held.0.stopped ≡ pgid ∷ m.stopped)
          × (lt_int (pos 1) pgid ≡ true)
          × (same_int pgid at.made.own_group ≡ false)
          × ((run_waiting svc at rid req uid peer clean rounds m).0.world.resumed ≡ pgid ∷ before))
unfolding run_waiting
run_waiting_resumes svc at rid req uid peer clean rounds m ends =
    let held = snapshot_suspend at.made rid peer uid m in
    elim (snapshot_suspend-Stopped at.made rid peer uid m) [
      | inl e ↦ inl e
      | inr (pgid, e, f, g, h) ↦
          elim (Waited-cases (await rid (deadline svc at.made) rounds held.0.world.store)) [
            | inl (s, k) ↦ absurd (ends (ground (arith, k)))
            | inr (answer, s, left, k) ↦
                let a = decision_of "timeout" "" answer in
                let d = run_decided svc at rid req uid clean a left (with_store s held.0) in
                inr (
                  pgid,
                  d.0.world.resumed,
                  e,
                  g,
                  h,
                  ground (arith, k, f, resume-resumed at.returned rid peer pgid d.0 g),
                )
          ]
    ]
