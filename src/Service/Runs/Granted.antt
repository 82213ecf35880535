-- ===== src/Service/Runs/Granted.antt =====
-- go/internal/service/service.go: what an approval starts, and the confirmation before it.
use fado.Base.{
  ℕ, ◌≡◌, ◌⊎◌, inl, inr, refl, sym, ap, subst, ◌∙◌, Bool, true, false, List, ◌∷◌, String, ℤ, arith,
  Bool-cases, Option-cases, some, ◌==◌, string_eq, eq_iff,
}
use fado.Protocol.{PendingRecord, AuditEvent}
use fado.Store.{append_event, Store, load}
use fado.Service.Decisions.{append}
use fado.Service.Host.{Host, Spawn}
use fado.Service.Waiting.{Round, Answer, await}
use fado.Service.Waiting.Reached.{Reached, await-Reached}
use fado.Service.Runs.{Service, RunRequest, Machine, audit}
use fado.Service.Runs.Approved.{with_store, result, run_approved}
use fado.Service.Runs.Requests.Confirm.{
  Hosts, consumed, decision_of, both_results, confirm_decided, open_confirmation, confirm, deadline,
}
use fado.Service.Runs.Suspend.{snapshot_suspend}
use fado.Service.Runs.Requests.{go_ahead}
use fado.Service.Runs.Starts.{Starts, Starts-map}
use fado.Service.Runs.Checked.{Approved, run_approved-Starts}
use fado.Service.Runs.Verdicts.{Waited-cases, IsApproved, await-IsApproved, no_confirmation_timeout}

pub Starts-to : (P : Spawn → Type 0) (m n r : Machine) → n ≡ r → Starts P m r → Starts P m n
Starts-to P m n r e h = subst (Starts P m) (sym e) h

pub Starts-after :
    (P : Spawn → Type 0) (m n r : Machine) → n.spawned ≡ m.spawned → Starts P n r → Starts P m r
Starts-after P m n r e (inl h) = inl (h ∙ e)
Starts-after P m n r e (inr (cmd, h, p)) = inr (cmd, h ∙ ap (◌∷◌ cmd) e, p)

pub snapshot_suspend-spawned :
    (os : Host) (rid : String) (peer : ℤ) (uid : ℕ) (m : Machine)
    → (snapshot_suspend os rid peer uid m).0.spawned ≡ m.spawned
unfolding snapshot_suspend
snapshot_suspend-spawned os rid peer uid m = ground arith

module _ (svc : Service) (at : Hosts) (clean : List (String × String)) where
  -- The command is one that the petition `rid` may start, as its files are in `s`.
  abbrev pub Granted : Host → String → Store → Spawn → Type 0
  Granted seen rid s cmd =
      (t : Store) × (t.pending ≡ s.pending) × Approved svc seen at.started rid clean t cmd

  audited-Starts :
      (seen : Host) (rid : String) (req : RunRequest) (ev : AuditEvent) (m : Machine)
      → Starts
          (Granted seen rid m.world.store)
          m
          (run_approved svc seen at.started rid req clean (audit seen ev m)).0
  unfolding append append_event
  audited-Starts seen rid req ev m =
      let m1 = audit seen ev m in
      Starts-map m1 (run_approved svc seen at.started rid req clean m1).0
        (λ cmd p. (m1.world.store, refl, p))
        (run_approved-Starts svc seen at.started rid req clean m1)

  approved-Starts :
      (rid1 rid by : String) (req : RunRequest) (m : Machine)
      → Starts
          (Granted at.confirmed rid m.world.store)
          m
          (confirm_decided svc at rid1 rid req clean (record { decision = "approve"; by = by }) m).0
  unfolding confirm_decided result
  approved-Starts rid1 rid by req m = audited-Starts at.confirmed rid req _ m

  refused-Starts :
      (rid1 rid : String) (req : RunRequest) (a : Answer) (m : Machine)
      → (a.decision == "approve") ≡ false
      → (confirm_decided svc at rid1 rid req clean a m).0.spawned ≡ m.spawned
  unfolding confirm_decided result both_results consumed
  refused-Starts rid1 rid req a m no_approval = ground (arith, no_approval)

  -- The second question after an approval of `rid` in the store `s`: its petition is opened on the
  -- files of `s`, and the rounds that are left lead from there to a store in which it is approved.
  abbrev pub Confirmed : String → RunRequest → ℕ → String → List Round → Store → Spawn → Type 0
  Confirmed rid req uid by rounds s cmd =
      let rid2 = at.decided.new_rid in
      (first : PendingRecord) × (n : Machine) × (u : Store) × (left : List Round) × (load rid s
        ≡ some first)
      × (n.world.store.pending ≡ s.pending)
      × Reached rounds (open_confirmation svc at rid rid2 first req uid clean by n).world.store u
          left
      × IsApproved rid2 u
      × Granted at.confirmed rid2 u cmd

  -- The wait of a confirmation, and what it starts.
  confirm-Starts :
      (rid : String) (req : RunRequest) (uid : ℕ) (by : String) (rounds : List Round) (m : Machine)
      → Starts
          (Confirmed rid req uid by rounds m.world.store)
          m
          (confirm svc at rid req uid clean by rounds m).0
  unfolding confirm open_confirmation
  confirm-Starts rid req uid by rounds m =
      let rid2 = at.decided.new_rid in
      let P = Confirmed rid req uid by rounds m.world.store in
      let so = Starts-to P m (confirm svc at rid req uid clean by rounds m).0 in
      elim (Option-cases (load rid m.world.store)) [
        | inl e ↦ inl (ground (arith, e))
        | inr (first, e) ↦
            let m1 = open_confirmation svc at rid rid2 first req uid clean by m in
            elim (Waited-cases (await rid2 (deadline svc at.decided) rounds m1.world.store)) [
              | inl (s, f) ↦ inl (ground (arith, e, f))
              | inr (answer, s, left, f) ↦
                  let a = decision_of "confirmation_timeout" "" answer in
                  let reached : Reached rounds m1.world.store s left =
                    await-Reached rid2 (deadline svc at.decided) rounds left m1.world.store s answer
                      f in
                  let m2 = with_store s m1 in
                  let r = (confirm_decided svc at rid rid2 req clean a m2).0 in
                  elim (Bool-cases (a.decision == "approve")) [
                    | inr g ↦ so r (ground (arith, e, f)) (inl (refused-Starts rid rid2 req a m2 g))
                    | inl g ↦
                        let word = (eq_iff a.decision "approve").0 g in
                        let ok : IsApproved rid2 s =
                          await-IsApproved rid2 (deadline svc at.decided) rounds left m1.world.store
                            s answer "confirmation_timeout" "" f no_confirmation_timeout word in
                        so r (ground (arith, e, f)) (
                          Starts-map m r (λ cmd p. (first, m, s, left, e, refl, reached, ok, p))
                            (subst
                              (λ b.
                                Starts (Granted at.confirmed rid2 s) m2
                                  (confirm_decided svc at rid rid2 req clean b m2).0)
                              (sym (ap (λ d. record { decision = d; by = a.by }) word))
                              (approved-Starts rid rid2 a.by req m2)))
                  ]
            ]
      ]

  -- What starts after an approval of `rid` in the store `s`: with a second question, only what its
  -- approval allows.
  abbrev pub Ahead : Bool → String → RunRequest → ℕ → List Round → Store → Spawn → Type 0
  Ahead asks rid req uid rounds s cmd =
      ((asks ≡ false) × Granted at.decided rid s cmd)
      ⊎ ((asks ≡ true) × ((by : String) × Confirmed rid req uid by rounds s cmd))

  pub go_ahead-Starts :
      (asks : Bool) (rid : String) (req : RunRequest) (uid : ℕ) (by : String) (rounds : List Round)
      (ev : AuditEvent) (m : Machine)
      → Starts
          (Ahead asks rid req uid rounds m.world.store)
          m
          (go_ahead svc at asks rid req uid clean by rounds (audit at.decided ev m)).0
  unfolding go_ahead append append_event load
  go_ahead-Starts true rid req uid by rounds ev m =
      let m1 = audit at.decided ev m in
      Starts-map m (confirm svc at rid req uid clean by rounds m1).0 (λ cmd p. inr (refl, (by, p)))
        (confirm-Starts rid req uid by rounds m1)
  go_ahead-Starts false rid req uid by rounds ev m =
      Starts-map m (run_approved svc at.decided at.started rid req clean (audit at.decided ev m)).0
        (λ cmd p. inl (refl, p)) (audited-Starts at.decided rid req ev m)
