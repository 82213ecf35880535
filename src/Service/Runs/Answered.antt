-- ===== src/Service/Runs/Answered.antt =====
-- go/internal/service/service.go: a request that waits is answered once its deadlines are past.
use fado.Base.{
  string_eq, ℕ, ◌<◌, ◌≡◌, ◌≢◌, inl, inr, refl, sym, subst, ◌∙◌, Bool, true, false, Option, none,
  some, List, [], ◌∷◌, ◌++◌, String, ℤ, arith, Bool-cases, Option-cases, ◌==◌, ltb, append_assoc,
}
use fado.Store.{Store, load, verdict, cancel_info}
use fado.Store.Writes.{perform_all}
use fado.Service.Waiting.{Round, Answer, Waited, answered, await}
use fado.Service.Waiting.Answers.{await-next}
use fado.Service.Runs.{Service, RunRequest, Machine, audit, scrub_env}
use fado.Policy.{tier}
use fado.Service.Runs.Exec.{execute}
use fado.Service.Runs.Suspend.{snapshot_suspend}
use fado.Service.Runs.Approved.{with_store}
use fado.Service.Runs.Requests.Confirm.{
  Hosts, waits, deadline, decision_of, confirm, open_confirmation,
}
use fado.Service.Runs.Requests.{
  requested, decided_event, confirms, go_ahead, run_decided, run_waiting, open_petition, run,
}

lt→ltb : (a b : ℕ) → a < b → ltb a b ≡ true
lt→ltb a b h = ground arith

-- An answer that leaves a schedule which ends in `ys`.
abbrev AnsweredBefore : List Round → Waited → Type 0
AnsweredBefore ys w =
    (a : Option Answer) × (s : Store) × (zs left : List Round) × (left ≡ zs ++ ys)
    × (w ≡ answered a s left)

await-late :
    (rid : String) (expires : ℕ) (xs : List Round) (r : Round) (ys : List Round) (s : Store)
    → ltb expires r.now ≡ true
    → AnsweredBefore ys (await rid expires (xs ++ r ∷ ys) s)
unfolding await
await-late rid expires [] r ys s late =
    let t = perform_all r.writes s in
    let u = perform_all r.between t in
    elim (Option-cases (verdict rid t)) [
      | inr (v, e) ↦
          (some (record { decision = v.decision; by = v.by }), t, [], ys, refl, ground (arith, e))
      | inl e ↦ elim (Option-cases (cancel_info rid u)) [
        | inr (c, f) ↦ (
          some (record { decision = "cancelled"; by = c.by }),
          u,
          [],
          ys,
          refl,
          ground (arith, e, f),
        )
        | inl f ↦ (none, u, [], ys, refl, ground (arith, e, f, late))
      ]
    ]
await-late rid expires (x ∷ xs) r ys s late =
    let t = perform_all x.writes s in
    let u = perform_all x.between t in
    let rest = xs ++ r ∷ ys in
    let zs = xs ++ r ∷ [] in
    let ends : rest ≡ zs ++ ys = sym (append_assoc xs (r ∷ []) ys) in
    elim (Option-cases (verdict rid t)) [
      | inr (v, e) ↦
          (some (record { decision = v.decision; by = v.by }), t, zs, rest, ends, ground (arith, e))
      | inl e ↦ elim (Option-cases (cancel_info rid u)) [
        | inr (c, f) ↦ (
          some (record { decision = "cancelled"; by = c.by }),
          u,
          zs,
          rest,
          ends,
          ground (arith, e, f),
        )
        | inl f ↦ elim (Bool-cases (ltb expires x.now)) [
          | inl g ↦ (none, u, zs, rest, ends, ground (arith, e, f, g))
          | inr g ↦ elim (Bool-cases x.aborted) [
            | inl h ↦ (
              some (record { decision = "client_aborted"; by = "client" }),
              u,
              zs,
              rest,
              ends,
              ground (arith, e, f, g, h),
            )
            | inr h ↦
                let later = await-late rid expires xs r ys u late in
                (
                  later.0,
                  later.1,
                  later.2,
                  later.3,
                  later.4,
                  await-next rid expires x rest s e f g h ∙ later.5,
                )
          ]
        ]
      ]
    ]

module _ (svc : Service) (at : Hosts) (clean : List (String × String)) where
  confirm_ends :
      (rid : String) (req : RunRequest) (uid : ℕ) (by : String) (xs : List Round) (r : Round)
      (ys : List Round) (m : Machine)
      → deadline svc at.decided < r.now
      → (confirm svc at rid req uid clean by (xs ++ r ∷ ys) m).1 ≢ waits
  unfolding confirm
  confirm_ends rid req uid by xs r ys m late e = elim (Option-cases (load rid m.world.store)) [
    | inl f ↦ ground (arith, e, f)
    | inr (first, f) ↦
        let rid2 = at.decided.new_rid in
        let m1 = open_confirmation svc at rid rid2 first req uid clean by m in
        let came =
          await-late rid2 (deadline svc at.decided) xs r ys m1.world.store (ground arith) in
        ground (arith, e, f, came.5)
  ]

  go_ahead_ends :
      (asks : Bool) (rid : String) (req : RunRequest) (uid : ℕ) (by : String) (xs : List Round)
      (r : Round) (ys : List Round) (m : Machine)
      → deadline svc at.decided < r.now
      → (go_ahead svc at asks rid req uid clean by (xs ++ r ∷ ys) m).1 ≢ waits
  unfolding go_ahead
  go_ahead_ends true rid req uid by xs r ys m late e = confirm_ends rid req uid by xs r ys m late e
  go_ahead_ends false rid req uid by xs r ys m late e = cc e

  run_decided_ends :
      (rid : String) (req : RunRequest) (uid : ℕ) (a : Answer) (xs : List Round) (r : Round)
      (ys : List Round) (m : Machine)
      → deadline svc at.decided < r.now
      → (run_decided svc at rid req uid clean a (xs ++ r ∷ ys) m).1 ≢ waits
  unfolding run_decided
  run_decided_ends rid req uid a xs r ys m late e =
      elim (Bool-cases (a.decision == "client_aborted")) [
        | inl f ↦ ground (arith, e, f)
        | inr f ↦ elim (Bool-cases (a.decision == "cancelled")) [
          | inl g ↦ ground (arith, e, f, g)
          | inr g ↦ elim (Bool-cases (a.decision == "approve")) [
            | inr h ↦ ground (arith, e, f, g, h)
            | inl h ↦
                go_ahead_ends (confirms svc at req.argv) rid req uid a.by xs r ys
                  (audit at.decided (decided_event svc at rid req a) m) late
                  (ground (arith, e, f, g, h))
          ]
        ]
      ]

  run_waiting-answered :
      (rid : String) (req : RunRequest) (uid : ℕ) (peer : ℤ) (rounds left : List Round)
      (a : Option Answer) (s : Store) (m : Machine)
      → await rid
          (deadline svc at.made)
          rounds
          (snapshot_suspend at.made rid peer uid m).0.world.store
        ≡ answered a s left
      → (run_waiting svc at rid req uid peer clean rounds m).1
        ≡ (run_decided svc at rid req uid clean
            (decision_of "timeout" "" a)
            left
            (with_store s (snapshot_suspend at.made rid peer uid m).0)).1
  unfolding run_waiting
  run_waiting-answered rid req uid peer rounds left a s m e = ground (arith, e)

  run_waiting_ends :
      (rid : String) (req : RunRequest) (uid : ℕ) (peer : ℤ) (xs : List Round) (r : Round)
      (ys : List Round) (q : Round) (zs : List Round) (m : Machine)
      → deadline svc at.made < r.now
      → deadline svc at.decided < q.now
      → (run_waiting svc at rid req uid peer clean (xs ++ r ∷ (ys ++ q ∷ zs)) m).1 ≢ waits
  run_waiting_ends rid req uid peer xs r ys q zs m late later e =
      let m1 = (snapshot_suspend at.made rid peer uid m).0 in
      let (a, s, ws, left, ends, came) =
        await-late rid (deadline svc at.made) xs r (ys ++ q ∷ zs) m1.world.store
          (lt→ltb (deadline svc at.made) r.now late) in
      let same : left ≡ (ws ++ ys) ++ q ∷ zs = ends ∙ sym (append_assoc ws ys (q ∷ zs)) in
      run_decided_ends rid req uid (decision_of "timeout" "" a) (ws ++ ys) q zs (with_store s m1)
        later
        (subst
          (λ l.
            (run_decided svc at rid req uid clean (decision_of "timeout" "" a) l
              (with_store s m1)).1
            ≡ waits)
          same
          (sym (run_waiting-answered rid req uid peer (xs ++ r ∷ (ys ++ q ∷ zs)) left a s m came)
            ∙ e))

module _ (svc : Service) (at : Hosts) where
  -- A request is answered, or its handler panics, where the schedule has a round after the deadline of
  -- its petition and, behind it, one after the deadline of its confirmation.
  pub run_answers :
      (req : RunRequest) (uid : ℕ) (peer : ℤ) (xs : List Round) (r : Round) (ys : List Round)
      (q : Round) (zs : List Round) (m : Machine)
      → deadline svc at.made < r.now
      → deadline svc at.decided < q.now
      → (run svc at req uid peer (xs ++ r ∷ (ys ++ q ∷ zs)) m).1 ≢ waits
  unfolding run
  run_answers req uid peer xs r ys q zs m late later e =
      let clean = (scrub_env svc.policy req.env).0 in
      let t = tier svc.exe svc.policy req.argv in
      let m1 = audit at.made (requested svc at req uid) m in
      elim (Bool-cases (t == "allow")) [
        | inl f ↦ elim (Option-cases (execute svc at.made req.argv req.cwd clean m1).1) [
          | inl g ↦ ground (arith, e, f, g)
          | inr (report, g) ↦ ground (arith, e, f, g)
        ]
        | inr f ↦ elim (Bool-cases (t == "deny")) [
          | inl g ↦ ground (arith, e, f, g)
          | inr g ↦ elim (Bool-cases req.detach) [
            | inl h ↦ ground (arith, e, f, g, h)
            | inr h ↦
                run_waiting_ends svc at clean at.made.new_rid req uid peer xs r ys q zs
                  (open_petition svc at at.made.new_rid req uid clean m1) late later
                  (ground (arith, e, f, g, h))
          ]
        ]
      ]
