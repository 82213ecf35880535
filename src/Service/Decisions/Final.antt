-- ===== src/Service/Decisions/Final.antt =====
-- go/internal/service/service.go: what a cancellation settles.
use fado.Base.{
  ◌⊎◌, ℕ, ◌+◌, ◌≡◌, ◌∙◌, refl, ap, true, false, none, some, List, [], ◌∷◌, String, minus_one, ◌==◌,
  string_eq, nat_eq, arith, eq_iff, Bool-cases, Option-cases, inl, inr, ◌≢◌, subst, sym,
}
use fado.Text.{trim_space}
use fado.Protocol.{PendingRecord, VerdictRecord, AuditEvent}
use fado.Store.{Store, at, load, verdict, consume, cancel, append_event}
use fado.Store.Files.{Fault, works, absent, present, contents, create_excl, files, files-put}
use fado.Store.Writes.{Write, cancels, consumes, saves_result, perform_all}
use fado.Store.Kept.{Kept, perform_all-Kept}
use fado.Store.Once.{consume-at, verdict_of_file}
use fado.Service.Decisions.{World, Env, CancelRequest, append, resume_suspend, resume_stored}
use fado.Service.Decisions.Cancels.{
  cancelled_event, close_exec, already_cancelled, cancel_confirm, cancel_initial, close_initial,
  cancel_petition, verdict_is,
}
use fado.Service.Decisions.Attribution.{clean_by}

module _ (env : Env) where
  resume_stored-pending :
      (rid : String) (w : World) → (resume_stored env rid w).store.pending ≡ w.store.pending
  unfolding resume_stored resume_suspend append append_event
  resume_stored-pending rid w = ground arith

  abbrev closing : ℕ → String → String → String → Store → Store
  closing n rid by reason s =
      perform_all
        ((env.fault n, env.now, cancels rid by reason)
          ∷ (env.fault (n + 1), env.now, consumes rid "cancelled" by)
          ∷ (env.fault (n + 2), env.now, saves_result rid minus_one "cancelled")
          ∷ [])
        s

  close_exec-at :
      (n : ℕ) (rid by reason : String) (ev : AuditEvent) (w : World) (j : String)
      → at (close_exec env n rid by reason ev w).store j ≡ at (closing n rid by reason w.store) j
  unfolding close_exec append append_event perform_all
  close_exec-at n rid by reason ev w j = ap (λ d. files d j) (resume_stored-pending rid _)

  cancel-verdict :
      (n : ℕ) (rid by reason : String) (s : Store)
      → (at (cancel (env.fault n) env.now rid by reason s).0 rid).verdict ≡ (at s rid).verdict
  unfolding cancel
  cancel-verdict n rid by reason s = elim (Option-cases (load rid s)) [
    | inl e ↦ rw (e, cancel) refl
    | inr (rec, e) ↦ rw (e, cancel, files-put rid rid) (ground (arith, eq_iff rid rid))
  ]

  abbrev cancelled_by : String → VerdictRecord
  cancelled_by by = record { decision = "cancelled"; by = by; unix_nano = env.now }

  abbrev Settled : String → String → Store → Type 0
  Settled rid by s = (at s rid).verdict ≡ present env.now (some (cancelled_by by))

  consume-works :
      (n : ℕ) (rid by : String) (s : Store)
      → env.fault n ≡ works
      → (at s rid).verdict ≡ absent
      → (consume (env.fault n) env.now rid "cancelled" by s).1 ≡ true
  unfolding consume create_excl
  consume-works n rid by s ok none_yet = rw (ok, none_yet) refl

  close_exec-Kept :
      (n : ℕ) (rid by reason : String) (ev : AuditEvent) (w : World) (j : String)
      → Kept (at w.store j) (at (close_exec env n rid by reason ev w).store j)
  close_exec-Kept n rid by reason ev w j =
      subst (Kept (at w.store j)) (sym (close_exec-at n rid by reason ev w j))
        (perform_all-Kept _ w.store j)

  Settled-stays :
      (rid by : String) (s t : Store)
      → Kept (at s rid) (at t rid)
      → Settled rid by s
      → Settled rid by t
  Settled-stays rid by s t k h = k.verdict (rw h refl) ∙ h

  close_exec-Settled :
      (n : ℕ) (rid by reason : String) (ev : AuditEvent) (w : World)
      → env.fault (n + 1) ≡ works
      → (at w.store rid).verdict ≡ absent
      → Settled rid by (close_exec env n rid by reason ev w).store
  unfolding perform_all
  close_exec-Settled n rid by reason ev w ok none_yet =
      let s1 = (cancel (env.fault n) env.now rid by reason w.store).0 in
      let s2 = (consume (env.fault (n + 1)) env.now rid "cancelled" by s1).0 in
      let wrote : Settled rid by s2 =
        consume-at (env.fault (n + 1)) env.now rid "cancelled" by s1 (
          consume-works (n + 1) rid by s1 ok (cancel-verdict n rid by reason w.store ∙ none_yet)) in
      let result = (env.fault (n + 2), env.now, saves_result rid minus_one "cancelled") ∷ [] in
      ap (λ f. f.verdict) (close_exec-at n rid by reason ev w rid)
      ∙ Settled-stays rid by s2 (perform_all result s2) (perform_all-Kept result s2 rid) wrote

  module _ (faultless : (n : ℕ) → env.fault n ≡ works) (rec : PendingRecord)
      (rid by reason : String) (w : World) (none_yet : (at w.store rid).verdict ≡ absent) where
    first_close : AuditEvent → World
    first_close ev = close_exec env 0 rid by reason ev w

    first_close-Settled : (ev : AuditEvent) → Settled rid by (first_close ev).store
    unfolding first_close
    first_close-Settled ev = close_exec-Settled 0 rid by reason ev w (faultless 1) none_yet

    cancel_confirm-closes :
        (cancel_confirm env rec rid by reason w).1.cancelled ≡ true
        → ((ev : AuditEvent) × ((cancel_confirm env rec rid by reason w).0 ≡ first_close ev))
          ⊎ ((ev more : AuditEvent) × ((cancel_confirm env rec rid by reason w).0
                ≡ close_exec env 3 rec.confirm_of by reason more (first_close ev)))
    unfolding cancel_confirm cancelled_event first_close
    cancel_confirm-closes h = elim (Bool-cases (rec.confirm_of == "")) [
      | inl e ↦ inl (cancelled_event "confirm" rec.confirm_of rid by reason rec, ground arith)
      | inr e ↦ inr (
        cancelled_event "confirm" rec.confirm_of rid by reason rec,
        cancelled_event "initial" "" rec.confirm_of by reason rec,
        ground arith,
      )
    ]

    cancel_confirm-Settled :
        (cancel_confirm env rec rid by reason w).1.cancelled ≡ true
        → Settled rid by (cancel_confirm env rec rid by reason w).0.store
    cancel_confirm-Settled h = elim (cancel_confirm-closes h) [
      | inl (ev, e) ↦ subst (λ v. Settled rid by v.store) (sym e) (first_close-Settled ev)
      | inr (ev, more, e) ↦
          subst (λ v. Settled rid by v.store) (sym e)
            (Settled-stays rid by (first_close ev).store
              (close_exec env 3 rec.confirm_of by reason more (first_close ev)).store
              (close_exec-Kept 3 rec.confirm_of by reason more (first_close ev) rid)
              (first_close-Settled ev))
    ]

    no_verdict : verdict rid w.store ≡ none
    unfolding verdict
    no_verdict = ap contents none_yet

    cancel_initial-closes :
        (cancel_initial env rec rid by reason w).1.cancelled ≡ true
        → (ev : AuditEvent) × ((cancel_initial env rec rid by reason w).0 ≡ first_close ev)
    unfolding cancel_initial close_initial cancelled_event first_close verdict_is
    cancel_initial-closes h =
        (cancelled_event "initial" "" rid by reason rec, ground (arith, no_verdict))

    cancel_initial-Settled :
        (cancel_initial env rec rid by reason w).1.cancelled ≡ true
        → Settled rid by (cancel_initial env rec rid by reason w).0.store
    cancel_initial-Settled h =
        let (ev, e) = cancel_initial-closes h in
        subst (λ v. Settled rid by v.store) (sym e) (first_close-Settled ev)

-- A run or a confirmation that is neither decided nor cancelled is closed by one of the two.
cancel_petition-routes :
    (env : Env) (req : CancelRequest) (caller : ℕ) (w : World) (rec : PendingRecord)
    → load (trim_space req.id) w.store ≡ some rec
    → rec.kind ≢ "ask"
    → rec.kind ≢ "notify"
    → already_cancelled rec (trim_space req.id) w.store ≡ false
    → (cancel_petition env req caller w).1.cancelled ≡ true
    → (cancel_petition env req caller w
        ≡ cancel_confirm env rec (trim_space req.id) (clean_by req.by) (trim_space req.reason) w)
      ⊎ (cancel_petition env req caller w
          ≡ cancel_initial env rec (trim_space req.id) (clean_by req.by) (trim_space req.reason) w)
unfolding cancel_petition
cancel_petition-routes env req caller w rec found no_ask no_notify fresh h =
    let ask = eq_iff rec.kind "ask" in
    let notify = eq_iff rec.kind "notify" in
    elim (Bool-cases (rec.step == "confirm")) [
      | inl e ↦ inl (ground (arith, found, ask, notify))
      | inr e ↦ inr (ground (arith, found, ask, notify))
    ]

-- Where Cancel answers success for a run or a confirmation that was not yet decided nor cancelled,
-- and its writes work, every later read of the petition's verdict finds "cancelled" by that caller,
-- over any sequence of the store's writes but Purge and Prune, each with any fault.
pub cancel_petition_settles :
    (env : Env) (req : CancelRequest) (caller : ℕ) (w : World) (rec : PendingRecord)
    (ws : List (Fault × ℕ × Write))
    → ((n : ℕ) → env.fault n ≡ works)
    → load (trim_space req.id) w.store ≡ some rec
    → rec.kind ≢ "ask"
    → rec.kind ≢ "notify"
    → (at w.store (trim_space req.id)).verdict ≡ absent
    → already_cancelled rec (trim_space req.id) w.store ≡ false
    → (cancel_petition env req caller w).1.cancelled ≡ true
    → verdict (trim_space req.id) (perform_all ws (cancel_petition env req caller w).0.store)
      ≡ some (record { decision = "cancelled"; by = clean_by req.by; unix_nano = env.now })
cancel_petition_settles env req caller w rec ws faultless found no_ask no_notify none_yet fresh h =
    let rid = trim_space req.id in
    let by = clean_by req.by in
    let reason = trim_space req.reason in
    let finish : Settled env rid by (cancel_petition env req caller w).0.store =
      elim (cancel_petition-routes env req caller w rec found no_ask no_notify fresh h) [
        | inl e ↦
            subst (λ r. Settled env rid by r.0.store) (sym e)
              (cancel_confirm-Settled env faultless rec rid by reason w none_yet
                (subst (λ r. r.1.cancelled ≡ true) e h))
        | inr e ↦
            subst (λ r. Settled env rid by r.0.store) (sym e)
              (cancel_initial-Settled env faultless rec rid by reason w none_yet
                (subst (λ r. r.1.cancelled ≡ true) e h))
      ] in
    let after = (cancel_petition env req caller w).0.store in
    verdict_of_file (perform_all ws after) rid (cancelled_by env by)
      (Settled-stays env rid by after (perform_all ws after) (perform_all-Kept ws after rid) finish)
