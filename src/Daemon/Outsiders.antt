-- ===== src/Daemon/Outsiders.antt =====
-- go/internal/service: Cancel and Notify record no approval.
use fado.Base.{
  ltb, nat_eq, minus_one, string_eq, leb, ◌+◌, ℕ, ◌≢◌, refl, inl, inr, Bool, true, false, not, ◌||◌,
  ◌&&◌, String, if◌then◌else◌, ◌==◌, Option-cases, arith, eq_iff,
}
use fado.Protocol.{PendingRecord, AuditEvent}
use fado.Store.{
  save_result, load, ack_info, verdict, consume, selection_info, find_confirmation, cancel, Store,
  append_event,
}
use fado.Store.Approvals.{
  NoNewApproval, NoNewApproval-refl, NoNewApproval-trans, NoNewApproval-pending, save-NoNewApproval,
  save_result-NoNewApproval, consume-NoNewApproval, attach_pager-NoNewApproval,
  cancel-NoNewApproval,
}
use fado.Service.Decisions.{
  World, Env, CancelRequest, is_admin_uid, append, resume_suspend, resume_stored,
}
use fado.Service.Decisions.Cancels.{
  already_cancelled, verdict_is, cancel_petition, close_exec, cancel_ask, cancel_notify,
  cancel_confirm, close_initial, cancel_approved, cancel_initial,
}
use fado.Service.Host.{Host}
use fado.Service.Notices.{NotifyRequest, notify, attached}
use fado.Store.Listing.{is_some}
use fado.Text.{has_prefix, len, trim_space}
use fado.Service.Decisions.Attribution.{clean_by}

not_approve : ◌≢◌ {A = String} "cancelled" "approve"
not_approve e = cc ((eq_iff "cancelled" "approve").1 e)

-- Of worlds.
abbrev pub Quiet : World → World → Type 0
Quiet w v = NoNewApproval w.store v.store

Quiet-if_pair {ℓ} :
    {A : Type ℓ} (b : Bool) (w : World) (x y : World × A)
    → Quiet w x.0
    → Quiet w y.0
    → Quiet w (if b then x else y).0
Quiet-if_pair true w x y p q = p
Quiet-if_pair false w x y p q = q

module _ (env : Env) where
  pub append-Quiet : (ev : AuditEvent) (w : World) → Quiet w (append env ev w)
  unfolding append append_event
  append-Quiet ev w = NoNewApproval-pending w.store _ refl

  resume_stored-Quiet : (rid : String) (w : World) → Quiet w (resume_stored env rid w)
  unfolding resume_stored resume_suspend append append_event
  resume_stored-Quiet rid w = NoNewApproval-pending w.store _ (ground arith)

  close_exec-Quiet :
      (n : ℕ) (rid by reason : String) (ev : AuditEvent) (w : World)
      → Quiet w (close_exec env n rid by reason ev w)
  unfolding close_exec
  close_exec-Quiet n rid by reason ev w =
      let s1 = (cancel (env.fault n) env.now rid by reason w.store).0 in
      let s2 = (consume (env.fault (n + 1)) env.now rid "cancelled" by s1).0 in
      let s3 = save_result (env.fault (n + 2)) env.now rid minus_one "cancelled" s2 in
      let first = cancel-NoNewApproval (env.fault n) env.now w.store rid by reason in
      let second =
        consume-NoNewApproval (env.fault (n + 1)) env.now s1 rid "cancelled" by not_approve in
      let third =
        save_result-NoNewApproval (env.fault (n + 2)) env.now s2 rid minus_one "cancelled" in
      let v = record w { store = s3 } in
      NoNewApproval-trans first (
        NoNewApproval-trans second (
          NoNewApproval-trans third
            (NoNewApproval-trans (resume_stored-Quiet rid v) (append-Quiet ev _))))

  module _ (rec : PendingRecord) (rid by reason : String) (w : World) where
    stays : Quiet w w
    stays = NoNewApproval-refl w.store

    cancelled-Quiet :
        (ev : AuditEvent)
        → Quiet w (
            append env ev
              (record w { store = (cancel (env.fault 0) env.now rid by reason w.store).0 }))
    cancelled-Quiet ev =
        NoNewApproval-trans (cancel-NoNewApproval (env.fault 0) env.now w.store rid by reason)
          (append-Quiet ev _)

    cancel_ask-Quiet : Quiet w (cancel_ask env rec rid by reason w).0
    unfolding cancel_ask
    cancel_ask-Quiet =
        Quiet-if_pair (is_some (selection_info rid w.store)) w _ _ stays
          (Quiet-if_pair (leb rec.expires env.now_unix) w _ _ stays (cancelled-Quiet _))

    cancel_notify-Quiet : Quiet w (cancel_notify env rec rid by reason w).0
    unfolding cancel_notify
    cancel_notify-Quiet =
        Quiet-if_pair (is_some (ack_info rid w.store)) w _ _ stays
          (Quiet-if_pair (leb rec.expires env.now_unix) w _ _ stays (cancelled-Quiet _))

    cancel_confirm-Quiet : Quiet w (cancel_confirm env rec rid by reason w).0
    unfolding cancel_confirm
    cancel_confirm-Quiet =
        let first = close_exec-Quiet 0 rid by reason _ w in
        Quiet-if_pair
          (is_some (verdict rid w.store) && not (verdict_is "cancelled" (verdict rid w.store))) w _
          _ stays
          (Quiet-if_pair (leb rec.expires env.now_unix) w _ _ stays (
            Quiet-if_pair (rec.confirm_of == "") w _ _ first
              (NoNewApproval-trans first (close_exec-Quiet 3 rec.confirm_of by reason _ _))))

    cancel_approved-Quiet : Quiet w (cancel_approved env rec rid by reason w).0
    unfolding cancel_approved close_initial
    cancel_approved-Quiet = elim (Option-cases (find_confirmation rid w.store)) [
      | inl e ↦ rw (e, cancel_approved) stays
      | inr (child, e) ↦
          rw (e, cancel_approved)
            (Quiet-if_pair
              (is_some (verdict child.0 w.store)
                && not (verdict_is "cancelled" (verdict child.0 w.store)))
              w _ _ stays
              (Quiet-if_pair (leb child.1.expires env.now_unix) w _ _ stays (
                NoNewApproval-trans (close_exec-Quiet 0 child.0 by reason _ w)
                  (close_exec-Quiet 3 rid by reason _ _))))
    ]

    cancel_initial-Quiet : Quiet w (cancel_initial env rec rid by reason w).0
    unfolding cancel_initial close_initial
    cancel_initial-Quiet = Quiet-if_pair (verdict_is "deny" (verdict rid w.store)) w _ _ stays (
        Quiet-if_pair (verdict_is "approve" (verdict rid w.store)) w _ _ cancel_approved-Quiet (
          Quiet-if_pair (not (is_some (verdict rid w.store)) && leb rec.expires env.now_unix) w _ _
            stays (close_exec-Quiet 0 rid by reason _ w)))

  pub cancel_petition-Quiet :
      (req : CancelRequest) (caller : ℕ) (w : World) → Quiet w (cancel_petition env req caller w).0
  unfolding cancel_petition
  cancel_petition-Quiet req caller w =
      let rid = trim_space req.id in
      let by = clean_by req.by in
      let reason = trim_space req.reason in
      let stay = NoNewApproval-refl w.store in
      Quiet-if_pair (rid == "") w _ _ stay (elim (Option-cases (load rid w.store)) [
        | inl e ↦ rw e stay
        | inr (rec, e) ↦ rw e (
            Quiet-if_pair (not (is_admin_uid env caller) && not (caller == rec.uid)) w _ _
              (append-Quiet _ w)
              (Quiet-if_pair (already_cancelled rec rid w.store) w _ _ stay (
                Quiet-if_pair (rec.kind == "ask") w _ _ (cancel_ask-Quiet rec rid by reason w) (
                  Quiet-if_pair (rec.kind == "notify") w _ _
                    (cancel_notify-Quiet rec rid by reason w)
                    (Quiet-if_pair (rec.step == "confirm") w _ _
                      (cancel_confirm-Quiet rec rid by reason w)
                      (cancel_initial-Quiet rec rid by reason w))))))
      ])

attached-NoNewApproval :
    (os : Host) (n : ℕ) (rid : String) (s : Store) → NoNewApproval s (attached os n rid s)
unfolding attached
attached-NoNewApproval os n rid s = elim (Option-cases os.posted) [
  | inl e ↦ rw (e, attached) (NoNewApproval-refl s)
  | inr (card, e) ↦
      rw (e, attached) (attach_pager-NoNewApproval (os.env.fault n) os.env.now s rid card.0 card.1)
]

pub notify-Quiet :
    (os : Host) (req : NotifyRequest) (uid : ℕ) (w : World) → Quiet w (notify os req uid w).0
unfolding notify append append_event
notify-Quiet os req uid w =
    let stay = NoNewApproval-refl w.store in
    let link = trim_space req.link in
    let summary = trim_space req.summary in
    Quiet-if_pair (link == "" || summary == "") w _ _ stay (
      Quiet-if_pair (ltb 2000 (len link) || ltb 2000 (len summary)) w _ _ stay (
        Quiet-if_pair (not (has_prefix link "http://") && not (has_prefix link "https://")) w _ _
          stay
          (NoNewApproval-trans (save-NoNewApproval (os.env.fault 0) os.env.now w.store _ os.new_rid)
            (NoNewApproval-trans (NoNewApproval-pending _ _ refl)
              (attached-NoNewApproval os 1 os.new_rid _)))))
