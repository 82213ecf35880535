-- ===== src/Service/Decisions/Refusals.antt =====
-- go/internal/service/service.go and notify.go: who may decide, and what a decision records.
use fado.Base.{
  ℕ, ◌≡◌, ◌≢◌, ◌∙◌, refl, ap, true, false, some, List, arith, eq_iff, Bool-cases, inl, inr, ◌⊎◌,
  ◌==◌, string_eq, nat_eq, Option-cases, nat_beq_iff,
}
use fado.Text.{trim_space}
use fado.Protocol.{PendingRecord}
use fado.Store.{load, verdict, consume, append_event}
use fado.Store.Files.{Fault}
use fado.Store.Writes.{Write, perform_all}
use fado.Store.Once.{consume_wins}
use fado.Service.Decisions.{
  World, Env, VerdictSubmit, AckSubmit, CancelRequest, is_admin_uid, append, submit, ack_petition,
}
use fado.Service.Decisions.Cancels.{cancel_petition}
use fado.Service.Decisions.Attribution.{clean_by}

abbrev pub Untouched : World → World → Type 0
Untouched w v = (v.store.pending ≡ w.store.pending) × (v.resumed ≡ w.resumed)

module _ (env : Env) (caller : ℕ) (w : World) (outsider : is_admin_uid env caller ≡ false) where
  pub submit-Untouched :
      (sub : VerdictSubmit)
      → Untouched w (submit env sub caller w).0 × ((submit env sub caller w).1.recorded ≡ false)
  unfolding submit append append_event
  submit-Untouched sub = rw outsider ((refl, refl), refl)

  pub ack_petition-Untouched :
      (sub : AckSubmit)
      → Untouched w (ack_petition env sub caller w).0
        × ((ack_petition env sub caller w).1.acked ≡ false)
  unfolding ack_petition append append_event
  ack_petition-Untouched sub = rw outsider ((refl, refl), refl)

  cancel_petition-Untouched :
      (req : CancelRequest)
      → ((rec : PendingRecord) → load (trim_space req.id) w.store ≡ some rec → caller ≢ rec.uid)
      → Untouched w (cancel_petition env req caller w).0
        × ((cancel_petition env req caller w).1.cancelled ≡ false)
  unfolding cancel_petition append append_event
  cancel_petition-Untouched req stranger = elim (Bool-cases (trim_space req.id == "")) [
    | inl e ↦ rw e ((refl, refl), refl)
    | inr e ↦ elim (Option-cases (load (trim_space req.id) w.store)) [
      | inl f ↦ rw (e, f) ((refl, refl), refl)
      | inr (rec, f) ↦ elim (Bool-cases (caller == rec.uid)) [
        | inl g ↦ absurd (stranger rec f ((nat_beq_iff caller rec.uid).0 g))
        | inr g ↦ rw (e, f, outsider, g) ((refl, refl), refl)
      ]
    ]
  ]

-- A caller that is neither root nor the daemon's user gets no verdict and no acknowledgement
-- recorded, and no cancellation unless it made the petition; the pending directory stays as it was,
-- no process group is resumed, and the answer is not a success.
pub outsider_decides_nothing :
    (env : Env) (caller : ℕ) (w : World) (sub : VerdictSubmit) (seen : AckSubmit)
    (req : CancelRequest)
    → is_admin_uid env caller ≡ false
    → ((rec : PendingRecord) → load (trim_space req.id) w.store ≡ some rec → caller ≢ rec.uid)
    → (Untouched w (submit env sub caller w).0 × ((submit env sub caller w).1.recorded ≡ false))
      × (Untouched w (ack_petition env seen caller w).0
          × ((ack_petition env seen caller w).1.acked ≡ false))
      × (Untouched w (cancel_petition env req caller w).0
          × ((cancel_petition env req caller w).1.cancelled ≡ false))
outsider_decides_nothing env caller w sub seen req outsider stranger = (
  submit-Untouched env caller w outsider sub,
  ack_petition-Untouched env caller w outsider seen,
  cancel_petition-Untouched env caller w outsider req stranger,
)

submit-consume :
    (env : Env) (sub : VerdictSubmit) (caller : ℕ) (w : World)
    → (submit env sub caller w).1.recorded ≡ true
    → (is_admin_uid env caller ≡ true)
      × ((sub.decision ≡ "approve") ⊎ (sub.decision ≡ "deny"))
      × ((consume (env.fault 0) env.now sub.id sub.decision (clean_by sub.by) w.store).1 ≡ true)
      × ((submit env sub caller w).0.store
          ≡ (consume (env.fault 0) env.now sub.id sub.decision (clean_by sub.by) w.store).0)
unfolding submit
submit-consume env sub caller w h =
    let approve = eq_iff sub.decision "approve" in
    let deny = eq_iff sub.decision "deny" in
    (
      ground (arith, approve, deny),
      ground (arith, approve, deny),
      ground (arith, approve, deny),
      ground (arith, approve, deny),
    )

-- Where Submit answers that it recorded a verdict, the caller is root or the daemon's user, the
-- verdict is "approve" or "deny", and every later read of it, over any sequence of the store's writes
-- but Purge and Prune, finds that verdict, with the cleaned name.
pub submit_recorded :
    (env : Env) (sub : VerdictSubmit) (caller : ℕ) (w : World) (ws : List (Fault × ℕ × Write))
    → (submit env sub caller w).1.recorded ≡ true
    → ((caller ≡ 0) ⊎ (caller ≡ env.uid))
      × ((sub.decision ≡ "approve") ⊎ (sub.decision ≡ "deny"))
      × (verdict sub.id (perform_all ws (submit env sub caller w).0.store)
          ≡ some (record { decision = sub.decision; by = clean_by sub.by; unix_nano = env.now }))
unfolding is_admin_uid
submit_recorded env sub caller w ws h =
    let (admin, word, won, after) = submit-consume env sub caller w h in
    let wins =
      consume_wins (env.fault 0) env.now sub.id sub.decision (clean_by sub.by) w.store ws won in
    (
      ground (arith, admin, nat_beq_iff caller env.uid),
      word,
      ap (λ s. verdict sub.id (perform_all ws s)) after ∙ wins.0,
    )
