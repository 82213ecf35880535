-- ===== src/Store/Approvals.antt =====
-- go/internal/store/store.go: the writes that record no approval.
use fado.Base.{
  ℕ, ◌≡◌, ◌≢◌, sym, ap, subst, ◌∙◌, inl, inr, Bool, true, false, some, List, [], String, ℤ,
  if◌then◌else◌, ◌==◌, Bool-cases, Option-cases, eq_iff, string_eq, some_injective,
}
use fado.Protocol.{VerdictRecord, PendingRecord}
use fado.Store.{
  Store, at, set_at, load, verdict, save, attach_pager, consume, select, select_record, cancel,
  save_result,
}
use fado.Store.Files.{
  Fault, works, open_fails, write_fails, sync_fails, File, absent, present, contents, create_excl,
  Artifacts, files, files-put,
}

-- Every approval of the second store is one of the first.
pub record NoNewApproval (s t : Store) : Type 0 where
  pub old :
      (j : String) (v : VerdictRecord)
      → verdict j t ≡ some v
      → v.decision ≡ "approve"
      → verdict j s ≡ some v

pub NoNewApproval-refl : (s : Store) → NoNewApproval s s
NoNewApproval-refl s = record { old = λ j v h e. h }

pub NoNewApproval-trans :
    {s t u : Store} → NoNewApproval s t → NoNewApproval t u → NoNewApproval s u
NoNewApproval-trans p q = record { old = λ j v h e. p.old j v (q.old j v h e) e }

pub NoNewApproval-pending : (s t : Store) → t.pending ≡ s.pending → NoNewApproval s t
unfolding verdict
NoNewApproval-pending s t e = record {
  old = λ j v h word. ap (λ d. contents (files d j).verdict) (sym e) ∙ h;
}

pub NoNewApproval-if :
    (b : Bool) {s : Store} (t u : Store)
    → NoNewApproval s t
    → NoNewApproval s u
    → NoNewApproval s (if b then t else u)
NoNewApproval-if true t u p q = p
NoNewApproval-if false t u p q = q

-- A write of one id whose verdict is no new approval.
set_at-NoNewApproval :
    (rid : String) (f : Artifacts) (s : Store)
    → ((v : VerdictRecord)
        → contents f.verdict ≡ some v
        → v.decision ≡ "approve"
        → verdict rid s ≡ some v)
    → NoNewApproval s (set_at rid f s)
unfolding verdict
set_at-NoNewApproval rid f s old = record {
  old = λ j v h e. elim (Bool-cases (rid == j)) [
    | inl here ↦
        let at_rid : contents f.verdict ≡ some v = rw (files-put rid j f s.pending, here) at h in
        subst (λ i. verdict i s ≡ some v) ((eq_iff rid j).0 here) (old v at_rid e)
    | inr other ↦ rw (files-put rid j f s.pending, other) at h
  ];
}

created-verdict :
    (fault : Fault) (now : ℕ) (r : VerdictRecord) (f : File VerdictRecord) (v : VerdictRecord)
    → r.decision ≢ "approve"
    → contents (create_excl fault now r f).0 ≡ some v
    → v.decision ≡ "approve"
    → contents f ≡ some v
unfolding create_excl
created-verdict fault now r (present t c) v other h e = h
created-verdict works now r absent v other h e =
    absurd (other (ap (λ (x : VerdictRecord). x.decision) (some_injective h) ∙ e))
created-verdict open_fails now r absent v other h e = h
created-verdict write_fails now r absent v other h e = cc
created-verdict sync_fails now r absent v other h e =
    absurd (other (ap (λ (x : VerdictRecord). x.decision) (some_injective h) ∙ e))

module _ (fault : Fault) (now : ℕ) (s : Store) where
  pub save-NoNewApproval :
      (rec : PendingRecord) (rid : String) → NoNewApproval s (save fault now rec rid s).0
  unfolding save verdict
  save-NoNewApproval rec rid = set_at-NoNewApproval rid _ s (λ v h e. h)

  pub save_result-NoNewApproval :
      (rid : String) (exit : ℤ) (output : String)
      → NoNewApproval s (save_result fault now rid exit output s)
  unfolding save_result verdict
  save_result-NoNewApproval rid exit output = set_at-NoNewApproval rid _ s (λ v h e. h)

  pub consume-NoNewApproval :
      (rid decision by : String)
      → decision ≢ "approve"
      → NoNewApproval s (consume fault now rid decision by s).0
  unfolding consume verdict
  consume-NoNewApproval rid decision by other = set_at-NoNewApproval rid _ s (λ v.
      created-verdict fault now (record { decision = decision; by = by; unix_nano = now })
        (at s rid).verdict v other)

  pub attach_pager-NoNewApproval :
      (rid chat : String) (msg : ℕ) → NoNewApproval s (attach_pager fault now rid chat msg s)
  unfolding attach_pager
  attach_pager-NoNewApproval rid chat msg = elim (Option-cases (load rid s)) [
    | inl e ↦ rw (e, attach_pager) (NoNewApproval-refl s)
    | inr (rec, e) ↦ rw (e, attach_pager) (save-NoNewApproval _ rid)
  ]

  select_record-NoNewApproval :
      (rid label : String) (idx : ℤ) (idxs : List ℕ) (by : String)
      → NoNewApproval s (select_record fault now rid label idx idxs by s).0
  unfolding select_record verdict
  select_record-NoNewApproval rid label idx idxs by = elim (Option-cases (load rid s)) [
    | inl e ↦ rw (e, select_record) (NoNewApproval-refl s)
    | inr (rec, e) ↦ elim (Bool-cases (rec.kind == "ask")) [
      | inr other ↦ rw (e, other, select_record) (NoNewApproval-refl s)
      | inl asks ↦ rw (e, asks, select_record) (set_at-NoNewApproval rid _ s (λ v h w. h))
    ]
  ]

  pub select-NoNewApproval :
      (rid label : String) (idx : ℤ) (by : String)
      → NoNewApproval s (select fault now rid label idx by s).0
  unfolding select
  select-NoNewApproval rid label idx by = select_record-NoNewApproval rid label idx [] by

  pub cancel-NoNewApproval :
      (rid by reason : String) → NoNewApproval s (cancel fault now rid by reason s).0
  unfolding cancel verdict
  cancel-NoNewApproval rid by reason = elim (Option-cases (load rid s)) [
    | inl e ↦ rw (e, cancel) (NoNewApproval-refl s)
    | inr (rec, e) ↦ rw (e, cancel) (set_at-NoNewApproval rid _ s (λ v h w. h))
  ]
