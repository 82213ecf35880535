-- ===== src/Store/Kept.antt =====
-- go/internal/store/store.go: what each write keeps of the files that are created once.
use fado.Base.{
  subst, inr, inl, Option-cases, Bool-cases, ℕ, ◌≡◌, refl, Bool, true, false, not, ◌||◌, List, [],
  ◌∷◌, String, ℤ, eq_iff, if◌then◌else◌, ◌==◌, string_eq, ◌∙◌,
}
use fado.Protocol.{PendingRecord}
use fado.Store.{
  Store, at, set_at, save, load, attach_pager, set_auth_url, set_page_list, consume, ack,
  select_record, set_selected_idxs, cancel, save_result, append_event,
}
use fado.Store.Files.{File, absent, present, Fault, exists, create_excl, Artifacts, files-put}
use fado.Store.Writes.{
  Write, saves, attaches, sets_auth_url, sets_page_list, consumes, acks, selects, toggles, cancels,
  saves_result, appends, perform, perform_all,
}

-- Each of the four files that `a` has, `b` has unchanged.
pub record Kept (a b : Artifacts) : Type 0 where
  pub verdict : exists a.verdict ≡ true → b.verdict ≡ a.verdict
  pub ack : exists a.ack ≡ true → b.ack ≡ a.ack
  pub selection : exists a.selection ≡ true → b.selection ≡ a.selection
  pub cancel : exists a.cancel ≡ true → b.cancel ≡ a.cancel

Kept-refl : (a : Artifacts) → Kept a a
Kept-refl a = record {
  verdict = λ h. refl;
  ack = λ h. refl;
  selection = λ h. refl;
  cancel = λ h. refl;
}

kept_file_trans {ℓ} :
    {A : Type ℓ} {f g h : File A}
    → (exists f ≡ true → g ≡ f)
    → (exists g ≡ true → h ≡ g)
    → exists f ≡ true
    → h ≡ f
kept_file_trans p q e = q (rw (p e) e) ∙ p e

Kept-trans : {a b c : Artifacts} → Kept a b → Kept b c → Kept a c
Kept-trans h k = record {
  verdict = kept_file_trans h.verdict k.verdict;
  ack = kept_file_trans h.ack k.ack;
  selection = kept_file_trans h.selection k.selection;
  cancel = kept_file_trans h.cancel k.cancel;
}

create_excl-exists {ℓ} :
    {A : Type ℓ} (fault : Fault) (now : ℕ) (a : A) (f : File A)
    → exists f ≡ true
    → (create_excl fault now a f).0 ≡ f
unfolding create_excl
create_excl-exists fault now a absent h = cc
create_excl-exists fault now a (present t c) h = refl

-- A write at `rid` of files that keep the four.
set_at-Kept :
    (rid j : String) (f : Artifacts) (s : Store)
    → Kept (at s rid) f
    → Kept (at s j) (at (set_at rid f s) j)
set_at-Kept rid j f s k = rw (files-put rid j f s.pending) (elim (Bool-cases (rid == j)) [
  | inl e ↦ rw e (subst (λ i. Kept (at s i) f) ((eq_iff rid j).0 e) k)
  | inr e ↦ rw e (Kept-refl (at s j))
])

json-Kept : (a : Artifacts) (g : File PendingRecord) → Kept a (record a { json = g })
json-Kept a g = record {
  verdict = λ h. refl;
  ack = λ h. refl;
  selection = λ h. refl;
  cancel = λ h. refl;
}

module _ (fault : Fault) (now : ℕ) (s : Store) (j : String) where
  save-Kept :
      (rec : PendingRecord) (rid : String) → Kept (at s j) (at (save fault now rec rid s).0 j)
  unfolding save
  save-Kept rec rid = set_at-Kept rid j _ s (json-Kept (at s rid) _)

  consume-Kept :
      (rid decision by : String) → Kept (at s j) (at (consume fault now rid decision by s).0 j)
  unfolding consume
  consume-Kept rid decision by = set_at-Kept rid j _ s (record {
    verdict = create_excl-exists fault now _ (at s rid).verdict;
    ack = λ h. refl;
    selection = λ h. refl;
    cancel = λ h. refl;
  })

  attach_pager-Kept :
      (rid chat : String) (msg : ℕ) → Kept (at s j) (at (attach_pager fault now rid chat msg s) j)
  unfolding attach_pager
  attach_pager-Kept rid chat msg = elim (Option-cases (load rid s)) [
    | inl e ↦ rw (e, attach_pager) (Kept-refl (at s j))
    | inr (rec, e) ↦ rw (e, attach_pager) (save-Kept _ rid)
  ]

  set_page_list-Kept :
      (rid title : String) (lines : List String)
      → Kept (at s j) (at (set_page_list fault now rid title lines s) j)
  unfolding set_page_list
  set_page_list-Kept rid title lines = elim (Option-cases (load rid s)) [
    | inl e ↦ rw (e, set_page_list) (Kept-refl (at s j))
    | inr (rec, e) ↦ rw (e, set_page_list) (save-Kept _ rid)
  ]

  Kept-if :
      (b : Bool) (t u : Store)
      → Kept (at s j) (at t j)
      → Kept (at s j) (at u j)
      → Kept (at s j) (at (if b then t else u) j)
  Kept-if true t u h k = h
  Kept-if false t u h k = k

  Kept-if_pair :
      (b : Bool) (t u : Store × Bool)
      → Kept (at s j) (at t.0 j)
      → Kept (at s j) (at u.0 j)
      → Kept (at s j) (at (if b then t else u).0 j)
  Kept-if_pair true t u h k = h
  Kept-if_pair false t u h k = k

  set_auth_url-Kept : (rid url : String) → Kept (at s j) (at (set_auth_url fault now rid url s) j)
  unfolding set_auth_url
  set_auth_url-Kept rid url =
      Kept-if (url == "") s _ (Kept-refl (at s j)) (elim (Option-cases (load rid s)) [
        | inl e ↦ rw e (Kept-refl (at s j))
        | inr (rec, e) ↦
            rw e (Kept-if (not (rec.auth_url == "")) s _ (Kept-refl (at s j)) (save-Kept _ rid))
      ])

  ack-Kept : (rid by : String) → Kept (at s j) (at (ack fault now rid by s).0 j)
  unfolding ack
  ack-Kept rid by = elim (Option-cases (load rid s)) [
    | inl e ↦ rw (e, ack) (Kept-refl (at s j))
    | inr (rec, e) ↦
        rw (e, ack)
          (Kept-if_pair (not (rec.kind == "notify")) (s, false) _ (Kept-refl (at s j))
            (set_at-Kept rid j _ s (record {
              verdict = λ h. refl;
              ack = create_excl-exists fault now _ (at s rid).ack;
              selection = λ h. refl;
              cancel = λ h. refl;
            })))
  ]

  select_record-Kept :
      (rid label : String) (idx : ℤ) (idxs : List ℕ) (by : String)
      → Kept (at s j) (at (select_record fault now rid label idx idxs by s).0 j)
  unfolding select_record
  select_record-Kept rid label idx idxs by = elim (Option-cases (load rid s)) [
    | inl e ↦ rw (e, select_record) (Kept-refl (at s j))
    | inr (rec, e) ↦
        rw (e, select_record)
          (Kept-if_pair (not (rec.kind == "ask")) (s, false) _ (Kept-refl (at s j))
            (set_at-Kept rid j _ s (record {
              verdict = λ h. refl;
              ack = λ h. refl;
              selection = create_excl-exists fault now _ (at s rid).selection;
              cancel = λ h. refl;
            })))
  ]

  cancel-Kept : (rid by reason : String) → Kept (at s j) (at (cancel fault now rid by reason s).0 j)
  unfolding cancel
  cancel-Kept rid by reason = elim (Option-cases (load rid s)) [
    | inl e ↦ rw (e, cancel) (Kept-refl (at s j))
    | inr (rec, e) ↦
        rw (e, cancel)
          (set_at-Kept rid j _ s (record {
            verdict = λ h. refl;
            ack = λ h. refl;
            selection = λ h. refl;
            cancel = create_excl-exists fault now _ (at s rid).cancel;
          }))
  ]

  set_selected_idxs-Kept :
      (rid : String) (idxs : List ℕ)
      → Kept (at s j) (at (set_selected_idxs fault now rid idxs s).0 j)
  unfolding set_selected_idxs
  set_selected_idxs-Kept rid idxs = elim (Option-cases (load rid s)) [
    | inl e ↦ rw (e, set_selected_idxs) (Kept-refl (at s j))
    | inr (rec, e) ↦
        rw (e, set_selected_idxs)
          (Kept-if_pair (not (rec.kind == "ask") || not rec.multi_select) (s, false) _
            (Kept-refl (at s j)) (save-Kept _ rid))
  ]

  save_result-Kept :
      (rid : String) (exit : ℤ) (output : String)
      → Kept (at s j) (at (save_result fault now rid exit output s) j)
  unfolding save_result
  save_result-Kept rid exit output =
      set_at-Kept rid j _ s
        (record { verdict = λ h. refl; ack = λ h. refl; selection = λ h. refl; cancel = λ h. refl })

perform-Kept :
    (fault : Fault) (now : ℕ) (w : Write) (s : Store) (j : String)
    → Kept (at s j) (at (perform fault now w s) j)
unfolding append_event
perform-Kept fault now (saves rec rid) s j = save-Kept fault now s j rec rid
perform-Kept fault now (attaches rid chat msg) s j = attach_pager-Kept fault now s j rid chat msg
perform-Kept fault now (sets_auth_url rid url) s j = set_auth_url-Kept fault now s j rid url
perform-Kept fault now (sets_page_list rid title lines) s j =
    set_page_list-Kept fault now s j rid title lines
perform-Kept fault now (consumes rid decision by) s j = consume-Kept fault now s j rid decision by
perform-Kept fault now (acks rid by) s j = ack-Kept fault now s j rid by
perform-Kept fault now (selects rid label idx idxs by) s j =
    select_record-Kept fault now s j rid label idx idxs by
perform-Kept fault now (toggles rid idxs) s j = set_selected_idxs-Kept fault now s j rid idxs
perform-Kept fault now (cancels rid by reason) s j = cancel-Kept fault now s j rid by reason
perform-Kept fault now (saves_result rid exit output) s j =
    save_result-Kept fault now s j rid exit output
perform-Kept fault now (appends ts ev) s j = Kept-refl (at s j)

-- Over any sequence of the store's writes but Purge and Prune, each with any fault, a verdict, an
-- acknowledgement, a selection or a cancellation that is there stays as it is.
pub perform_all-Kept :
    (ws : List (Fault × ℕ × Write)) (s : Store) (rid : String)
    → Kept (at s rid) (at (perform_all ws s) rid)
unfolding perform_all
perform_all-Kept [] s rid = Kept-refl (at s rid)
perform_all-Kept ((fault, now, w) ∷ ws) s rid =
    Kept-trans (perform-Kept fault now w s rid) (perform_all-Kept ws (perform fault now w s) rid)
