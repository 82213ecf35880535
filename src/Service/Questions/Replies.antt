-- ===== src/Service/Questions/Replies.antt =====
-- go/internal/service/ask.go: what the answer to a question is grounded in.
use fado.Base.{
  ℕ, ◌≡◌, ◌⊎◌, inl, inr, sym, ap, subst, ◌∙◌, Bool, true, none, some, List, [], ◌∷◌, String, arith,
  Bool-cases, Option-cases, ltb, ◌+◌, some_injective,
}
use fado.Text.{trim_space}
use fado.Protocol.{SelectionRecord, CancelRecord}
use fado.Store.{Store, selection_info, cancel_info, append_event}
use fado.Store.Files.{Fault}
use fado.Store.Writes.{Write, perform_all}
use fado.Store.Once.{cancel_info_stays}
use fado.Service.Host.{Host}
use fado.Service.Waiting.{Round, Chosen, unanswered, chosen, gave_up, timed_out, await_selection}
use fado.Service.Questions.{
  AskRequest, AskResult, fault_of, open_question, ask, ask_ttl, close_question, refusal,
}

-- Some round has the property.
abbrev pub SomeRound : (Round → Type 0) → List Round → Type 0
SomeRound P [] = ⊥
SomeRound P (r ∷ rs) = P r ⊎ SomeRound P rs

-- The grounds of the end of a wait, at the store that it leaves.
abbrev Found : String → ℕ → List Round → Chosen → Type 0
Found rid expires rs (unanswered s) = Unit
Found rid expires rs (chosen sel s left) = selection_info rid s ≡ some sel
Found rid expires rs (gave_up s left) =
    ((c : CancelRecord) × (cancel_info rid s ≡ some c)) ⊎ SomeRound (λ r. r.aborted ≡ true) rs
Found rid expires rs (timed_out s left) = SomeRound (λ r. ltb expires r.now ≡ true) rs

Found-later :
    (rid : String) (expires : ℕ) (r : Round) (rs : List Round) (x : Chosen)
    → Found rid expires rs x
    → Found rid expires (r ∷ rs) x
Found-later rid expires r rs (unanswered s) f = tt
Found-later rid expires r rs (chosen sel s left) f = f
Found-later rid expires r rs (gave_up s left) (inl c) = inl c
Found-later rid expires r rs (gave_up s left) (inr a) = inr (inr a)
Found-later rid expires r rs (timed_out s left) f = inr f

await_selection-Found :
    (rid : String) (expires : ℕ) (rounds : List Round) (s : Store)
    → Found rid expires rounds (await_selection rid expires rounds s)
unfolding await_selection
await_selection-Found rid expires [] s = tt
await_selection-Found rid expires (r ∷ rs) s =
    let t = perform_all r.writes s in
    let u = perform_all r.between t in
    let here : (x : Chosen)
        → await_selection rid expires (r ∷ rs) s ≡ x
        → Found rid expires (r ∷ rs) x
        → Found rid expires (r ∷ rs) (await_selection rid expires (r ∷ rs) s) =
      λ x e f. subst (Found rid expires (r ∷ rs)) (sym e) f in
    elim (Option-cases (selection_info rid t)) [
      | inr (sel, e) ↦ here (chosen sel t rs) (ground (arith, e)) e
      | inl e ↦ elim (Option-cases (cancel_info rid u)) [
        | inr (c, f) ↦ here (gave_up u rs) (ground (arith, e, f)) (inl (c, f))
        | inl f ↦ elim (Bool-cases (ltb expires r.now)) [
          | inl g ↦ here (timed_out u rs) (ground (arith, e, f, g)) (inl g)
          | inr g ↦ elim (Bool-cases r.aborted) [
            | inl h ↦ here (gave_up u rs) (ground (arith, e, f, g, h)) (inr (inl h))
            | inr h ↦ here (await_selection rid expires rs u) (ground (arith, e, f, g, h)) (
                Found-later rid expires r rs (await_selection rid expires rs u)
                  (await_selection-Found rid expires rs u))
          ]
        ]
      ]
    ]

-- The four answers to a question that was asked, with their grounds at the store that is left: a
-- selection or a cancellation that is in it, a round after the deadline, one whose caller is gone.
abbrev pub Answered : String → String → ℕ → List Round → Store → AskResult → Type 0
Answered rid question expires rounds t res =
    ((sel : SelectionRecord) × (selection_info rid t ≡ some sel)
      × (res ≡ record {
        status = "selected";
        id = rid;
        question = question;
        selection = sel.selection;
        selection_idx = sel.selection_idx;
        selection_idxs = sel.selection_idxs;
        by = sel.by;
        reason = "";
      }))
    ⊎ ((c : CancelRecord) × (cancel_info rid t ≡ some c)
        × (res ≡ record (refusal "cancelled") { id = rid; question = question }))
    ⊎ (SomeRound (λ r. ltb expires r.now ≡ true) rounds
        × (res ≡ record (refusal "timeout") { status = "timeout"; id = rid; question = question }))
    ⊎ (SomeRound (λ r. r.aborted ≡ true) rounds
        × (res ≡ record (refusal "client_aborted") { id = rid; question = question }))

given_up-Answered :
    (ts rid : String) (uid : ℕ) (question : String) (writes : List (Fault × ℕ × Write))
    (expires : ℕ) (rounds left : List Round) (s : Store) (res : AskResult)
    → Found rid expires rounds (gave_up s left)
    → (close_question ts rid uid question writes (gave_up s left)).1 ≡ some res
    → Answered rid question expires rounds
        (close_question ts rid uid question writes (gave_up s left)).0
        res
unfolding close_question
given_up-Answered ts rid uid question writes expires rounds left s res f e =
    let t = perform_all writes s in
    elim (Option-cases (cancel_info rid t)) [
      | inr (c, g) ↦
          let same : (close_question ts rid uid question writes (gave_up s left)).0 ≡ t =
            ground (arith, g) in
          inr (inl (c, ap (cancel_info rid) same ∙ g, some_injective (sym e ∙ ground (arith, g))))
      | inl g ↦ elim f [
        | inl (c, h) ↦ absurd (cc (cancel_info_stays writes s rid c h, g))
        | inr a ↦ inr (inr (inr (a, some_injective (sym e ∙ ground (arith, g)))))
      ]
    ]

close_question-Answered :
    (ts rid : String) (uid : ℕ) (question : String) (writes : List (Fault × ℕ × Write))
    (expires : ℕ) (rounds : List Round) (x : Chosen) (res : AskResult)
    → Found rid expires rounds x
    → (close_question ts rid uid question writes x).1 ≡ some res
    → Answered rid question expires rounds (close_question ts rid uid question writes x).0 res
unfolding close_question append_event selection_info cancel_info
close_question-Answered ts rid uid question writes expires rounds (unanswered s) res f e =
    absurd (cc e)
close_question-Answered ts rid uid question writes expires rounds (chosen sel s left) res f e =
    inl (sel, f, sym (some_injective e))
close_question-Answered ts rid uid question writes expires rounds (timed_out s left) res f e =
    inr (inr (inl (f, sym (some_injective e))))
close_question-Answered ts rid uid question writes expires rounds (gave_up s left) res f e =
    given_up-Answered ts rid uid question writes expires rounds left s res f e

-- An answer to a question is a refusal of the request, which then changes nothing, or the selection or
-- the cancellation that is in the store, or a timeout after the deadline, or its caller was gone.
pub ask-Answered :
    (os : Host) (placeholder : Bool) (req : AskRequest) (uid : ℕ) (rounds : List Round)
    (ts : String) (writes : List (Fault × ℕ × Write)) (s : Store) (res : AskResult)
    → (ask os placeholder req uid rounds ts writes s).1 ≡ some res
    → ((reason : String) × (fault_of req ≡ some reason)
        × (res ≡ refusal reason)
        × ((ask os placeholder req uid rounds ts writes s).0 ≡ s))
      ⊎ ((fault_of req ≡ none)
          × Answered os.new_rid
              (trim_space req.question)
              (os.env.now + ask_ttl placeholder req.ttl_seconds)
              rounds
              (ask os placeholder req uid rounds ts writes s).0
              res)
unfolding ask
ask-Answered os placeholder req uid rounds ts writes s res e =
    let rid = os.new_rid in
    let question = trim_space req.question in
    let expires = os.env.now + ask_ttl placeholder req.ttl_seconds in
    elim (Option-cases (fault_of req)) [
      | inr (reason, f) ↦
          inl (reason, f, some_injective (sym e ∙ ground (arith, f)), ground (arith, f))
      | inl f ↦
          let x = await_selection rid expires rounds (open_question os placeholder req uid s) in
          let same : ask os placeholder req uid rounds ts writes s
              ≡ close_question ts rid uid question writes x =
            ground (arith, f) in
          inr (
            f,
            subst (λ t. Answered rid question expires rounds t res) (sym (ap (λ p. p.0) same))
                (close_question-Answered ts rid uid question writes expires rounds x res
                  (await_selection-Found rid expires rounds
                    (open_question os placeholder req uid s))
                  (sym (ap (λ p. p.1) same) ∙ e)),
          )
    ]
