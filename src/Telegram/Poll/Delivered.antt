-- ===== src/Telegram/Poll/Delivered.antt =====
-- go/internal/telegram/telegram.go: the verdicts that Poll delivers.
use fado.Base.{
  string_eq, ◌==◌, ℕ, ◌+◌, ◌≡◌, refl, sym, ap, ◌∙◌, ◌⊎◌, inl, inr, Bool, true, false, not, ◌&&◌,
  Option, none, some, List, [], ◌∷◌, ◌++◌, String, ℤ, Bool-cases, Option-cases, if◌then◌else◌,
  append_assoc, append-nil, arith,
}
use fado.Service.Pump.{Press}
use fado.Telegram.Buttons.{split_verdict}
use fado.Telegram.Poll.{
  Update, Turn, failed, cancelled, batch, Deed, asked, answered, delivered, saved, format_int,
  unbinding, verdict_of, poll_update, poll_batch, poll,
}

-- The verdicts among the deeds, in order.
unfoldable pub presses : List Deed → List Press
presses [] = []
presses (asked n ∷ ds) = presses ds
presses (answered id text ∷ ds) = presses ds
presses (delivered p ∷ ds) = p ∷ presses ds
presses (saved n ∷ ds) = presses ds

presses-append : (ds es : List Deed) → presses (ds ++ es) ≡ presses ds ++ presses es
unfolding presses
presses-append [] es = refl
presses-append (asked n ∷ ds) es = presses-append ds es
presses-append (answered id text ∷ ds) es = presses-append ds es
presses-append (delivered p ∷ ds) es = ap (◌∷◌ p) (presses-append ds es)
presses-append (saved n ∷ ds) es = presses-append ds es

-- Every update's verdict would be taken.
all_taken : List Update → (ℕ → Bool) → Bool
all_taken [] takes = true
all_taken (u ∷ us) takes = takes u.id && all_taken us takes

-- The context is never done.
unfoldable pub undisturbed : List Turn → Bool
unfolding all_taken
undisturbed [] = true
undisturbed (failed ∷ turns) = undisturbed turns
undisturbed (cancelled ∷ turns) = false
undisturbed (batch us takes ∷ turns) = all_taken us takes && undisturbed turns

module _ (atoi : String → Option ℤ) (approvers : String → Bool) where
  -- The verdict that an approver's update means, if its data is one and it is no Submit of nothing.
  unfoldable pub meant : Update → List Press
  meant u = elim (split_verdict atoi u.data_text) [
    | none ↦ []
    | some v ↦
        if approvers (format_int u.from) && not (unbinding v)
        then verdict_of v (format_int u.from) ∷ []
        else []
  ]

  unfoldable pub meant_all : List Update → List Press
  unfolding meant
  meant_all [] = []
  meant_all (u ∷ us) = meant u ++ meant_all us

  -- Those of all batches, in order.
  unfoldable pub meant_turns : List Turn → List Press
  unfolding meant_all
  meant_turns [] = []
  meant_turns (failed ∷ turns) = meant_turns turns
  meant_turns (cancelled ∷ turns) = meant_turns turns
  meant_turns (batch us takes ∷ turns) = meant_all us ++ meant_turns turns

  -- The first list is a beginning of the second, and all of it where the test holds.
  Beginning : Bool → List Press → List Press → Type 0
  Beginning whole ps qs = (rest : List Press) × (ps ++ rest ≡ qs) × (whole ≡ true → rest ≡ [])

  and_right : (a b : Bool) → (a && b) ≡ true → b ≡ true
  and_right true b h = h
  and_right false b h = cc

  -- Of lists that follow one another, the second is a beginning.
  extends :
      {ps qs ws : List Press} (ds es rest : List Press)
      → ps ≡ ds ++ es
      → ds ≡ qs
      → es ++ rest ≡ ws
      → ps ++ rest ≡ qs ++ ws
  extends {qs = qs} ds es rest whole first begins =
      ap (λ x. x ++ rest) whole
      ∙ (append_assoc ds es rest ∙ (ap (λ x. x ++ (es ++ rest)) first ∙ ap (λ x. qs ++ x) begins))

  update-delivers :
      (takes : ℕ → Bool) (u : Update)
      → ((poll_update atoi approvers takes u).1 ≡ true)
          × (presses (poll_update atoi approvers takes u).0 ≡ meant u)
        ⊎ ((poll_update atoi approvers takes u).1 ≡ false)
          × (presses (poll_update atoi approvers takes u).0 ≡ [])
          × (takes u.id ≡ false)
  unfolding poll_update presses meant
  update-delivers takes u = elim (Option-cases (split_verdict atoi u.data_text)) [
    | inl e ↦ elim (Bool-cases (u.data_text == "noop")) [
      | inl noop ↦ rw (e, noop, poll_update, meant) (inl (refl, refl))
      | inr other ↦ rw (e, other, poll_update, meant) (inl (refl, refl))
    ]
    | inr (v, e) ↦
        rw (e, poll_update, meant)
          (elim (Bool-cases (approvers (format_int u.from))) [
            | inr other ↦ rw other (inl (refl, refl))
            | inl ours ↦ elim (Bool-cases (unbinding v)) [
              | inl none_ticked ↦ rw (ours, none_ticked) (inl (refl, refl))
              | inr binding ↦ elim (Bool-cases (takes u.id)) [
                | inl t ↦ rw (ours, binding, t) (inl (refl, refl))
                | inr f ↦ rw (ours, binding, f) (inr (refl, refl, refl))
              ]
            ]
          ])
  ]

  batch-delivers :
      (takes : ℕ → Bool) (us : List Update) (offset : ℕ)
      → ((n : ℕ) × ((poll_batch atoi approvers takes us offset).1 ≡ some n)
          × (presses (poll_batch atoi approvers takes us offset).0 ≡ meant_all us))
        ⊎ ((poll_batch atoi approvers takes us offset).1 ≡ none)
          × Beginning false (presses (poll_batch atoi approvers takes us offset).0) (meant_all us)
          × (all_taken us takes ≡ false)
  unfolding poll_batch meant_all Beginning presses all_taken
  batch-delivers takes [] offset = inl (offset, refl, refl)
  batch-delivers takes (u ∷ us) offset =
      let deeds = (poll_update atoi approvers takes u).0 in
      let more = poll_batch atoi approvers takes us (u.id + 1) in
      elim (update-delivers takes u) [
        | inr (stops, none_now, untaken) ↦
            rw (stops, none_now, untaken) (inr (refl, (meant_all (u ∷ us), refl, λ h. cc), refl))
        | inl (goes_on, now) ↦ elim (batch-delivers takes us (u.id + 1)) [
          | inl (n, end, later) ↦
              rw (goes_on, end)
                (inl (
                  n,
                  refl,
                  presses-append deeds more.0
                      ∙ (ap (λ x. x ++ presses more.0) now ∙ ap (λ x. meant u ++ x) later),
                ))
          | inr (end, (rest, begins, _), untaken) ↦
              let joined =
                extends (presses deeds) (presses more.0) rest (presses-append deeds more.0) now
                  begins in
              rw (goes_on, end, untaken) (inr (refl, (rest, joined, λ h. cc), ground arith))
        ]
      ]

  -- Whatever the answers to getUpdates, the verdicts that Poll delivers are, in order, those that the
  -- approvers' buttons mean, up to where the context is done: the same, if it never is. A button of any
  -- other sender, data that is no verdict, and a Submit of nothing are never delivered.
  pub poll-delivers_meant :
      (turns : List Turn) (offset : ℕ)
      → (rest : List Press) × (presses (poll atoi approvers turns offset) ++ rest
          ≡ meant_turns turns)
        × (undisturbed turns ≡ true → rest ≡ [])
  unfolding poll presses meant_turns undisturbed Beginning
  poll-delivers_meant [] offset = ([], refl, λ h. refl)
  poll-delivers_meant (cancelled ∷ turns) offset = (meant_turns turns, refl, λ h. cc)
  poll-delivers_meant (failed ∷ turns) offset = poll-delivers_meant turns offset
  poll-delivers_meant (batch us takes ∷ turns) offset =
      let first = (poll_batch atoi approvers takes us offset).0 in
      elim (batch-delivers takes us offset) [
        | inl (n, end, now) ↦
            let (rest, begins, whole) = poll-delivers_meant turns n in
            let then_all = poll atoi approvers turns n in
            rw (end, poll, undisturbed, meant_turns, presses)
              (
                rest,
                extends (presses first) (presses then_all) rest
                    (presses-append first (saved n ∷ then_all)) now begins,
                λ h. whole (and_right (all_taken us takes) (undisturbed turns) h),
              )
        | inr (end, (rest, begins, _), untaken) ↦
            rw (end, untaken, undisturbed, poll, append-nil first, presses)
              (
                rest ++ meant_turns turns,
                sym (append_assoc (presses first) rest (meant_turns turns))
                    ∙ ap (λ x. x ++ meant_turns turns) begins,
                λ h. cc,
              )
      ]
