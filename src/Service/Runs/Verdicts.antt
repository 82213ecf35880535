-- ===== src/Service/Runs/Verdicts.antt =====
-- go/internal/service/service.go: a wait that answers "approve" has seen the verdict "approve".
use fado.Base.{
  ℕ, ◌≡◌, ◌≢◌, ◌⊎◌, inl, inr, refl, sym, ap, subst, ◌∙◌, Option, some, List, String, string_eq,
  eq_iff,
}
use fado.Protocol.{VerdictRecord}
use fado.Store.{Store, verdict}
use fado.Service.Waiting.{Round, Answer, Waited, waiting, answered, await}
use fado.Service.Waiting.Answers.{Grounds, Sound, await-Sound}
use fado.Service.Runs.Requests.Confirm.{decision_of}

pub Waited-cases :
    (w : Waited)
    → ((s : Store) × (w ≡ waiting s))
      ⊎ ((a : Option Answer) × (s : Store) × (left : List Round) × (w ≡ answered a s left))
Waited-cases (waiting s) = inl (s, refl)
Waited-cases (answered a s left) = inr (a, s, left, refl)

-- The verdict of the petition is "approve".
abbrev pub IsApproved : String → Store → Type 0
IsApproved rid s = (v : VerdictRecord) × (verdict rid s ≡ some v) × (v.decision ≡ "approve")

IsApproved-pending :
    (rid : String) (s t : Store) → t.pending ≡ s.pending → IsApproved rid s → IsApproved rid t
unfolding verdict
IsApproved-pending rid s t e (v, h, word) = (v, rw e h, word)

words : {s : String} → s ≡ "approve" → s ≢ "approve" → ⊥
words e f = f e

-- An answer "approve" of the wait is a verdict; the word for no answer is another.
Grounds-IsApproved :
    (rid : String) (expires : ℕ) (rs : List Round) (a : Option Answer) (t : Store)
    (word by : String)
    → word ≢ "approve"
    → (decision_of word by a).decision ≡ "approve"
    → Grounds rid expires rs a t
    → IsApproved rid t
Grounds-IsApproved rid expires rs a t word by other e (inl (v, h, f)) =
    (v, h, ap (λ o. (decision_of word by o).decision) (sym f) ∙ e)
Grounds-IsApproved rid expires rs a t word by other e (inr (inl (c, h, f))) =
    absurd (words (ap (λ o. (decision_of word by o).decision) (sym f) ∙ e) (λ g. cc))
Grounds-IsApproved rid expires rs a t word by other e (inr (inr (inl (i, r, h, k, f)))) =
    absurd (other (ap (λ o. (decision_of word by o).decision) (sym f) ∙ e))
Grounds-IsApproved rid expires rs a t word by other e (inr (inr (inr (i, r, h, k, f)))) =
    absurd (words (ap (λ o. (decision_of word by o).decision) (sym f) ∙ e) (λ g. cc))

pub no_timeout : ◌≢◌ {A = String} "timeout" "approve"
no_timeout e = cc ((eq_iff "timeout" "approve").1 e)

pub no_confirmation_timeout : ◌≢◌ {A = String} "confirmation_timeout" "approve"
no_confirmation_timeout e = cc ((eq_iff "confirmation_timeout" "approve").1 e)

pub await-IsApproved :
    (rid : String) (expires : ℕ) (rs left : List Round) (s t : Store) (a : Option Answer)
    (word by : String)
    → await rid expires rs s ≡ answered a t left
    → word ≢ "approve"
    → (decision_of word by a).decision ≡ "approve"
    → IsApproved rid t
await-IsApproved rid expires rs left s t a word by came other e =
    Grounds-IsApproved rid expires rs a t word by other e
      (subst (Sound rid expires rs) came (await-Sound rid expires rs s))
