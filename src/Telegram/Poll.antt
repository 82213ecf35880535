-- ===== src/Telegram/Poll.antt =====
-- go/internal/telegram/telegram.go: Poll, which asks for the buttons that were pressed. A turn is one
-- run of its loop; `takes` says of each update whether its verdict is taken before the context is done.
-- Telegram numbers its updates from a positive number on.
pub mod Delivered
pub mod Pumped
use fado.Base.{
  ℕ, suc, ◌+◌, Bool, true, false, not, ◌||◌, ◌&&◌, Option, none, some, List, [], ◌∷◌, ◌++◌, map,
  String, ℤ, pos, negsuc, if◌then◌else◌, ◌==◌, string_eq, nat_eq, length,
}
use fado.Text.{append_text, decimal}
use fado.Service.Pump.{Press}
use fado.Telegram.Buttons.{Pressed, split_verdict}

pub record Update : Type 0 where
  pub id : ℕ
  pub callback_id : String
  pub from : ℤ
  pub data_text : String

-- A turn that fails got no answer, or one that is no JSON; a batch is an answer's updates.
pub data Turn : Type 0 where
  failed : Turn
  cancelled : Turn
  batch : List Update → (ℕ → Bool) → Turn

-- A request from an offset on, an answer to a button, a verdict that was taken, an offset saved.
pub data Deed : Type 0 where
  asked : ℕ → Deed
  answered : String → String → Deed
  delivered : Press → Deed
  saved : ℕ → Deed

-- strconv.FormatInt.
unfoldable pub format_int : ℤ → String
format_int (pos n) = decimal n
format_int (negsuc n) = append_text "-" (decimal (suc n))

unfoldable pub answer_to : String → List ℕ → String
answer_to kind idxs =
    if kind == "approve"
    then "approved — executing"
    else if kind == "ack"
    then "acknowledged"
    else if kind == "ask"
    then "answer recorded"
    else if kind == "asktoggle"
    then "selection updated"
    else if kind == "asksubmit"
    then "answer recorded"
    else if kind == "page"
    then elim idxs [ [] ↦ "page 1" | i ∷ is ↦ append_text "page " (decimal (i + 1)) ]
    else "denied"

-- A Submit that has nothing ticked.
unfoldable pub unbinding : Pressed → Bool
unbinding v = v.kind == "asksubmit" && elim v.idxs [ [] ↦ true | i ∷ is ↦ i == 0 ]

abbrev pub verdict_of : Pressed → String → Press
verdict_of v by = record { rid = v.rid; decision = v.kind; by = by; idxs = map pos v.idxs }

module _ (atoi : String → Option ℤ) (approvers : String → Bool) where
  -- What is done about an update, and whether the loop goes on.
  unfoldable pub poll_update : (ℕ → Bool) → Update → List Deed × Bool
  unfolding unbinding
  poll_update takes u =
      let by = format_int u.from in
      elim (split_verdict atoi u.data_text) [
        | none ↦ (if u.data_text == "noop" then answered u.callback_id "" ∷ [] else [], true)
        | some v ↦
            if not (approvers by)
            then (answered u.callback_id "not authorized" ∷ [], true)
            else if unbinding v
            then (answered u.callback_id "select at least one" ∷ [], true)
            else if not (takes u.id)
            then ([], false)
            else (
              delivered (verdict_of v by) ∷ answered u.callback_id (answer_to v.kind v.idxs) ∷ [],
              true,
            )
      ]

  -- What is done about a batch, and the offset behind it unless the context was done.
  unfoldable pub poll_batch : (ℕ → Bool) → List Update → ℕ → List Deed × Option ℕ
  unfolding poll_update
  poll_batch takes [] offset = ([], some offset)
  poll_batch takes (u ∷ us) offset =
      let (deeds, goes_on) = poll_update takes u in
      let (more, end) = poll_batch takes us (u.id + 1) in
      if goes_on then (deeds ++ more, end) else (deeds, none)

  unfoldable pub poll : List Turn → ℕ → List Deed
  unfolding poll_batch
  poll [] offset = []
  poll (cancelled ∷ turns) offset = []
  poll (failed ∷ turns) offset = asked offset ∷ poll turns offset
  poll (batch us takes ∷ turns) offset =
      let (deeds, end) = poll_batch takes us offset in
      asked offset ∷ (deeds ++ elim end [ none ↦ [] | some next ↦ saved next ∷ poll turns next ])
