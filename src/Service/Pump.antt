-- ===== src/Service/Pump.antt =====
-- go/internal/service/service.go: TelegramPump and PolicyAddRule. A page is sent to Telegram and changes
-- no state of the daemon.
use fado.Base.{
  ℕ, Bool, true, false, not, ◌||◌, Option, none, some, List, [], ◌∷◌, String, ℤ, pos, negsuc,
  if◌then◌else◌, ◌==◌, string_eq, nat_eq, length, get_elem?,
}
use fado.Text.{append_text, join}
use fado.Protocol.{zero_event}
use fado.Policy.{Policy, Exe}
use fado.Policy.Rules.{refused, added, add_rule}
use fado.Store.{load, ack, consume, select, select_many}
use fado.Service.Decisions.{World, Env, is_admin_uid, append}
use fado.Service.Decisions.Attribution.{clean_by}
use fado.Service.Decisions.Cancels.{cancel_petition}
use fado.Service.Asks.{toggle_ask, submit_ask}

-- What a button of Telegram asks for.
pub record Press : Type 0 where
  pub rid : String
  pub decision : String
  pub by : String
  pub idxs : List ℤ

-- The options at the indices that are in range, and those indices.
unfoldable pub picked : List String → List ℤ → List String × List ℕ
picked options [] = ([], [])
picked options (negsuc n ∷ is) = picked options is
picked options (pos n ∷ is) =
    let (labels, valid) = picked options is in
    elim (get_elem? options n) [ none ↦ (labels, valid) | some label ↦ (label ∷ labels, n ∷ valid) ]

module _ (env : Env) where
  unfoldable pub pick : String → List ℤ → String → World → World
  unfolding picked
  pick rid idxs by w = elim (load rid w.store) [
    | none ↦ w
    | some rec ↦
        let (labels, valid) = picked rec.options idxs in
        elim labels [
          | [] ↦ w
          | label ∷ others ↦ elim valid [
            | [] ↦ w
            | i ∷ more ↦
                if length more == 0
                then record w {
                  store = (select (env.fault 0) env.now rid label (pos i) by w.store).0;
                }
                else record w {
                  store =
                      (select_many (env.fault 0) env.now rid (join ", " (label ∷ others)) (i ∷ more)
                        by w.store).0;
                }
          ]
        ]
  ]

  unfoldable pub acked : String → String → World → World
  acked rid by w =
      let (s, ok) = ack (env.fault 0) env.now rid by w.store in
      if ok
      then append env (record zero_event { ev = "ack"; rid = rid; by = by })
          (record w { store = s })
      else record w { store = s }

  -- `none` is the panic of `v.Idxs[0]` on a page press that has no index.
  unfoldable pub press : Press → World → Option World
  unfolding pick
  press v w =
      let by = clean_by (append_text "telegram:" v.by) in
      if v.decision == "page"
      then elim v.idxs [ [] ↦ none | i ∷ is ↦ some w ]
      else if v.decision == "ack"
      then some (acked v.rid by w)
      else if v.decision == "asktoggle"
      then elim v.idxs [
        | [] ↦ some w
        | i ∷ is ↦ some (record w { store = toggle_ask (env.fault 0) env.now v.rid i w.store })
      ]
      else if v.decision == "asksubmit"
      then some (record w { store = submit_ask (env.fault 0) env.now v.rid by w.store })
      else if v.decision == "ask"
      then some (if length v.idxs == 0 then w else pick v.rid v.idxs by w)
      else if v.decision == "cancel" || v.decision == "cancelled"
      then some
          (cancel_petition env
            (record { id = v.rid; by = append_text "telegram:" v.by; reason = "telegram" }) env.uid
            w).0
      else some
          (record w { store = (consume (env.fault 0) env.now v.rid v.decision v.by w.store).0 })

  -- The policy in use, and the file; an answer is the number of rules or an error.
  unfoldable pub policy_add_rule :
      Exe
      → Bool
      → String
      → String
      → List String
      → ℕ
      → Policy
      → Option Policy
      → World
      → World × (Policy × (Option Policy × (Bool × ℕ)))
  policy_add_rule exe saves target match_type pattern caller p file w =
      if not (is_admin_uid env caller)
      then (
        append env (record zero_event { ev = "policy_unauthorized" }) w,
        (p, (file, (false, 0))),
      )
      else let (file1, end) = add_rule exe saves file target match_type pattern in
        elim end [
          | refused e ↦ (w, (p, (file1, (false, 0))))
          | added q n ↦ (w, (q, (file1, (true, n))))
        ]
