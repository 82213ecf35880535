-- ===== src/Telegram/Poll/Pumped.antt =====
-- go/internal/telegram/telegram.go and service/service.go: TelegramPump on what Poll delivers.
use Prim.Native.String.{len, find, slice}
use fado.Base.{
  nat_eq, ◌+◌, some_injective, string_eq, ℕ, suc, ◌≡◌, refl, ap, subst, ◌∙◌, inl, inr, Bool, true,
  false, not, ◌||◌, Option, none, some, List, [], ◌∷◌, ◌++◌, String, ℤ, Option-cases, if◌then◌else◌,
  ◌==◌, arith, any, any-append,
}
use fado.Service.Decisions.{World, Env}
use fado.Service.Pump.{Press, press}
use fado.Telegram.Buttons.{
  last_colon, index_of, Pressed, one_index, indices, split_ask, split_page, split_verdict,
}
use fado.Telegram.Poll.{Update, Turn, failed, cancelled, batch, verdict_of, format_int, poll}
use fado.Telegram.Poll.Delivered.{presses, meant, meant_all, meant_turns, poll-delivers_meant}
use fado.Text.{contains, trim_prefix, has_prefix}
use fado.Config.{split}

-- TelegramPump on the verdicts of its channel; the nth one meets the nth answers of the system. `none`
-- is a panic.
unfoldable pub pump : (ℕ → Env) → List Press → World → Option World
pump envs [] w = some w
pump envs (p ∷ ps) w = elim (press (envs 0) p w) [
  | none ↦ none
  | some next ↦ pump (λ n. envs (suc n)) ps next
]

no_page : List ℤ → String → Bool
no_page [] kind = kind == "page"
no_page (i ∷ is) kind = false

-- A page that has no number, which the pump cannot read.
unnumbered : Press → Bool
unfolding no_page
unnumbered p = no_page p.idxs p.decision

Total : Option World → Type 0
Total o = (next : World) × (o ≡ some next)

if-Total :
    (b : Bool) (x y : Option World) → (b ≡ true → Total x) → Total y → Total (if b then x else y)
if-Total true x y f g = f refl
if-Total false x y f g = g

page-Total :
    (is : List ℤ) (kind : String) (w : World)
    → no_page is kind ≡ false
    → (kind == "page") ≡ true
    → Total (elim is [ [] ↦ none | i ∷ more ↦ some w ])
unfolding no_page Total
page-Total [] kind w h e = cc
page-Total (i ∷ is) kind w h e = (w, refl)

toggle-Total :
    (is : List ℤ) (w : World) (f : ℤ → World)
    → Total (elim is [ [] ↦ some w | i ∷ more ↦ some (f i) ])
unfolding Total
toggle-Total [] w f = (w, refl)
toggle-Total (i ∷ is) w f = (f i, refl)

press-Total : (env : Env) (p : Press) (w : World) → unnumbered p ≡ false → Total (press env p w)
unfolding press unnumbered Total
press-Total env p w h = if-Total (p.decision == "page") _ _ (page-Total p.idxs p.decision w h) (
    if-Total (p.decision == "ack") _ _ (λ e. (_, refl))
      (if-Total (p.decision == "asktoggle") _ _ (λ e. toggle-Total p.idxs w _)
        (if-Total (p.decision == "asksubmit") _ _ (λ e. (_, refl))
          (if-Total (p.decision == "ask") _ _ (λ e. (_, refl))
            (if-Total (p.decision == "cancel" || p.decision == "cancelled") _ _ (λ e. (_, refl))
              (_, refl))))))

pump-Total :
    (envs : ℕ → Env) (ps : List Press) (w : World)
    → any unnumbered ps ≡ false
    → Total (pump envs ps w)
unfolding pump Total
pump-Total envs [] w h = (w, refl)
pump-Total envs (p ∷ ps) w h =
    let (next, e) = press-Total (envs 0) p w (ground arith) in
    rw (e, pump) (pump-Total (λ n. envs (suc n)) ps next (ground arith))

module _ (atoi : String → Option ℤ) where
  Numbered : Option Pressed → Type 0
  Numbered o = (v : Pressed) (by : String) → o ≡ some v → unnumbered (verdict_of v by) ≡ false

  if-Numbered :
      (b : Bool) (x y : Option Pressed) → Numbered x → Numbered y → Numbered (if b then x else y)
  if-Numbered true x y f g = f
  if-Numbered false x y f g = g

  none-Numbered : Numbered none
  unfolding Numbered
  none-Numbered v by e = cc

  bind-Numbered {ℓ} :
      {A : Type ℓ} (o : Option A) (f : A → Option Pressed)
      → ((a : A) → Numbered (f a))
      → Numbered (elim o [ none ↦ none | some a ↦ f a ])
  bind-Numbered none f h = none-Numbered
  bind-Numbered (some a) f h = h a

  other-Numbered :
      (kind rid : String) (idxs : List ℕ)
      → (kind == "page") ≡ false
      → Numbered (some (record { kind = kind; rid = rid; idxs = idxs }))
  unfolding Numbered unnumbered no_page
  other-Numbered kind rid [] h v by e =
      subst (λ p. unnumbered (verdict_of p by) ≡ false) (some_injective e) h
  other-Numbered kind rid (i ∷ is) h v by e =
      subst (λ p. unnumbered (verdict_of p by) ≡ false) (some_injective e) refl

  first-Numbered :
      (kind rid : String) (i : ℕ)
      → Numbered (some (record { kind = kind; rid = rid; idxs = i ∷ [] }))
  unfolding Numbered unnumbered no_page
  first-Numbered kind rid i v by e =
      subst (λ p. unnumbered (verdict_of p by) ≡ false) (some_injective e) refl

  one_index-Numbered : (kind rid text : String) → Numbered (one_index atoi kind rid text)
  unfolding one_index
  one_index-Numbered kind rid text =
      bind-Numbered (index_of atoi text) _ (λ i. first-Numbered kind rid i)

  split_ask-Numbered : (text : String) → Numbered (split_ask atoi text)
  unfolding split_ask
  split_ask-Numbered text =
      let sep = find text ":" in
      let rid = slice text 0 sep in
      let tail = slice text (sep + 1) (len text) in
      if-Numbered (not (contains text ":") || sep == 0) _ _ none-Numbered (
        if-Numbered (has_prefix tail "t:") _ _
          (one_index-Numbered "asktoggle" rid (trim_prefix tail "t:"))
          (if-Numbered (has_prefix tail "s:") _ _
            (one_index-Numbered "asksubmit" rid (trim_prefix tail "s:"))
            (bind-Numbered (indices atoi (split 44 tail)) _
              (λ is. other-Numbered "ask" rid is refl))))

  split_page-Numbered : (text : String) → Numbered (split_page atoi text)
  unfolding split_page
  split_page-Numbered text = bind-Numbered (last_colon text) _ (λ (parts : String × String).
      if-Numbered (parts.0 == "" || parts.1 == "") _ _ none-Numbered
        (one_index-Numbered "page" parts.0 parts.1))

  split_verdict-Numbered : (text : String) → Numbered (split_verdict atoi text)
  unfolding split_verdict
  split_verdict-Numbered text =
      if-Numbered (has_prefix text "ask:") _ _ (split_ask-Numbered (trim_prefix text "ask:")) (
        if-Numbered (has_prefix text "page:") _ _ (split_page-Numbered (trim_prefix text "page:")) (
          if-Numbered (has_prefix text "approve:") _ _
            (other-Numbered "approve" (trim_prefix text "approve:") [] refl)
            (if-Numbered (has_prefix text "deny:") _ _
              (other-Numbered "deny" (trim_prefix text "deny:") [] refl)
              (if-Numbered (has_prefix text "ack:") _ _
                (other-Numbered "ack" (trim_prefix text "ack:") [] refl) none-Numbered))))

  module _ (approvers : String → Bool) where
    meant-numbered : (u : Update) → any unnumbered (meant atoi approvers u) ≡ false
    unfolding meant Numbered
    meant-numbered u = elim (Option-cases (split_verdict atoi u.data_text)) [
      | inl e ↦ rw (e, meant) refl
      | inr (v, e) ↦
          let right = split_verdict-Numbered u.data_text v (format_int u.from) e in
          rw (e, meant) (ground (arith, right))
    ]

    meant_all-numbered : (us : List Update) → any unnumbered (meant_all atoi approvers us) ≡ false
    unfolding meant_all
    meant_all-numbered [] = refl
    meant_all-numbered (u ∷ us) =
        any-append unnumbered (meant atoi approvers u) (meant_all atoi approvers us)
        ∙ rw (meant-numbered u, meant_all-numbered us) refl

    meant_turns-numbered :
        (turns : List Turn) → any unnumbered (meant_turns atoi approvers turns) ≡ false
    unfolding meant_turns
    meant_turns-numbered [] = refl
    meant_turns-numbered (failed ∷ turns) = meant_turns-numbered turns
    meant_turns-numbered (cancelled ∷ turns) = meant_turns-numbered turns
    meant_turns-numbered (batch us takes ∷ turns) =
        any-append unnumbered (meant_all atoi approvers us) (meant_turns atoi approvers turns)
        ∙ rw (meant_all-numbered us, meant_turns-numbered turns) refl

    -- TelegramPump takes every verdict that Poll delivers, whatever the answers to getUpdates are and
    -- however its writes go: it never reads the number of a page that has none, which would panic.
    pub pump_survives_poll :
        (envs : ℕ → Env) (turns : List Turn) (offset : ℕ) (w : World)
        → (last : World) × (pump envs (presses (poll atoi approvers turns offset)) w ≡ some last)
    unfolding Total
    pump_survives_poll envs turns offset w =
        let (rest, begins, _) = poll-delivers_meant atoi approvers turns offset in
        let ps = presses (poll atoi approvers turns offset) in
        let whole : any unnumbered (ps ++ rest) ≡ false =
          ap (any unnumbered) begins ∙ meant_turns-numbered turns in
        pump-Total envs ps w (ground (arith, whole, any-append unnumbered ps rest))
