-- ===== src/Service/Bot/Effects.antt =====
-- go/internal/service/service.go: what a TelegramSetConfig that succeeds puts in place.
use fado.Base.{
  ℕ, ◌≡◌, ◌≢◌, refl, ap, sym, subst, ◌⊎◌, inl, inr, Bool, true, false, not, ◌||◌, ◌&&◌, Option,
  none, some, nat_beq_iff, List, [], ◌∷◌, String, ◌==◌, string_eq, nat_eq, eq_iff, Bool-cases,
  arith, any, if◌then◌else◌, length,
}
use fado.Text.{trim_space, has_prefix}
use fado.Config.{Conf, OsEnv, UserConfig}
use fado.Service.Decisions.{Env, is_admin_uid}
use fado.Service.Bot.{
  Client, Bot, BotEnv, DynamicState, Poller, Reply, answer, silent, known, kept,
  TelegramSetConfigRequest, TelegramSetConfigResponse, get_me, base_of, install, app_set, not_blank,
  without_poller, target_of, unset,
}
use fado.Service.Bot.Requests.{telegram_set_config, token_of, user_config, vetted}
use fado.Service.Bot.Outcomes.{Refused, Installed, telegram_set_config_ends}
use fado.Service.Bot.Restart.{IsTarget, target_of-IsTarget}

-- The token that is asked for, or the former one.
abbrev pub TokenOf : Option String → String → String → Type 0
TokenOf none former token = token ≡ former
TokenOf (some t) former token = token ≡ trim_space t

-- The approvers that are asked for; the chat, where none are and there is one.
abbrev pub ApproversOf : List String → String → List String → Type 0
ApproversOf (a ∷ others) chat approvers = approvers ≡ a ∷ others
ApproversOf [] chat approvers =
    ((chat ≡ "") × (approvers ≡ [])) ⊎ ((chat ≢ "") × (approvers ≡ chat ∷ []))

-- Who may press a button: the approvers, trimmed, but the blank ones.
abbrev pub MayPress : List String → List String → Type 0
MayPress approvers allowed =
    (x : String)
    → any (λ a. a == x) allowed ≡ (not (x == "") && any (λ a. trim_space a == x) approvers)

-- The polls but the one with that number, if there is one.
abbrev pub Without : Option ℕ → List Poller → List Poller → Type 0
Without none ps qs = qs ≡ ps
Without (some n) ps qs =
    (P : Poller → Bool) → any P qs ≡ any (λ (p : Poller). P p && not (p.number == n)) ps

-- A token that names no bot.
abbrev pub no_token : String → Bool
no_token token = token == "" || has_prefix token "__"

may_press : (approvers : List String) → MayPress approvers (app_set approvers)
unfolding app_set not_blank
may_press [] x = ground arith
may_press (a ∷ others) x =
    let rest = may_press others x in
    ground (arith, eq_iff (trim_space a) x, eq_iff (trim_space a) "", eq_iff x "")

without_some :
    (n : ℕ) (ps : List Poller) (P : Poller → Bool)
    → any P (without_poller (some n) ps) ≡ any (λ (p : Poller). P p && not (p.number == n)) ps
unfolding without_poller
without_some n [] P = refl
without_some n (p ∷ ps) P = let rest = without_some n ps P in ground arith

without : (n : Option ℕ) (ps : List Poller) → Without n ps (without_poller n ps)
unfolding without_poller
without none ps = refl
without (some n) ps = λ P. without_some n ps P

approvers_of :
    (given : List String) (chat : String)
    → ApproversOf given chat (if length given == 0 && not_blank chat then chat ∷ [] else given)
unfolding not_blank
approvers_of (a ∷ others) chat = ground arith
approvers_of [] chat = elim (Bool-cases (chat == "")) [
  | inl e ↦ rw e (inl ((eq_iff chat "").0 e, refl))
  | inr e ↦ rw e (inr (λ z. cc ((eq_iff chat "").1 z, e), refl))
]

token_of-TokenOf :
    (os : OsEnv) (c : Conf) (first : Client) (env : Env) (net : BotEnv) (asked : Option String)
    (st : DynamicState)
    → TokenOf asked st.bot_token (token_of os c first env net asked st)
unfolding token_of
token_of-TokenOf os c first env net none st = refl
token_of-TokenOf os c first env net (some t) st = refl

Reply-cases :
    (r : Reply)
    → ((err : String) × (r ≡ silent err))
      ⊎ ((d : String) × (name : String) × (r ≡ answer true d name))
      ⊎ ((d : String) × (name : String) × (r ≡ answer false d name))
Reply-cases (silent err) = inl (err, refl)
Reply-cases (answer true d name) = inr (inl (d, name, refl))
Reply-cases (answer false d name) = inr (inr (d, name, refl))

-- What getMe answers for a client.
get_me-known :
    (reply : Client → Reply) (c : Client) (name : String)
    → get_me reply c ≡ known name
    → (d : String) × (reply c ≡ answer true d name)
unfolding get_me
get_me-known reply c name e = elim (Bool-cases (unset c.token)) [
  | inl u ↦ absurd (ground (arith, e, u))
  | inr u ↦ elim (Reply-cases (reply c)) [
    | inl (err, r) ↦ absurd (ground (arith, e, u, r))
    | inr (inl (d, other, r)) ↦ (d, ground (arith, e, u, r))
    | inr (inr (d, other, r)) ↦ absurd (ground (arith, e, u, r))
  ]
]

-- The file that was saved says what the state says.
abbrev pub Says : UserConfig → DynamicState → Type 0
Says user st =
    (user.bot_token ≡ st.bot_token)
    × (user.chat_id ≡ st.chat_id)
    × (user.approvers ≡ st.approvers)
    × (user.notification_target ≡ st.notify_target)

-- The polls and the status for the token. A token that names no bot has neither a bot's name nor a poll;
-- any other one was given to getMe, which answered the name, and has one new poll in the place of the
-- former one.
abbrev pub Polls : BotEnv → DynamicState → DynamicState → Bot → Bot → Type 0
Polls net former st b after =
    ((no_token st.bot_token ≡ true)
      × (st.bot_username ≡ "")
      × (st.tg_status ≡ "unconfigured")
      × (st.cancel_poll ≡ none)
      × Without former.cancel_poll b.pollers after.pollers)
    ⊎ ((no_token st.bot_token ≡ false)
        × ((d : String) × (net.reply st.tg_client ≡ answer true d st.bot_username))
        × (st.tg_client.token ≡ st.bot_token)
        × (st.tg_status ≡ "connected")
        × (st.cancel_poll ≡ some b.started)
        × ((p : Poller) × (others : List Poller) × (after.pollers ≡ p ∷ others)
            × (p.number ≡ b.started)
            × (p.client ≡ st.tg_client)
            × (p.approvers ≡ st.approver_set)
            × Without former.cancel_poll b.pollers others))

module _ (os : OsEnv) (c : Conf) (first : Client) (env : Env) (net : BotEnv) where
  -- What a request that succeeds has put in place.
  abbrev pub InPlace : TelegramSetConfigRequest → ℕ → Bot → Bot × TelegramSetConfigResponse → Type 0
  InPlace req caller b (after, res) =
      ((caller ≡ 0) ⊎ (caller ≡ env.uid))
      × (former : DynamicState) × (st : DynamicState) × (b.state ≡ some former)
      × (after.state ≡ some st)
      × TokenOf req.bot_token former.bot_token st.bot_token
      × (st.chat_id ≡ trim_space req.chat_id)
      × ApproversOf req.approvers st.chat_id st.approvers
      × MayPress st.approvers st.approver_set
      × IsTarget st.notify_target
      × ((trim_space req.notification_target ≡ "")
          ⊎ (st.notify_target ≡ os.to_lower (trim_space req.notification_target)))
      × ((user : UserConfig) × (net.saving user ≡ kept)
          × (after.user_file ≡ some user)
          × Says user st)
      × (res.bot_username ≡ st.bot_username)
      × Polls net former st b after

  target_asked :
      (st : Option DynamicState) (raw target : String)
      → target_of os c st raw ≡ some target
      → (trim_space raw ≡ "") ⊎ (target ≡ os.to_lower (trim_space raw))
  unfolding target_of not_blank
  target_asked st raw target e = elim (Bool-cases (trim_space raw == "")) [
    | inl blank ↦ inl ((eq_iff (trim_space raw) "").0 blank)
    | inr word ↦ inr (ground (arith, e, word))
  ]

  admin : (caller : ℕ) → is_admin_uid env caller ≡ true → (caller ≡ 0) ⊎ (caller ≡ env.uid)
  unfolding is_admin_uid
  admin caller h = ground (arith, h, nat_beq_iff caller 0, nat_beq_iff caller env.uid)

  no_name :
      (token name : String) (former : DynamicState) (client : Client)
      → unset token ≡ true
      → vetted os c first env net token former ≡ (client, known name)
      → name ≡ ""
  unfolding vetted
  no_name token name former client u v = ground (arith, u, v)

  met :
      (token name : String) (former : DynamicState) (client : Client)
      → unset token ≡ false
      → vetted os c first env net token former ≡ (client, known name)
      → (client.token ≡ token) × ((d : String) × (net.reply client ≡ answer true d name))
  unfolding vetted
  met token name former client u v =
      let asked : Client = record { token = token; base_url = base_of former.tg_client first } in
      let same : asked ≡ client = ground (arith, u, v) in
      let answers : get_me net.reply asked ≡ known name = ground (arith, u, v) in
      (
        ap (λ (k : Client). k.token) (sym same),
        subst (λ k. (d : String) × (net.reply k ≡ answer true d name)) same
            (get_me-known net.reply asked name answers),
      )

  module _ (req : TelegramSetConfigRequest) (caller : ℕ) (former : DynamicState) (b : Bot)
      (target : String) (client : Client) (res : TelegramSetConfigResponse)
      (allowed : is_admin_uid env caller ≡ true) (e : b.state ≡ some former)
      (t : target_of os c b.state req.notification_target ≡ some target)
      (v : vetted os c first env net (token_of os c first env net req.bot_token former) former
        ≡ (client, known res.bot_username))
      (saved : net.saving (
          user_config os c first env net req
            (token_of os c first env net req.bot_token former)
            target)
        ≡ kept) where
    install-InPlace : InPlace req caller b (
      install
          (user_config os c first env net req
            (token_of os c first env net req.bot_token former)
            target)
          client
          res.bot_username
          former
          b,
      res,
    )
    unfolding user_config install trim_space
    install-InPlace =
        let token = token_of os c first env net req.bot_token former in
        let user = user_config os c first env net req token target in
        let next : DynamicState = record {
          cancel_poll = none;
          bot_username = res.bot_username;
          tg_status = "unconfigured";
          tg_error = "";
          bot_token = token;
          chat_id = user.chat_id;
          approvers = user.approvers;
          approver_set = app_set user.approvers;
          tg_client = client;
          notify_target = target;
        } in
        let asked = token_of-TokenOf os c first env net req.bot_token former in
        let given = approvers_of req.approvers user.chat_id in
        let known_one = target_of-IsTarget os c b.state req.notification_target target t in
        let word = target_asked b.state req.notification_target target t in
        let may = may_press user.approvers in
        let others = without former.cancel_poll b.pollers in
        elim (Bool-cases (unset token)) [
          | inl u ↦
              rw (u, install)
                (
                  admin caller allowed,
                  former,
                  next,
                  e,
                  refl,
                  asked,
                  refl,
                  given,
                  may,
                  known_one,
                  word,
                  (user, saved, refl, (refl, refl, refl, refl)),
                  refl,
                  inl (u, no_name token res.bot_username former client u v, refl, refl, others),
                )
          | inr u ↦
              let live = record next { tg_status = "connected"; cancel_poll = some b.started } in
              let (same, answers) = met token res.bot_username former client u v in
              rw (u, install)
                (
                  admin caller allowed,
                  former,
                  live,
                  e,
                  refl,
                  asked,
                  refl,
                  given,
                  may,
                  known_one,
                  word,
                  (user, saved, refl, (refl, refl, refl, refl)),
                  refl,
                  inr (u, answers, same, refl, refl, (_, _, refl, refl, refl, refl, others)),
                )
        ]

  -- TelegramSetConfig either fails and leaves the bot's state and its polls as they were, or it succeeds:
  -- then the caller is root or the daemon's user; the state has the token, the chat and the approvers
  -- that were asked for (the former token where none was, the chat where there is no approver), one of
  -- the three targets, the one that was asked for, if any was, and the set of those who may press a
  -- button; the file that was saved says the same. A token that names no bot has no poll. For any other
  -- one, getMe answered the name that is in the state, and one new poll has that client and that set; the
  -- former poll is gone, and the others are as they were.
  pub telegram_set_config-InPlace :
      (req : TelegramSetConfigRequest) (caller : ℕ) (b : Bot)
      → Refused os c first env net b (telegram_set_config os c first env net req caller b)
        ⊎ ((telegram_set_config os c first env net req caller b).1.success ≡ true)
          × InPlace req caller b (telegram_set_config os c first env net req caller b)
  unfolding Installed
  telegram_set_config-InPlace req caller b =
      let r = telegram_set_config os c first env net req caller b in
      elim (telegram_set_config_ends os c first env net req caller b) [
        | inl refused ↦ inl refused
        | inr (allowed, former, e, installed) ↦
            let (target, t, client, v, (saved, after, ok)) = installed in
            inr (
              ok,
              subst (λ n. InPlace req caller b (n, r.1)) (sym after)
                  (install-InPlace req caller former b target client r.1 allowed e t v saved),
            )
      ]
