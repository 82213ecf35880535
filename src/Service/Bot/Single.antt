-- ===== src/Service/Bot/Single.antt =====
-- go/internal/service/service.go: the poll that runs after any requests about the bot.
use fado.Base.{
  string_eq, subst, ℕ, ◌≡◌, refl, sym, ◌∙◌, ◌⊎◌, inl, inr, true, false, ◌&&◌, Option, none, some,
  List, [], ◌∷◌, String, ◌==◌, Bool-cases, arith, some_injective,
}
use fado.Config.{Conf, OsEnv, UserConfig}
use fado.Service.Decisions.{World, Env}
use fado.Service.Bot.{
  not_blank, Client, Bot, BotEnv, DynamicState, Poller, Me, known, unknown,
  TelegramSetConfigRequest, unset, install, start_telegram, new_state, without_poller,
}
use fado.Service.Bot.Outcomes.{Refused, Installed, telegram_set_config_ends}
use fado.Service.Bot.Requests.{info_in, note_me, telegram_set_config, telegram_info}

-- A request, with what the system answers it.
pub data Call : Type 0 where
  configures : Env → BotEnv → TelegramSetConfigRequest → ℕ → Call
  informs : Env → BotEnv → Call

-- No poll runs where the token is unset; else one, with the client and the approvers of the state, and
-- it is the one that the state cancels.
pub OnePoll : Bot → DynamicState → Type 0
OnePoll b st =
    ((unset st.bot_token ≡ true) × (b.pollers ≡ []) × (st.cancel_poll ≡ none))
    ⊎ ((unset st.bot_token ≡ false)
        × (p : Poller) × (b.pollers ≡ p ∷ [])
        × (st.cancel_poll ≡ some p.number)
        × (p.client ≡ st.tg_client)
        × (p.approvers ≡ st.approver_set))

pub Consistent : Bot → Type 0
unfolding OnePoll
Consistent b = (st : DynamicState) × (b.state ≡ some st) × OnePoll b st

no-others :
    (b : Bot) (st : DynamicState) → OnePoll b st → without_poller st.cancel_poll b.pollers ≡ []
unfolding OnePoll without_poller
no-others b st (inl (u, none_run, no_cancel)) = rw (none_run, no_cancel) refl
no-others b st (inr (u, p, one, cancels, same_client, same_set)) = rw (one, cancels) (ground arith)

install-Consistent :
    (user : UserConfig) (client : Client) (name : String) (st : DynamicState) (b : Bot)
    → OnePoll b st
    → Consistent (install user client name st b)
unfolding install Consistent OnePoll
install-Consistent user client name st b one = elim (Bool-cases (unset user.bot_token)) [
  | inl u ↦ rw (u, install, no-others b st one) (_, refl, inl (u, refl, refl))
  | inr u ↦ rw (u, install, no-others b st one) (_, refl, inr (u, _, refl, refl, refl, refl))
]

start-Consistent :
    (b : Bot) (st : DynamicState)
    → b.state ≡ some st
    → b.pollers ≡ []
    → st.cancel_poll ≡ none
    → Consistent (start_telegram b)
unfolding start_telegram Consistent OnePoll
start-Consistent b st e idle no_cancel = elim (Bool-cases (unset st.bot_token)) [
  | inl u ↦ rw (e, u, start_telegram) (st, e, inl (u, idle, no_cancel))
  | inr u ↦ rw (e, u, start_telegram, idle) (_, refl, inr (u, _, refl, refl, refl, refl))
]

module _ (os : OsEnv) (c : Conf) (first : Client) where
  unfoldable pub serve : List Call → Bot → Bot
  serve [] b = b
  serve (configures env net req caller ∷ calls) b =
      serve calls (telegram_set_config os c first env net req caller b).0
  serve (informs env net ∷ calls) b = serve calls (telegram_info os c first env net b).0

  telegram_set_config-Consistent :
      (env : Env) (net : BotEnv) (req : TelegramSetConfigRequest) (caller : ℕ) (b : Bot)
      → Consistent b
      → Consistent (telegram_set_config os c first env net req caller b).0
  unfolding Consistent OnePoll Refused Installed
  telegram_set_config-Consistent env net req caller b (st, at, one) =
      elim (telegram_set_config_ends os c first env net req caller b) [
        | inl (failed, same_state, same_pollers, _) ↦ (st, same_state ∙ at, rw same_pollers one)
        | inr (admin, old, e, installed) ↦
            let (target, t, client, met, (saved, after, ok)) = installed in
            rw after (
              install-Consistent _ client _ old b
                (subst (OnePoll b) (some_injective (sym at ∙ e)) one))
      ]

  noted-Consistent :
      (env : Env) (net : BotEnv) (me : Me) (st : DynamicState) (b : Bot)
      → OnePoll b st
      → Consistent (record b { state = some (note_me os c first env net me st) })
  unfolding note_me Consistent OnePoll
  noted-Consistent env net (known name) st b one = (_, refl, one)
  noted-Consistent env net (unknown err) st b one = (_, refl, one)

  info_in-Consistent :
      (env : Env) (net : BotEnv) (b : Bot) (st : DynamicState)
      → b.state ≡ some st
      → OnePoll b st
      → Consistent (info_in os c first env net b (some st)).0
  unfolding info_in Consistent
  info_in-Consistent env net b st e one = elim (Bool-cases (unset st.bot_token)) [
    | inl u ↦ rw (u, info_in) (st, e, one)
    | inr u ↦ elim (Bool-cases (st.tg_status == "connected" && not_blank st.bot_username)) [
      | inl told ↦ rw (u, told, info_in) (st, e, one)
      | inr asks ↦ rw (u, asks, info_in) (noted-Consistent env net _ st b one)
    ]
  ]

  telegram_info-Consistent :
      (env : Env) (net : BotEnv) (b : Bot)
      → Consistent b
      → Consistent (telegram_info os c first env net b).0
  unfolding telegram_info Consistent
  telegram_info-Consistent env net b (st, at, one) =
      subst (λ o. Consistent (info_in os c first env net b o).0) (sym at)
        (info_in-Consistent env net b st at one)

  serve-Consistent : (calls : List Call) (b : Bot) → Consistent b → Consistent (serve calls b)
  unfolding serve
  serve-Consistent [] b ok = ok
  serve-Consistent (configures env net req caller ∷ calls) b ok =
      serve-Consistent calls _ (telegram_set_config-Consistent env net req caller b ok)
  serve-Consistent (informs env net ∷ calls) b ok =
      serve-Consistent calls _ (telegram_info-Consistent env net b ok)

  -- The daemon's bot as it starts.
  unfoldable pub fresh : World → Option UserConfig → Bot
  fresh w file = record {
    state = some (new_state os c);
    user_file = file;
    pollers = [];
    started = 0;
    world = w;
  }

  -- After StartTelegram and any requests about the bot, refused and failed ones included, no poll runs
  -- where the token is unset; else exactly one runs: it is the one that the state cancels, and it has the
  -- client and the approvers of the state.
  pub serve_one_poll :
      (w : World) (file : Option UserConfig) (calls : List Call)
      → Consistent (serve calls (start_telegram (fresh w file)))
  unfolding fresh new_state
  serve_one_poll w file calls =
      serve-Consistent calls _ (start-Consistent (fresh w file) (new_state os c) refl refl refl)
