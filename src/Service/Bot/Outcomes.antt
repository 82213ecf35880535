-- ===== src/Service/Bot/Outcomes.antt =====
-- go/internal/service/service.go: what TelegramSetConfig changes.
use fado.Base.{ℕ, ◌≡◌, refl, ap, ◌⊎◌, inl, inr, true, false, Option, none, some, String, Bool-cases}
use fado.Config.{Conf, OsEnv, UserConfig}
use fado.Service.Decisions.{Env, is_admin_uid}
use fado.Service.Bot.{
  Client, Bot, BotEnv, DynamicState, Me, known, unknown, kept, lost, Saving,
  TelegramSetConfigRequest, TelegramSetConfigResponse, install, target_of,
}
use fado.Service.Bot.Requests.{
  telegram_set_config, set_config_of, set_config_in, after_vetting, after_saving, token_of,
  user_config, vetted,
}

module _ (os : OsEnv) (c : Conf) (first : Client) (env : Env) (net : BotEnv) where
  -- The request failed, and the state and the polls are as they were.
  unfoldable pub Refused : Bot → Bot × TelegramSetConfigResponse → Type 0
  Refused b (after, res) =
      (res.success ≡ false)
      × (after.state ≡ b.state)
      × (after.pollers ≡ b.pollers)
      × (after.started ≡ b.started)

  -- The request succeeded: the target is a known one, the token is unset or getMe names its bot, the
  -- file was saved, and the state is the one that it says.
  unfoldable pub Installed :
      TelegramSetConfigRequest → DynamicState → Bot → Bot × TelegramSetConfigResponse → Type 0
  Installed req st b (after, res) =
      let token = token_of os c first env net req.bot_token st in
      (target : String) × (target_of os c b.state req.notification_target ≡ some target)
      × (client : Client) × (vetted os c first env net token st ≡ (client, known res.bot_username))
      × (let user = user_config os c first env net req token target in
          (net.saving user ≡ kept)
          × (after ≡ install user client res.bot_username st b)
          × (res.success ≡ true))

  saving_ends :
      (user : UserConfig) (client : Client) (name : String) (st : DynamicState) (b : Bot)
      (s : Saving)
      → Refused b (after_saving os c first env net user client name st b s)
        ⊎ (s ≡ kept)
          × (after_saving os c first env net user client name st b s ≡ (
            install user client name st b,
            record { success = true; bot_username = name; error = "" },
          ))
  unfolding Refused after_saving
  saving_ends user client name st b (lost err file) = inl (refl, refl, refl, refl)
  saving_ends user client name st b kept = inr (refl, refl)

  vetting_ends :
      (user : UserConfig) (client : Client) (st : DynamicState) (b : Bot) (me : Me)
      → Refused b (after_vetting os c first env net user client st b me)
        ⊎ (name : String) × (me ≡ known name)
          × (net.saving user ≡ kept)
          × (after_vetting os c first env net user client st b me ≡ (
            install user client name st b,
            record { success = true; bot_username = name; error = "" },
          ))
  unfolding Refused after_vetting
  vetting_ends user client st b (unknown err) = inl (refl, refl, refl, refl)
  vetting_ends user client st b (known name) =
      elim (saving_ends user client name st b (net.saving user)) [
        | inl refused ↦ inl refused
        | inr (saved, done) ↦ inr (name, refl, saved, done)
      ]

  set_config_of-ends :
      (req : TelegramSetConfigRequest) (st : DynamicState) (b : Bot) (o : Option String)
      → target_of os c b.state req.notification_target ≡ o
      → Refused b (set_config_of os c first env net req st b o)
        ⊎ Installed req st b (set_config_of os c first env net req st b o)
  unfolding Refused Installed set_config_of
  set_config_of-ends req st b none e = inl (refl, refl, refl, refl)
  set_config_of-ends req st b (some target) e =
      let token = token_of os c first env net req.bot_token st in
      let (client, me) = vetted os c first env net token st in
      let user = user_config os c first env net req token target in
      elim (vetting_ends user client st b me) [
        | inl refused ↦ inl refused
        | inr (name, met, saved, done) ↦
            rw (done, set_config_of)
              (inr (target, e, client, ap (λ m. (client, m)) met, (saved, refl, refl)))
      ]

  set_config_in-ends :
      (req : TelegramSetConfigRequest) (b : Bot) (o : Option DynamicState)
      → b.state ≡ o
      → Refused b (set_config_in os c first env net req b o)
        ⊎ (st : DynamicState) × (b.state ≡ some st)
          × Installed req st b (set_config_in os c first env net req b o)
  unfolding Refused set_config_in
  set_config_in-ends req b none e = inl (refl, refl, refl, refl)
  set_config_in-ends req b (some st) e =
      elim (set_config_of-ends req st b (target_of os c b.state req.notification_target) refl) [
        | inl refused ↦ inl refused
        | inr installed ↦ inr (st, e, installed)
      ]

  -- TelegramSetConfig either fails and leaves the bot's state and its polls as they were, or it succeeds:
  -- then the caller is root or the daemon's user, the target is one that is known, the token is unset or
  -- getMe answered the name of its bot, the user's file was saved, and the state and the polls are those
  -- that this configuration gives.
  pub telegram_set_config_ends :
      (req : TelegramSetConfigRequest) (caller : ℕ) (b : Bot)
      → Refused b (telegram_set_config os c first env net req caller b)
        ⊎ (is_admin_uid env caller ≡ true)
          × (st : DynamicState) × (b.state ≡ some st)
          × Installed req st b (telegram_set_config os c first env net req caller b)
  unfolding telegram_set_config Refused
  telegram_set_config_ends req caller b = elim (Bool-cases (is_admin_uid env caller)) [
    | inr outsider ↦ rw outsider (inl (refl, refl, refl, refl))
    | inl admin ↦ elim (set_config_in-ends req b b.state refl) [
      | inl refused ↦ rw (admin, telegram_set_config) (inl refused)
      | inr (st, e, installed) ↦ rw (admin, telegram_set_config) (inr (refl, st, e, installed))
    ]
  ]
