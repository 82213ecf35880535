-- ===== src/Service/Bot/Requests.antt =====
-- go/internal/service/service.go: TelegramSetConfig and TelegramInfo. `c` and `first` are the
-- configuration and the client that the service began with.
use fado.Base.{
  ℕ, true, false, not, ◌||◌, ◌&&◌, Option, none, some, List, [], ◌∷◌, String, if◌then◌else◌, ◌==◌,
  string_eq, nat_eq, length,
}
use fado.Text.{append_text, trim_space, contains}
use fado.Config.{Conf, OsEnv, UserConfig, normalize_notification_target}
use fado.Protocol.{zero_event}
use fado.Service.Decisions.{Env, is_admin_uid, append}
use fado.Service.Bot.{
  Client, Bot, BotEnv, DynamicState, Me, known, unknown, Saving, kept, lost,
  TelegramSetConfigRequest, TelegramSetConfigResponse, TelegramInfoResponse, failure, unset, get_me,
  base_of, install, target_of, notify_target, not_blank,
}

module _ (os : OsEnv) (c : Conf) (first : Client) (env : Env) (net : BotEnv) where
  -- The token in use where none is asked for.
  unfoldable pub token_of : Option String → DynamicState → String
  token_of none st = st.bot_token
  token_of (some t) st = trim_space t

  unfoldable pub user_config : TelegramSetConfigRequest → String → String → UserConfig
  user_config req token target =
      let chat = trim_space req.chat_id in
      record {
        bot_token = token;
        chat_id = chat;
        approvers =
            if length req.approvers == 0 && not_blank chat then chat ∷ [] else req.approvers;
        notification_target = target;
      }

  -- The client of a token, and the answer to its getMe; an unset token has neither.
  unfoldable pub vetted : String → DynamicState → Client × Me
  unfolding unset get_me
  vetted token st =
      let client : Client = record { token = token; base_url = base_of st.tg_client first } in
      if unset token
      then (record { token = ""; base_url = "" }, known "")
      else (client, get_me net.reply client)

  -- The answer of a request whose file was saved or not.
  unfoldable pub after_saving :
      UserConfig → Client → String → DynamicState → Bot → Saving → Bot × TelegramSetConfigResponse
  after_saving user client username st b (lost err file) =
      (record b { user_file = file }, failure (append_text "failed to save config: " err))
  after_saving user client username st b kept = (
    install user client username st b,
    record { success = true; bot_username = username; error = "" },
  )

  unfoldable pub after_vetting :
      UserConfig → Client → DynamicState → Bot → Me → Bot × TelegramSetConfigResponse
  unfolding after_saving
  after_vetting user client st b (unknown err) =
      (b, failure (append_text "invalid bot token: " err))
  after_vetting user client st b (known username) =
      after_saving user client username st b (net.saving user)

  -- The configuration of a request that asks for this target, if for a known one.
  unfoldable pub set_config_of :
      TelegramSetConfigRequest
      → DynamicState
      → Bot
      → Option String
      → Bot × TelegramSetConfigResponse
  unfolding token_of user_config vetted after_vetting
  set_config_of req st b none =
      (b, failure "invalid notification_target (want telegram|paseo|both)")
  set_config_of req st b (some target) =
      let token = token_of req.bot_token st in
      let (client, me) = vetted token st in
      after_vetting (user_config req token target) client st b me

  -- The request of an admin, in a service with this state.
  unfoldable pub set_config_in :
      TelegramSetConfigRequest → Bot → Option DynamicState → Bot × TelegramSetConfigResponse
  unfolding set_config_of
  set_config_in req b none = (b, failure "service uninitialized")
  set_config_in req b (some st) =
      set_config_of req st b (target_of os c b.state req.notification_target)

  unfoldable pub telegram_set_config :
      TelegramSetConfigRequest → ℕ → Bot → Bot × TelegramSetConfigResponse
  unfolding set_config_in
  telegram_set_config req caller b =
      if not (is_admin_uid env caller)
      then (
        record b { world = append env (record zero_event { ev = "config_unauthorized" }) b.world },
        failure "unauthorized",
      )
      else set_config_in req b b.state

  -- What the answer of getMe leaves in the state.
  unfoldable pub note_me : Me → DynamicState → DynamicState
  note_me (known username) st = record st {
    bot_username = username;
    tg_status = "connected";
    tg_error = "";
  }
  note_me (unknown err) st = record st {
    tg_status =
        if contains err "dial" || contains err "timeout" || contains err "no such host"
        then "disconnected"
        else "error";
    tg_error = err;
  }

  unfoldable pub info_of : DynamicState → TelegramInfoResponse
  info_of st = record {
    configured = true;
    bot_username = st.bot_username;
    chat_id = st.chat_id;
    approvers = st.approvers;
    status = st.tg_status;
    error = st.tg_error;
    notification_target = normalize_notification_target os st.notify_target;
  }

  abbrev unconfigured : String → List String → String → TelegramInfoResponse
  unconfigured chat approvers target = record {
    configured = false;
    bot_username = "";
    chat_id = chat;
    approvers = approvers;
    status = "unconfigured";
    error = "";
    notification_target = target;
  }

  -- TelegramInfo in a service with this state.
  unfoldable pub info_in : Bot → Option DynamicState → Bot × TelegramInfoResponse
  unfolding unset get_me note_me info_of
  info_in b none = (b, unconfigured "" [] (notify_target os c none))
  info_in b (some st) =
      let client = record st.tg_client { base_url = base_of st.tg_client first } in
      let asked = note_me (get_me net.reply client) st in
      if unset st.bot_token
      then (
        b,
        unconfigured st.chat_id st.approvers (normalize_notification_target os st.notify_target),
      )
      else if st.tg_status == "connected" && not_blank st.bot_username
      then (b, info_of st)
      else (record b { state = some asked }, info_of asked)

  unfoldable pub telegram_info : Bot → Bot × TelegramInfoResponse
  unfolding info_in
  telegram_info b = info_in b b.state
