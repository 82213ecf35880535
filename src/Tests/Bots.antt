-- ===== src/Tests/Bots.antt =====
-- A daemon with no bot that is given one, and a stranger's request.
use fado.Base.{ap, ◌≡◌, refl, ◌⊎◌, true, false, none, some, [], ◌∷◌, pos}
use fado.Config.{Conf, OsEnv, UserConfig, load_conf}
use fado.Service.Decisions.{is_admin_uid}
use fado.Service.Bot.{
  Client, Bot, BotEnv, DynamicState, answer, kept, TelegramSetConfigRequest,
  TelegramSetConfigResponse, start_telegram, new_state,
}
use fado.Service.Bot.Requests.{telegram_set_config}
use fado.Service.Bot.Outcomes.{Refused}
use fado.Service.Bot.Effects.{InPlace, telegram_set_config-InPlace}
use fado.Service.Bot.Single.{configures, informs, serve, fresh, Consistent, serve_one_poll}
use fado.Service.Bot.Restart.{bare, SameBot, telegram_set_config_restarts}
use fado.Tests.Decisions.{desk, office}

abbrev nobody : UserConfig
nobody = record { bot_token = ""; chat_id = ""; approvers = []; notification_target = "" }

abbrev pub plain_os : OsEnv
plain_os = record {
  getenv = λ k. "";
  to_lower = λ s. s;
  lines = [];
  user = nobody;
  home = "/home/al";
  path_join = λ a b. a;
}

abbrev plain_conf : Conf
plain_conf = record {
  bot_token = "";
  approvers = [];
  chat_id = "";
  socket = "/run/s";
  state_dir = "/var/s";
  policy = "/p";
  timeout = 300;
  dry_run = false;
  confirm_all = false;
  pager = "";
  notification_target = "both";
  allow_root_exec = false;
  exec_timeout_secs = pos 120;
  max_output_bytes = pos 262144;
  max_telegram_body_bytes = pos 1048576;
}

abbrev pub none_yet : Client
none_yet = record { token = ""; base_url = "" }

abbrev pub internet : BotEnv
internet = record { reply = λ c. answer true "" "fadobot"; saving = λ user. kept }

abbrev give_bot : TelegramSetConfigRequest
give_bot = record {
  bot_token = some " 12:ab ";
  chat_id = "7";
  approvers = [];
  notification_target = "telegram";
}

abbrev pub bot0 : Bot
bot0 = fresh plain_os plain_conf none_yet office none

abbrev given : Bot × TelegramSetConfigResponse
given = telegram_set_config plain_os plain_conf none_yet desk internet give_bot 900 bot0

gets_bot : given.1 ≡ record { success = true; bot_username = "fadobot"; error = "" }
unfolding telegram_set_config is_admin_uid fresh fado.Service.Bot.target_of
    fado.Service.Bot.not_blank fado.Text.trim_space
gets_bot = refl

abbrev with_bot : DynamicState
with_bot = record {
  cancel_poll = some 0;
  bot_username = "fadobot";
  tg_status = "connected";
  tg_error = "";
  bot_token = "12:ab";
  chat_id = "7";
  approvers = "7" ∷ [];
  approver_set = "7" ∷ [];
  tg_client = record { token = "12:ab"; base_url = "" };
  notify_target = "telegram";
}

bot_state : given.0.state ≡ some with_bot
unfolding telegram_set_config is_admin_uid fresh fado.Service.Bot.target_of
    fado.Service.Bot.not_blank fado.Text.trim_space fado.Service.Bot.install
    fado.Service.Bot.base_of new_state
bot_state = refl

telegram_set_config-InPlace_example :
    Refused plain_os plain_conf none_yet desk internet bot0 given
    ⊎ (given.1.success ≡ true)
      × InPlace plain_os plain_conf none_yet desk internet give_bot 900 bot0 given
telegram_set_config-InPlace_example =
    telegram_set_config-InPlace plain_os plain_conf none_yet desk internet give_bot 900 bot0

serve_one_poll_example : Consistent (
    serve plain_os plain_conf none_yet
      (configures desk internet give_bot 7
        ∷ configures desk internet give_bot 900
        ∷ informs desk internet
        ∷ [])
      (start_telegram (fresh plain_os plain_conf none_yet office none)))
serve_one_poll_example = serve_one_poll plain_os plain_conf none_yet office none (
    configures desk internet give_bot 7
    ∷ configures desk internet give_bot 900
    ∷ informs desk internet
    ∷ [])

telegram_set_config_restarts_example :
    (user : UserConfig) × (given.0.user_file ≡ some user)
    × SameBot with_bot (new_state plain_os (load_conf (bare plain_os user) "/run/s" "/var/s"))
telegram_set_config_restarts_example =
    telegram_set_config_restarts plain_os plain_conf none_yet desk internet give_bot 900 bot0
      "/run/s" "/var/s" with_bot (refl, refl, refl) (ap (λ r. r.success) gets_bot) bot_state
      (λ e. cc e)
