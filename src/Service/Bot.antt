-- ===== src/Service/Bot.antt =====
-- go/internal/service/service.go: the bot that the daemon runs, its configuration and its poll, which a
-- request can change while the daemon runs; and GetMe of go/internal/telegram/telegram.go. `OsEnv` is
-- that of the configuration, the reply to getMe and what saving does are BotEnv's.
pub mod Requests
pub mod Outcomes
pub mod Single
pub mod Restart
pub mod Effects
use fado.Base.{
  ℕ, zero, suc, ◌+◌, Bool, true, false, not, ◌||◌, ◌&&◌, Option, none, some, List, [], ◌∷◌, map,
  String, if◌then◌else◌, ◌==◌, string_eq, nat_eq, keep_if, length,
}
use fado.Text.{append_text, trim_space, has_prefix, contains}
use fado.Config.{Conf, OsEnv, UserConfig, approver_set, placeholder, normalize_notification_target}
use fado.Protocol.{zero_event}
use fado.Store.Offset.{get_offset}
use fado.Service.Decisions.{World, Env, is_admin_uid, append}

pub record Client : Type 0 where
  pub token : String
  pub base_url : String

-- What getMe answers: nothing that can be read, with the text of the error, or an apiUserResult.
pub data Reply : Type 0 where
  silent : String → Reply
  answer : Bool → String → String → Reply

pub data Me : Type 0 where
  known : String → Me
  unknown : String → Me

-- A poll that runs: its number, its client, the offset that it started from, and its approvers.
pub record Poller : Type 0 where
  pub number : ℕ
  pub client : Client
  pub offset : ℕ
  pub approvers : List String

-- `cancel_poll` has the number of the poll that it cancels.
pub record DynamicState : Type 0 where
  pub cancel_poll : Option ℕ
  pub bot_username : String
  pub tg_status : String
  pub tg_error : String
  pub bot_token : String
  pub chat_id : String
  pub approvers : List String
  pub approver_set : List String
  pub tg_client : Client
  pub notify_target : String

-- The service's state, the user's configuration file, the polls, and how many were started.
pub record Bot : Type 0 where
  pub state : Option DynamicState
  pub user_file : Option UserConfig
  pub pollers : List Poller
  pub started : ℕ
  pub world : World

-- SaveUserConfig's end; one that fails may have left any file.
pub data Saving : Type 0 where
  kept : Saving
  lost : String → Option UserConfig → Saving

pub record BotEnv : Type 0 where
  pub reply : Client → Reply
  pub saving : UserConfig → Saving

pub record TelegramSetConfigRequest : Type 0 where
  pub bot_token : Option String
  pub chat_id : String
  pub approvers : List String
  pub notification_target : String

pub record TelegramSetConfigResponse : Type 0 where
  pub success : Bool
  pub bot_username : String
  pub error : String

pub record TelegramInfoResponse : Type 0 where
  pub configured : Bool
  pub bot_username : String
  pub chat_id : String
  pub approvers : List String
  pub status : String
  pub error : String
  pub notification_target : String

unfoldable pub unset : String → Bool
unset token = token == "" || has_prefix token "__"

unfoldable pub get_me : (Client → Reply) → Client → Me
unfolding unset
get_me reply c = if unset c.token then unknown "token is unconfigured" else elim (reply c) [
  | silent err ↦ unknown err
  | answer ok description username ↦
      if ok
      then known username
      else if not (description == "")
      then unknown (append_text "telegram api error: " description)
      else unknown "telegram api: !ok"
]

abbrev pub failure : String → TelegramSetConfigResponse
failure error = record { success = false; bot_username = ""; error = error }

unfoldable pub not_blank : String → Bool
not_blank a = not (a == "")

-- The approvers that are not blank, trimmed.
unfoldable pub app_set : List String → List String
unfolding not_blank
app_set approvers = keep_if not_blank (map trim_space approvers)

unfoldable pub without_poller : Option ℕ → List Poller → List Poller
without_poller none ps = ps
without_poller (some n) ps = keep_if (λ (p : Poller). not (p.number == n)) ps

module _ (os : OsEnv) where
  -- The state that New makes.
  unfoldable pub new_state : Conf → DynamicState
  new_state c = record {
    cancel_poll = none;
    bot_username = "";
    tg_status = if placeholder c then "unconfigured" else "connected";
    tg_error = "";
    bot_token = c.bot_token;
    chat_id = c.chat_id;
    approvers = c.approvers;
    approver_set = approver_set c;
    tg_client = record { token = c.bot_token; base_url = "" };
    notify_target = normalize_notification_target os c.notification_target;
  }

  unfoldable pub notify_target : Conf → Option DynamicState → String
  notify_target c none = normalize_notification_target os c.notification_target
  notify_target c (some st) =
      if not (st.notify_target == "")
      then normalize_notification_target os st.notify_target
      else normalize_notification_target os c.notification_target

  unfoldable pub notify_paseo : Conf → Option DynamicState → Bool
  unfolding notify_target
  notify_paseo c st = not (notify_target c st == "telegram")

  unfoldable pub notify_telegram : Conf → Option DynamicState → Bool
  unfolding notify_target
  notify_telegram c st = not (notify_target c st == "paseo")

  -- The target that is asked for, the one in use where none is, or none for an unknown word.
  unfoldable pub target_of : Conf → Option DynamicState → String → Option String
  unfolding notify_target
  target_of c st raw =
      let word = os.to_lower (trim_space raw) in
      if not_blank (trim_space raw)
      then if not (word == "telegram") && not (word == "paseo") && not (word == "both")
        then none
        else some word
      else some (notify_target c st)

-- StartTelegram. The context that it polls under is never done before the daemon is.
unfoldable pub start_telegram : Bot → Bot
unfolding unset
start_telegram b = elim b.state [
  | none ↦ b
  | some st ↦ if unset st.bot_token then b else record b {
    state = some (record st { cancel_poll = some b.started });
    pollers =
        record {
          number = b.started;
          client = st.tg_client;
          offset = get_offset b.world.store;
          approvers = st.approver_set;
        }
        ∷ b.pollers;
    started = suc b.started;
  }
]

unfoldable pub is_placeholder : Conf → Option DynamicState → Bool
unfolding unset
is_placeholder c none = placeholder c
is_placeholder c (some st) = unset st.bot_token

first_of : List String → String → String
first_of [] id = id
first_of (a ∷ others) id = a

unfoldable pub active_chat_id : Conf → Option DynamicState → String
unfolding first_of
active_chat_id c none = if not (c.chat_id == "") then c.chat_id else first_of c.approvers ""
active_chat_id c (some st) =
    let static = if not (c.chat_id == "") then c.chat_id else first_of c.approvers "" in
    if not (st.chat_id == "") then st.chat_id else first_of st.approvers static

-- The base address of a new client: the one of the state, else the one that the service began with.
unfoldable pub base_of : Client → Client → String
base_of current first = if not (current.base_url == "") then current.base_url else first.base_url

-- What TelegramSetConfig puts in place once the file is saved.
unfoldable pub install : UserConfig → Client → String → DynamicState → Bot → Bot
unfolding unset app_set without_poller
install user client username st b =
    let set = app_set user.approvers in
    let others = without_poller st.cancel_poll b.pollers in
    let next = record st {
      cancel_poll = none;
      bot_token = user.bot_token;
      chat_id = user.chat_id;
      approvers = user.approvers;
      notify_target = user.notification_target;
      approver_set = set;
      tg_client = client;
      bot_username = username;
      tg_error = "";
    } in
    if unset user.bot_token
    then record b {
      state = some (record next { tg_status = "unconfigured" });
      user_file = some user;
      pollers = others;
    }
    else record b {
      state = some (record next { tg_status = "connected"; cancel_poll = some b.started });
      user_file = some user;
      pollers =
          record {
            number = b.started;
            client = client;
            offset = get_offset b.world.store;
            approvers = set;
          }
          ∷ others;
      started = suc b.started;
    }
