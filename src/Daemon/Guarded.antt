-- ===== src/Daemon/Guarded.antt =====
-- go/internal/daemon/daemon.go: what the messages of a peer that is neither root nor the daemon's user
-- leave as it is.
use fado.Base.{
  string_eq, ◌≡◌, refl, sym, ap, inl, inr, Bool, true, false, not, ◌||◌, ◌&&◌, Option, none, some,
  List, String, if◌then◌else◌, ◌==◌, Bool-cases, Option-cases,
}
use fado.Config.{OsEnv}
use fado.Text.{trim_space, append_text, decimal}
use fado.Store.{select, append_event}
use fado.Store.Approvals.{
  NoNewApproval, NoNewApproval-refl, NoNewApproval-pending, select-NoNewApproval,
}
use fado.Service.Decisions.{append, World, is_admin_uid, append}
use fado.Service.Runs.{Service}
use fado.Service.Bot.{not_blank, unset, unknown, known, Me, Client, Bot, DynamicState}
use fado.Service.Decisions.Refusals.{submit-Untouched, ack_petition-Untouched}
use fado.Service.Pump.{policy_add_rule}
use fado.Service.Bot.Requests.{telegram_set_config, telegram_info, info_in, note_me}
use fado.Daemon.{
  bot_now, TelegramSetConfigRequest, reads, telegram_info, telegram_set_config, policy_add_rule,
  Daemon, Moment, handle_message, select_handled, policy_handled, config_handled, info_handled,
  handle_rest,
}
use fado.Daemon.Messages.{
  ClientMessage, SelectRequest, PolicyAddRuleRequest, Reply, VersionResponse,
}
use fado.Daemon.Outsiders.{Quiet, notify-Quiet, cancel_petition-Quiet}
use fado.Service.Bot.Requests.{note_me}
use fado.Store.{append_event}

-- What decides over the bot: its token, its chat, its approvers and its target.
pub record BotConfig : Type 0 where
  pub token : String
  pub chat_id : String
  pub approvers : List String
  pub approver_set : List String
  pub target : String

unfoldable pub config_of : DynamicState → BotConfig
config_of st = record {
  token = st.bot_token;
  chat_id = st.chat_id;
  approvers = st.approvers;
  approver_set = st.approver_set;
  target = st.notify_target;
}

unfoldable pub bot_config : Option DynamicState → Option BotConfig
unfolding config_of
bot_config none = none
bot_config (some st) = some (config_of st)

-- The policy and its file, the bot's configuration and polls, and the commands that were started and the
-- groups that were stopped are as before, and every approval was there before.
pub record Guarded (d e : Daemon) : Type 0 where
  pub policy : e.policy ≡ d.policy
  pub policy_file : e.policy_file ≡ d.policy_file
  pub bot : bot_config e.bot.state ≡ bot_config d.bot.state
  pub pollers : e.bot.pollers ≡ d.bot.pollers
  pub spawned : e.machine.spawned ≡ d.machine.spawned
  pub stopped : e.machine.stopped ≡ d.machine.stopped
  pub approvals : NoNewApproval d.machine.world.store e.machine.world.store

Guarded-refl : (d : Daemon) → Guarded d d
Guarded-refl d = record {
  policy = refl;
  policy_file = refl;
  bot = refl;
  pollers = refl;
  spawned = refl;
  stopped = refl;
  approvals = NoNewApproval-refl d.machine.world.store;
}

-- Only the world changes, and no approval comes.
world-Guarded :
    (w : World) (d : Daemon)
    → Quiet d.machine.world w
    → Guarded d (record d { machine = record d.machine { world = w } })
world-Guarded w d quiet = record {
  policy = refl;
  policy_file = refl;
  bot = refl;
  pollers = refl;
  spawned = refl;
  stopped = refl;
  approvals = quiet;
}

Guarded-if_pair :
    (b : Bool) (d : Daemon) (x y : Daemon × Reply)
    → Guarded d x.0
    → Guarded d y.0
    → Guarded d (if b then x else y).0
Guarded-if_pair true d x y p q = p
Guarded-if_pair false d x y p q = q

module _ (os : OsEnv) (svc : Service) (first : Client) (version : VersionResponse) (now : Moment)
    (outsider : is_admin_uid now.at.made.env now.uid ≡ false) where
  select-Guarded :
      (req : SelectRequest) (d : Daemon)
      → Guarded d (select_handled os svc first version now req d).0
  unfolding select_handled
  select-Guarded req d =
      let id = trim_space req.id in
      let picked = trim_space req.selection in
      let write_in = trim_space req.write_in in
      let selection = if not (write_in == "") then write_in else picked in
      let named = trim_space req.by in
      let by = if named == "" then append_text "socket:" (decimal now.uid) else named in
      let env = now.at.made.env in
      let w = d.machine.world in
      let done =
        world-Guarded _ d
          (select-NoNewApproval (env.fault 0) env.now w.store id selection req.selection_idx by) in
      Guarded-if_pair (id == "" || selection == "") d _ _ (Guarded-refl d) (
        Guarded-if_pair
          (not (select (env.fault 0) env.now id selection req.selection_idx by w.store).1) d _ _
          done done)

  policy-Guarded :
      (req : PolicyAddRuleRequest) (d : Daemon)
      → Guarded d (policy_handled os svc first version now req d).0
  unfolding policy_handled policy_add_rule append append_event
  policy-Guarded req d =
      rw (outsider, policy_handled) (world-Guarded _ d (NoNewApproval-pending _ _ refl))

  config-Guarded :
      (req : TelegramSetConfigRequest) (d : Daemon)
      → Guarded d (config_handled os svc first version now req d).0
  unfolding config_handled telegram_set_config append append_event
  config-Guarded req d =
      rw (outsider, config_handled)
        (record {
          policy = refl;
          policy_file = refl;
          bot = refl;
          pollers = refl;
          spawned = refl;
          stopped = refl;
          approvals = NoNewApproval-pending _ _ refl;
        })

  -- What TelegramInfo leaves: the polls, the world and the configuration.
  Informed : Bot → Bot → Type 0
  Informed b c =
      (c.pollers ≡ b.pollers) × (c.world ≡ b.world) × (bot_config c.state ≡ bot_config b.state)

  noted-Informed :
      (me : Me) (st : DynamicState) (b : Bot)
      → b.state ≡ some st
      → Informed b
          (record b { state = some (note_me os svc.conf first now.at.made.env now.net me st) })
  unfolding note_me config_of Informed bot_config
  noted-Informed (known name) st b e = (refl, refl, sym (ap bot_config e))
  noted-Informed (unknown err) st b e = (refl, refl, sym (ap bot_config e))

  info_in-Informed :
      (b : Bot) (o : Option DynamicState)
      → b.state ≡ o
      → Informed b (info_in os svc.conf first now.at.made.env now.net b o).0
  unfolding info_in Informed
  info_in-Informed b none e = (refl, refl, refl)
  info_in-Informed b (some st) e = elim (Bool-cases (unset st.bot_token)) [
    | inl u ↦ rw (u, info_in) (refl, refl, refl)
    | inr u ↦ elim (Bool-cases (st.tg_status == "connected" && not_blank st.bot_username)) [
      | inl told ↦ rw (u, told, info_in) (refl, refl, refl)
      | inr asks ↦ rw (u, asks, info_in) (noted-Informed _ st b e)
    ]
  ]

  info-Guarded : (d : Daemon) → Guarded d (info_handled os svc first version now d).0
  unfolding info_handled telegram_info Informed
  info-Guarded d =
      let b = bot_now os svc first version now d in
      let (pollers, world, config) = info_in-Informed b b.state refl in
      record {
        policy = refl;
        policy_file = refl;
        bot = config;
        pollers = pollers;
        spawned = refl;
        stopped = refl;
        approvals = NoNewApproval-pending _ _ (ap (λ (w : World). w.store.pending) world);
      }

  rest-Guarded :
      (msg : ClientMessage) (d : Daemon)
      → msg.run ≡ none
      → Guarded d (handle_rest os svc first version now msg d).0
  unfolding handle_rest
  rest-Guarded msg d no_run =
      rw (no_run, handle_rest)
        (Guarded-if_pair (reads os svc first version now msg) d _ _ (Guarded-refl d) (
          Guarded-if_pair msg.telegram_info d _ _ (info-Guarded d)
            (elim (Option-cases msg.telegram_set_config) [
              | inr (req, e) ↦ rw e (config-Guarded req d)
              | inl t ↦ elim (Option-cases msg.policy_add_rule) [
                | inr (req, e) ↦ rw (t, e) (policy-Guarded req d)
                | inl p ↦ rw (t, p) (Guarded-refl d)
              ]
            ])))

  -- Of a message of a peer that is neither root nor the daemon's user, and that asks neither for a run nor
  -- a question, the daemon's policy, the policy's file, the bot's configuration and its polls, and the
  -- commands started and groups stopped stay as they are, and every verdict "approve" was there before.
  pub handle_message-Guarded :
      (msg : ClientMessage) (d : Daemon)
      → msg.run ≡ none
      → msg.ask ≡ none
      → Guarded d (handle_message os svc first version now msg d).0
  unfolding handle_message
  handle_message-Guarded msg d no_run no_ask = elim (Option-cases msg.verdict) [
    | inr (sub, e) ↦
        let (same, _) = submit-Untouched now.at.made.env now.uid d.machine.world outsider sub in
        rw (e, handle_message) (world-Guarded _ d (NoNewApproval-pending _ _ same.0))
    | inl v ↦ elim (Option-cases msg.notify) [
      | inr (req, e) ↦
          rw (v, e, handle_message)
            (world-Guarded _ d (notify-Quiet now.at.made req now.uid d.machine.world))
      | inl n ↦ elim (Option-cases msg.select) [
        | inr (req, e) ↦ rw (v, n, no_ask, e, handle_message) (select-Guarded req d)
        | inl s ↦ elim (Option-cases msg.ack) [
          | inr (sub, e) ↦
              let (same, _) =
                ack_petition-Untouched now.at.made.env now.uid d.machine.world outsider sub in
              rw (v, n, no_ask, s, e, handle_message)
                (world-Guarded _ d (NoNewApproval-pending _ _ same.0))
          | inl a ↦ elim (Option-cases msg.cancel) [
            | inr (req, e) ↦
                rw (v, n, no_ask, s, a, e, handle_message)
                  (world-Guarded _ d
                    (cancel_petition-Quiet now.at.made.env req now.uid d.machine.world))
            | inl c ↦ rw (v, n, no_ask, s, a, c, handle_message) (rest-Guarded msg d no_run)
          ]
        ]
      ]
    ]
  ]
