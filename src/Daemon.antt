-- ===== src/Daemon.antt =====
-- go/internal/daemon/daemon.go: handle, one connection of the socket.
pub mod Framing
pub mod Messages
pub mod Outsiders
pub mod Guarded
use fado.Base.{
  ℕ, Bool, true, false, not, ◌||◌, Option, none, some, List, [], ◌∷◌, String, ℤ, pos, if◌then◌else◌,
  ◌==◌, string_eq,
}
use fado.Text.{append_text, trim_space, join, decimal}
use fado.Config.{OsEnv}
use fado.Policy.{Policy}
use fado.Store.{Store, select}
use fado.Store.Files.{Fault}
use fado.Store.Audit.{audit_query}
use fado.Store.Writes.{Write}
use fado.Service.Decisions.{World, submit, ack_petition}
use fado.Service.Decisions.Cancels.{cancel_petition}
use fado.Service.Pump.{policy_add_rule}
use fado.Service.Notices.{notify}
use fado.Service.Questions.{AskResult, AskRequest, ask}
use fado.Service.Waiting.{Round}
use fado.Service.Runs.{Service, Machine, RunRequest, RunResult}
use fado.Service.Runs.Approved.{with_store}
use fado.Service.Runs.Requests.{run}
use fado.Service.Runs.Requests.Confirm.{Hosts, RunEnd, replies, waits, panics}
use fado.Service.Bot.{Client, Bot, BotEnv, TelegramSetConfigRequest, is_placeholder, notify_paseo}
use fado.Service.Bot.Requests.{telegram_set_config, telegram_info}
use fado.Service.Views.{list_view, recent_view, status_view}
use Framing.{
  Conn, line, too_large, timed_out, malformed, Framed, read_request_line, bound_run_output,
}
use Messages.{
  ClientMessage, SelectRequest, SelectResponse, PolicyAddRuleRequest, VersionResponse, Reply,
  silence, error, verdict_ack, run_result, ask_result, select_response, ack_response,
  cancel_response, pending_list, recent_list, audit_page, status_response, telegram_info_response,
  telegram_set_config_response, policy_response, help_response, version_response, describe, op_keys,
}
use fado.Daemon.Framing.{max_request_bytes, max_response_output_bytes}
use fado.Store.Listing.{is_some}

-- The daemon's state: the store and the commands, the bot, whose `world` is not looked at, the policy in
-- use and the policy's file.
pub record Daemon : Type 0 where
  pub machine : Machine
  pub bot : Bot
  pub policy : Policy
  pub policy_file : Option Policy

-- The connection's peer, and what the system answers while it is handled: the hosts of a run's moments
-- (the first is the one of every other request), the rounds of its waits, the writes and the time behind
-- a question's wait, and what the bot, the policy's file and strconv answer.
pub record Moment : Type 0 where
  pub peer_pid : ℤ
  pub uid : ℕ
  pub at : Hosts
  pub rounds : List Round
  pub late_writes : List (Fault × ℕ × Write)
  pub late_ts : String
  pub net : BotEnv
  pub saves_policy : Bool
  pub parse_time : String → Option ℤ
  pub atoi : String → Option ℤ
  pub itoa : ℕ → String

module _ (os : OsEnv) (svc : Service) (first : Client) (version : VersionResponse)
    (now : Moment) where
  abbrev in_world : World → Daemon → Daemon
  in_world w d = record d { machine = record d.machine { world = w } }

  -- The answer of a request that ends; one that panics or waits on has none.
  unfoldable pub run_reply : RunEnd → Reply
  run_reply (replies r) =
      run_result (record r { output = bound_run_output max_response_output_bytes r.output })
  run_reply waits = silence
  run_reply panics = silence

  unfoldable pub ask_reply : Option AskResult → Reply
  ask_reply none = silence
  ask_reply (some r) = ask_result r

  -- A selection: what is written in goes before what is picked, and the peer's user is the default name.
  unfoldable pub select_handled : SelectRequest → Daemon → Daemon × Reply
  select_handled req d =
      let id = trim_space req.id in
      let picked = trim_space req.selection in
      let write_in = trim_space req.write_in in
      let selection = if not (write_in == "") then write_in else picked in
      let named = trim_space req.by in
      let by = if named == "" then append_text "socket:" (decimal now.uid) else named in
      let env = now.at.made.env in
      if id == "" || selection == ""
      then (d, select_response (record { selected = false; error = "missing id or selection" }))
      else let (s, ok) =
          select (env.fault 0) env.now id selection req.selection_idx by d.machine.world.store in
        let after = in_world (record d.machine.world { store = s }) d in
        if not ok
        then (after, select_response (record { selected = false; error = "selection rejected" }))
        else (after, select_response (record { selected = true; error = "" }))

  unfoldable pub policy_handled : PolicyAddRuleRequest → Daemon → Daemon × Reply
  policy_handled req d =
      let (w, (p, (file, (ok, count)))) =
        policy_add_rule now.at.made.env svc.exe now.saves_policy req.target req.match_type
          req.pattern now.uid d.policy d.policy_file d.machine.world in
      (
        record (in_world w d) { policy = p; policy_file = file },
        policy_response (record { success = ok; rules_count = count }),
      )

  abbrev bot_now : Daemon → Bot
  bot_now d = record d.bot { world = d.machine.world }

  abbrev with_bot : Bot → Daemon → Daemon
  with_bot b d = record (in_world b.world d) { bot = b }

  unfoldable pub config_handled : TelegramSetConfigRequest → Daemon → Daemon × Reply
  config_handled req d =
      let (b, res) =
        telegram_set_config os svc.conf first now.at.made.env now.net req now.uid (bot_now d) in
      (with_bot b d, telegram_set_config_response res)

  unfoldable pub info_handled : Daemon → Daemon × Reply
  info_handled d =
      let (b, res) = telegram_info os svc.conf first now.at.made.env now.net (bot_now d) in
      (with_bot b d, telegram_info_response res)

  unfoldable pub run_handled : RunRequest → Daemon → Daemon × Reply
  unfolding run_reply
  run_handled req d =
      let (m, end) =
        run (record svc { policy = d.policy }) now.at req now.uid now.peer_pid now.rounds
          d.machine in
      (record d { machine = m }, run_reply end)

  unfoldable pub ask_handled : AskRequest → Daemon → Daemon × Reply
  unfolding ask_reply
  ask_handled req d =
      let (s, res) =
        ask now.at.made (is_placeholder svc.conf d.bot.state) req now.uid now.rounds now.late_ts
          now.late_writes d.machine.world.store in
      (in_world (record d.machine.world { store = s }) d, ask_reply res)

  -- The requests that read: the last cases of the switch.
  unfoldable pub read_handled : ClientMessage → Daemon → Reply
  read_handled msg d =
      let host = now.at.made in
      let s = d.machine.world.store in
      if msg.list
      then pending_list (list_view host d.policy (notify_paseo os svc.conf d.bot.state) s)
      else elim msg.recent [
        | some limit ↦ recent_list (recent_view limit s)
        | none ↦ elim msg.audit [
          | some req ↦ audit_page (audit_query now.parse_time now.atoi now.itoa req s)
          | none ↦ elim msg.status [
            | some id ↦ status_response (status_view host d.policy id s)
            | none ↦ silence
          ]
        ]
      ]

  unfoldable pub reads : ClientMessage → Bool
  reads msg = msg.list || is_some msg.recent || is_some msg.audit || is_some msg.status

  -- The help, the version, and the answer to a message that has none of the fields.
  unfoldable pub meta_handled : ClientMessage → Reply
  meta_handled msg = elim msg.help [
    | some op ↦ elim (describe op) [
      | none ↦ error (append_text "unknown-help-op:" op)
      | some infos ↦ help_response infos
    ]
    | none ↦
        if msg.version
        then version_response version
        else error (append_text "unknown-request: valid ops: " (join "," op_keys))
  ]

  -- The cases behind Cancel.
  unfoldable pub handle_rest : ClientMessage → Daemon → Daemon × Reply
  unfolding run_handled read_handled reads info_handled config_handled policy_handled meta_handled
  handle_rest msg d = elim msg.run [
    | some req ↦ run_handled req d
    | none ↦
        if reads msg
        then (d, read_handled msg d)
        else if msg.telegram_info
        then info_handled d
        else elim msg.telegram_set_config [
          | some req ↦ config_handled req d
          | none ↦ elim msg.policy_add_rule [
            | some req ↦ policy_handled req d
            | none ↦ (d, meta_handled msg)
          ]
        ]
  ]

  unfoldable pub handle_message : ClientMessage → Daemon → Daemon × Reply
  unfolding ask_handled select_handled handle_rest
  handle_message msg d =
      let host = now.at.made in
      let w = d.machine.world in
      elim msg.verdict [
        | some sub ↦ let (v, res) = submit host.env sub now.uid w in (in_world v d, verdict_ack res)
        | none ↦ elim msg.notify [
          | some req ↦ let (v, res) = notify host req now.uid w in (in_world v d, run_result res)
          | none ↦ elim msg.ask [
            | some req ↦ ask_handled req d
            | none ↦ elim msg.select [
              | some req ↦ select_handled req d
              | none ↦ elim msg.ack [
                | some sub ↦
                    let (v, res) = ack_petition host.env sub now.uid w in
                    (in_world v d, ack_response res)
                | none ↦ elim msg.cancel [
                  | some req ↦
                      let (v, res) = cancel_petition host.env req now.uid w in
                      (in_world v d, cancel_response res)
                  | none ↦ handle_rest msg d
                ]
              ]
            ]
          ]
        ]
      ]

  -- A connection, where `decode` is json.Unmarshal of a line.
  unfoldable pub handle : (List ℕ → Option ClientMessage) → Conn → Daemon → Daemon × Reply
  unfolding handle_message
  handle decode c d = elim (read_request_line max_request_bytes c) [
    | too_large ↦ (d, error "request-too-large")
    | timed_out ↦ (d, error "request-timeout")
    | malformed ↦ (d, error "malformed-request")
    | line bytes ↦ elim (decode bytes) [
      | none ↦ (d, error "malformed-request")
      | some msg ↦ handle_message msg d
    ]
  ]
