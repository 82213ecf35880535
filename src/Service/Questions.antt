-- ===== src/Service/Questions.antt =====
-- go/internal/service/ask.go: AskWithCancel. A card is a message to Telegram; `placeholder` says that
-- Telegram is not configured.
pub mod Replies
use fado.Base.{
  ℕ, ◌+◌, ◌/◌, Bool, true, false, not, ◌||◌, ◌&&◌, Option, none, some, List, [], ◌∷◌, String, ℤ,
  pos, ltb, if◌then◌else◌, ◌==◌, string_eq, length, any, map, keep_if,
}
use fado.Text.{trim_space, has_prefix, len}
use fado.Protocol.{
  PendingRecord, zero_record, AuditEvent, zero_event, SelectionRecord, CancelRecord,
}
use fado.Store.{Store, load, save, cancel_info, append_event}
use fado.Store.Files.{Fault}
use fado.Store.Writes.{Write, perform_all}
use fado.Service.Host.{Host}
use fado.Service.Decisions.{Env}
use fado.Service.Waiting.{Round, Chosen, unanswered, chosen, gave_up, timed_out, await_selection}
use fado.Service.Lifetimes.{second, seconds, clamp_ttl}
use fado.Service.Notices.{attached}

pub record AskRequest : Type 0 where
  pub question : String
  pub options : List String
  pub link : String
  pub ttl_seconds : ℤ
  pub multi_select : Bool
  pub allow_write_in : Bool
  pub recommended_index : ℤ

pub record AskResult : Type 0 where
  pub status : String
  pub id : String
  pub question : String
  pub selection : String
  pub selection_idx : ℤ
  pub selection_idxs : List ℕ
  pub by : String
  pub reason : String

abbrev pub refusal : String → AskResult
refusal reason = record {
  status = "denied";
  id = "";
  question = "";
  selection = "";
  selection_idx = pos 0;
  selection_idxs = [];
  by = "";
  reason = reason;
}

-- One hour, between 10 seconds and 7 days.
abbrev pub default_ask_ttl : ℕ
default_ask_ttl = 3600000000000

abbrev pub min_ask_ttl : ℕ
min_ask_ttl = 10000000000

abbrev pub max_ask_ttl : ℕ
max_ask_ttl = 604800000000000

unfoldable pub options_of : AskRequest → List String
options_of req = keep_if (λ o. not (o == "")) (map trim_space req.options)

-- Why a request is refused, if it is.
unfoldable pub fault_of : AskRequest → Option String
unfolding options_of
fault_of req =
    let question = trim_space req.question in
    let link = trim_space req.link in
    let opts = options_of req in
    if question == "" || ltb (length opts) 2
    then some "question and at least two options required"
    else if ltb 10 (length opts)
    then some "too many options"
    else if ltb 2000 (len question)
    then some "question too long"
    else if any (λ o. ltb 500 (len o)) opts
    then some "option too long"
    else if not (link == "") && not (has_prefix link "http://") && not (has_prefix link "https://")
    then some "link must be http(s) URL"
    else none

unfoldable pub ask_ttl : Bool → ℤ → ℕ
ask_ttl placeholder secs =
    if placeholder
    then min_ask_ttl
    else clamp_ttl default_ask_ttl min_ask_ttl max_ask_ttl (seconds secs)

-- The record and the card.
unfoldable pub open_question : Host → Bool → AskRequest → ℕ → Store → Store
unfolding attached
open_question os placeholder req uid s =
    let rid = os.new_rid in
    let s1 =
      (save (os.env.fault 0) os.env.now
        (record zero_record {
          uid = uid;
          expires = (os.env.now + ask_ttl placeholder req.ttl_seconds) / second;
          step = "initial";
          kind = "ask";
          question = trim_space req.question;
          options = options_of req;
          link = trim_space req.link;
          multi_select = req.multi_select;
          allow_write_in = req.allow_write_in;
          recommended_index = req.recommended_index;
        })
        rid s).0 in
    attached os 1 rid (
      append_event os.env.ts
        (record zero_event {
          ev = "ask";
          uid = uid;
          rid = rid;
          step = "initial";
          question = trim_space req.question;
          options = options_of req;
          link = trim_space req.link;
        })
        s1)

-- What the wait came to; `none` where its schedule ended first. `writes` is what other goroutines
-- write before the reason of a giving up is read, and `ts` is the time then.
unfoldable pub close_question :
    String → String → ℕ → String → List (Fault × ℕ × Write) → Chosen → Store × Option AskResult
close_question ts rid uid question writes (unanswered s) = (s, none)
close_question ts rid uid question writes (gave_up s left) =
    let t = perform_all writes s in
    elim (cancel_info rid t) [
      | some c ↦ (t, some (record (refusal "cancelled") { id = rid; question = question }))
      | none ↦ (
        append_event ts (record zero_event { ev = "client_aborted"; uid = uid; rid = rid }) t,
        some (record (refusal "client_aborted") { id = rid; question = question }),
      )
    ]
close_question ts rid uid question writes (timed_out s left) = (
  append_event ts (record zero_event { ev = "ask_timeout"; uid = uid; rid = rid }) s,
  some (record (refusal "timeout") { status = "timeout"; id = rid; question = question }),
)
close_question ts rid uid question writes (chosen sel s left) = (
  append_event ts
      (record zero_event {
        ev = "ask_select";
        rid = rid;
        by = sel.by;
        selection = sel.selection;
        selection_idx = sel.selection_idx;
      })
      s,
  some (record {
    status = "selected";
    id = rid;
    question = question;
    selection = sel.selection;
    selection_idx = sel.selection_idx;
    selection_idxs = sel.selection_idxs;
    by = sel.by;
    reason = "";
  }),
)

unfoldable pub ask :
    Host
    → Bool
    → AskRequest
    → ℕ
    → List Round
    → String
    → List (Fault × ℕ × Write)
    → Store
    → Store × Option AskResult
unfolding fault_of open_question
ask os placeholder req uid rounds ts writes s = elim (fault_of req) [
  | some reason ↦ (s, some (refusal reason))
  | none ↦ close_question ts os.new_rid uid (trim_space req.question) writes (
      await_selection os.new_rid (os.env.now + ask_ttl placeholder req.ttl_seconds) rounds
        (open_question os placeholder req uid s))
]
