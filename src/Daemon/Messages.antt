-- ===== src/Daemon/Messages.antt =====
-- go/internal/protocol/protocol.go: the envelope of a request, the socket's operations and its answers.
-- A request that has no fields is a flag; OpInfo is without the shapes of the fields.
use fado.Base.{
  ℕ, Bool, Option, none, some, List, [], ◌∷◌, map, String, ℤ, if◌then◌else◌, ◌==◌, string_eq,
}
use fado.Protocol.{StatusResponse, PendingItem, RecentItem, AuditQueryRequest}
use fado.Store.Audit.{Page}
use fado.Service.Decisions.{
  VerdictSubmit, VerdictAck, AckSubmit, AckResponse, CancelRequest, CancelResponse,
}
use fado.Service.Notices.{NotifyRequest}
use fado.Service.Questions.{AskRequest, AskResult}
use fado.Service.Runs.{RunRequest, RunResult}
use fado.Service.Bot.{TelegramSetConfigRequest, TelegramSetConfigResponse, TelegramInfoResponse}

pub record SelectRequest : Type 0 where
  pub id : String
  pub selection : String
  pub selection_idx : ℤ
  pub write_in : String
  pub by : String

pub record SelectResponse : Type 0 where
  pub selected : Bool
  pub error : String

pub record PolicyAddRuleRequest : Type 0 where
  pub target : String
  pub match_type : String
  pub pattern : List String

-- Without the text of its error.
pub record PolicyAddRuleResponse : Type 0 where
  pub success : Bool
  pub rules_count : ℕ

pub record VersionResponse : Type 0 where
  pub version : String
  pub git_commit : String
  pub build_time : String
  pub binary_sha256 : String
  pub pid : ℤ

pub record ClientMessage : Type 0 where
  pub run : Option RunRequest
  pub verdict : Option VerdictSubmit
  pub notify : Option NotifyRequest
  pub ask : Option AskRequest
  pub select : Option SelectRequest
  pub ack : Option AckSubmit
  pub cancel : Option CancelRequest
  pub list : Bool
  pub recent : Option ℤ
  pub audit : Option AuditQueryRequest
  pub status : Option String
  pub telegram_info : Bool
  pub telegram_set_config : Option TelegramSetConfigRequest
  pub policy_add_rule : Option PolicyAddRuleRequest
  pub version : Bool
  pub help : Option String

pub record OpInfo : Type 0 where
  pub op : String
  pub request : String
  pub response : String

op_info : String → String → String → OpInfo
op_info op request response = record { op = op; request = request; response = response }

-- The fields of ClientMessage, in their order, with responseTypes.
unfoldable pub ops : List OpInfo
unfolding op_info
ops =
    op_info "run" "RunRequest" "RunResult"
    ∷ op_info "verdict" "VerdictSubmit" "VerdictAck"
    ∷ op_info "notify" "NotifyRequest" "RunResult"
    ∷ op_info "ask" "AskRequest" "AskResult"
    ∷ op_info "select" "SelectRequest" "SelectResponse"
    ∷ op_info "ack" "AckSubmit" "AckResponse"
    ∷ op_info "cancel" "CancelRequest" "CancelResponse"
    ∷ op_info "list" "ListRequest" "PendingList"
    ∷ op_info "recent" "RecentRequest" "RecentList"
    ∷ op_info "audit" "AuditQueryRequest" "AuditQueryResponse"
    ∷ op_info "status" "StatusRequest" "StatusResponse"
    ∷ op_info "telegram_info" "TelegramInfoRequest" "TelegramInfoResponse"
    ∷ op_info "telegram_set_config" "TelegramSetConfigRequest" "TelegramSetConfigResponse"
    ∷ op_info "policy_add_rule" "PolicyAddRuleRequest" "PolicyAddRuleResponse"
    ∷ op_info "version" "VersionRequest" "VersionResponse"
    ∷ op_info "help" "HelpRequest" "HelpResponse"
    ∷ []

unfoldable pub op_keys : List String
unfolding ops
op_keys = map (λ (i : OpInfo). i.op) ops

find_op : String → List OpInfo → Option (List OpInfo)
find_op op [] = none
find_op op (i ∷ is) = let rest = find_op op is in if i.op == op then some (i ∷ []) else rest

unfoldable pub describe : String → Option (List OpInfo)
unfolding find_op ops
describe op = if op == "" then some ops else find_op op ops

-- An answer on the socket; `silence` is a connection that ends without one.
pub data Reply : Type 0 where
  silence : Reply
  error : String → Reply
  verdict_ack : VerdictAck → Reply
  run_result : RunResult → Reply
  ask_result : AskResult → Reply
  select_response : SelectResponse → Reply
  ack_response : AckResponse → Reply
  cancel_response : CancelResponse → Reply
  pending_list : List PendingItem → Reply
  recent_list : List RecentItem → Reply
  audit_page : Page → Reply
  status_response : StatusResponse → Reply
  telegram_info_response : TelegramInfoResponse → Reply
  telegram_set_config_response : TelegramSetConfigResponse → Reply
  policy_response : PolicyAddRuleResponse → Reply
  help_response : List OpInfo → Reply
  version_response : VersionResponse → Reply
