-- ===== src/Protocol.antt =====
-- go/internal/protocol/protocol.go: the records that the store keeps and the daemon answers with.
-- Unix times, user ids, message ids and list indices that the code bounds below by 0 are natural
-- numbers; integers whose sign the code looks at, or that a client chooses freely, are ℤ.
use fado.Base.{ℕ, ℤ, pos, Bool, false, Option, none, List, [], String}

pub record PreviewRecord : Type 0 where
  pub resolved_binary : String
  pub target_cwd : String
  pub affected_count : ℕ
  pub sample_paths : List String
  pub risk_level : String
  pub risk_reason : String

pub record GitPin : Type 0 where
  pub head : String
  pub branch : String
  pub porcelain : String
  pub clean : Bool
  pub present : Bool

-- GitDrift, FDDrift and SealDrift have these fields.
pub record Drift : Type 0 where
  pub drift : Bool
  pub reason : String
  pub block : Bool

pub record FdPin : Type 0 where
  pub path : String
  pub resolved : String
  pub sha256 : String
  pub dev : ℕ
  pub ino : ℕ
  pub size : ℕ
  pub mode : ℕ
  pub is_script : Bool
  pub interpreter : String
  pub interp_arg : String

pub record SealFile : Type 0 where
  pub rel : String
  pub abs : String
  pub sha256 : String
  pub size : ℕ
  pub mode : ℕ

pub record SealPin : Type 0 where
  pub root : String
  pub files : List SealFile
  pub archive : String

pub record SuspendPin : Type 0 where
  pub pid : ℤ
  pub pgid : ℤ
  pub suspended : Bool

pub record PendingRecord : Type 0 where
  pub argv : List String
  pub uid : ℕ
  pub as_uid : ℕ
  pub cwd : String
  pub expires : ℕ
  pub env : List (String × String)
  pub chat_id : String
  pub msg_id : ℕ
  pub step : String
  pub confirm_of : String
  pub preview : Option PreviewRecord
  pub auth_url : String
  pub kind : String
  pub link : String
  pub summary : String
  pub question : String
  pub options : List String
  pub multi_select : Bool
  pub allow_write_in : Bool
  pub recommended_index : ℤ
  pub page_lines : List String
  pub selection : String
  pub selection_idx : ℤ
  pub selected_idxs : List ℕ
  pub git : Option GitPin
  pub fd : Option FdPin
  pub seal : Option SealPin
  pub suspend : Option SuspendPin

-- Go's zero value.
abbrev pub zero_record : PendingRecord
zero_record = record {
  argv = [];
  uid = 0;
  as_uid = 0;
  cwd = "";
  expires = 0;
  env = [];
  chat_id = "";
  msg_id = 0;
  step = "";
  confirm_of = "";
  preview = none;
  auth_url = "";
  kind = "";
  link = "";
  summary = "";
  question = "";
  options = [];
  multi_select = false;
  allow_write_in = false;
  recommended_index = pos 0;
  page_lines = [];
  selection = "";
  selection_idx = pos 0;
  selected_idxs = [];
  git = none;
  fd = none;
  seal = none;
  suspend = none;
}

pub record VerdictRecord : Type 0 where
  pub decision : String
  pub by : String
  pub unix_nano : ℕ

pub record AckRecord : Type 0 where
  pub by : String
  pub unix_nano : ℕ

pub record SelectionRecord : Type 0 where
  pub selection : String
  pub selection_idx : ℤ
  pub selection_idxs : List ℕ
  pub by : String
  pub unix_nano : ℕ

pub record CancelRecord : Type 0 where
  pub by : String
  pub reason : String
  pub unix_nano : ℕ

-- The fields of RecentItem that a .result file is written with and read for.
pub record ResultRecord : Type 0 where
  pub id : String
  pub exit : ℤ
  pub output : String

pub record AuditEvent : Type 0 where
  pub ev : String
  pub uid : ℕ
  pub by : String
  pub argv : List String
  pub cwd : String
  pub tier : String
  pub decision : String
  pub rid : String
  pub step : String
  pub confirm_of : String
  pub as_uid : ℕ
  pub dry : Bool
  pub exit : ℤ
  pub env_dropped : List String
  pub ts : String
  pub link : String
  pub summary : String
  pub question : String
  pub options : List String
  pub selection : String
  pub selection_idx : ℤ
  pub reason : String

abbrev pub zero_event : AuditEvent
zero_event = record {
  ev = "";
  uid = 0;
  by = "";
  argv = [];
  cwd = "";
  tier = "";
  decision = "";
  rid = "";
  step = "";
  confirm_of = "";
  as_uid = 0;
  dry = false;
  exit = pos 0;
  env_dropped = [];
  ts = "";
  link = "";
  summary = "";
  question = "";
  options = [];
  selection = "";
  selection_idx = pos 0;
  reason = "";
}

pub record StatusResponse : Type 0 where
  pub id : String
  pub status : String
  pub argv : List String
  pub cwd : String
  pub uid : ℕ
  pub as_uid : ℕ
  pub expires_in : ℕ
  pub decision : String
  pub by : String
  pub exit : ℤ
  pub output : String
  pub step : String
  pub confirm_of : String
  pub preview : Option PreviewRecord
  pub auth_url : String
  pub kind : String
  pub link : String
  pub summary : String
  pub question : String
  pub options : List String
  pub selection : String
  pub selection_idx : ℤ
  pub acked : Bool
  pub ack_by : String
  pub ack_at : ℕ
  pub git : Option GitPin
  pub git_drift : Option Drift
  pub fd : Option FdPin
  pub fd_drift : Option Drift
  pub seal : Option SealPin
  pub seal_drift : Option Drift
  pub suspend : Option SuspendPin

abbrev pub zero_status : StatusResponse
zero_status = record {
  id = "";
  status = "";
  argv = [];
  cwd = "";
  uid = 0;
  as_uid = 0;
  expires_in = 0;
  decision = "";
  by = "";
  exit = pos 0;
  output = "";
  step = "";
  confirm_of = "";
  preview = none;
  auth_url = "";
  kind = "";
  link = "";
  summary = "";
  question = "";
  options = [];
  selection = "";
  selection_idx = pos 0;
  acked = false;
  ack_by = "";
  ack_at = 0;
  git = none;
  git_drift = none;
  fd = none;
  fd_drift = none;
  seal = none;
  seal_drift = none;
  suspend = none;
}

pub record PendingItem : Type 0 where
  pub id : String
  pub argv : List String
  pub uid : ℕ
  pub as_uid : ℕ
  pub cwd : String
  pub expires_in : ℕ
  pub step : String
  pub confirm_of : String
  pub preview : Option PreviewRecord
  pub auth_url : String
  pub kind : String
  pub link : String
  pub summary : String
  pub question : String
  pub options : List String
  pub selection : String
  pub selection_idx : ℤ
  pub multi_select : Bool
  pub allow_write_in : Bool
  pub recommended_index : ℤ
  pub git : Option GitPin
  pub git_drift : Option Drift
  pub fd : Option FdPin
  pub fd_drift : Option Drift
  pub seal : Option SealPin
  pub seal_drift : Option Drift
  pub suspend : Option SuspendPin

pub record RecentItem : Type 0 where
  pub id : String
  pub argv : List String
  pub cwd : String
  pub as_uid : ℕ
  pub decision : String
  pub by : String
  pub exit : ℤ
  pub output : String
  pub step : String
  pub confirm_of : String
  pub auth_url : String
  pub kind : String
  pub link : String
  pub summary : String
  pub question : String
  pub options : List String
  pub selection : String
  pub selection_idx : ℤ
  pub multi_select : Bool
  pub allow_write_in : Bool
  pub recommended_index : ℤ
  pub acked : Bool
  pub ack_by : String
  pub git_drift : Option Drift
  pub fd_drift : Option Drift
  pub seal_drift : Option Drift

pub record AuditQueryRequest : Type 0 where
  pub cursor : String
  pub limit : ℤ
  pub ev : String
  pub id : String
  pub uid : ℕ
  pub since : ℤ
  pub until : ℤ

-- RunResult.
pub record RunResult : Type 0 where
  pub status : String
  pub id : String
  pub exit : ℤ
  pub output : String
  pub reason : String

pub record RunRequest : Type 0 where
  pub argv : List String
  pub cwd : String
  pub env : List (String × String)
  pub detach : Bool

pub record VerdictSubmit : Type 0 where
  pub id : String
  pub decision : String
  pub by : String

pub record VerdictAck : Type 0 where
  pub recorded : Bool
  pub error : String

pub record CancelRequest : Type 0 where
  pub id : String
  pub reason : String
  pub by : String

pub record CancelResponse : Type 0 where
  pub cancelled : Bool
  pub error : String
