-- ===== src/Store/Status.antt =====
-- go/internal/store/store.go: Status, what one request id answers at `now`, in Unix seconds.
use fado.Base.{
  ℕ, ◌-◌, true, not, ◌||◌, Option, none, some, String, minus_one, is_minus_one, ltb, if◌then◌else◌,
  ◌==◌, string_eq,
}
use fado.Protocol.{PendingRecord, VerdictRecord, ResultRecord, StatusResponse, zero_status}
use fado.Store.{Store, at, load, verdict, ack_info, selection_info, cancel_info, find_confirmation}
use fado.Store.Files.{absent, present}

abbrev pub step_of : PendingRecord → String
step_of rec = if rec.step == "" then "initial" else rec.step

-- What the answers about an ask petition share.
abbrev pub ask_base : String → PendingRecord → StatusResponse
ask_base rid rec = record zero_status {
  id = rid;
  cwd = rec.cwd;
  uid = rec.uid;
  as_uid = rec.as_uid;
  exit = minus_one;
  step = step_of rec;
  kind = rec.kind;
  link = rec.link;
  summary = rec.summary;
  question = rec.question;
  options = rec.options;
}

unfoldable pub ask_status : String → ℕ → PendingRecord → Store → StatusResponse
ask_status rid now rec s =
    let st = ask_base rid rec in
    elim (cancel_info rid s) [
      | some c ↦ record st {
        status = "cancelled";
        decision = "cancelled";
        by = c.by;
        output = c.reason;
      }
      | none ↦ elim (selection_info rid s) [
        | some sel ↦ record st {
          status = "selected";
          decision = "select";
          by = sel.by;
          selection = sel.selection;
          selection_idx = sel.selection_idx;
        }
        | none ↦
            if ltb now rec.expires
            then record st { status = "pending"; expires_in = rec.expires - now }
            else record st { status = "timeout" }
      ]
    ]

-- What the answers about a notify petition share.
abbrev pub notify_base : String → PendingRecord → StatusResponse
notify_base rid rec = record zero_status {
  id = rid;
  cwd = rec.cwd;
  uid = rec.uid;
  exit = minus_one;
  step = step_of rec;
  kind = rec.kind;
  link = rec.link;
  summary = rec.summary;
}

unfoldable pub notify_status : String → ℕ → PendingRecord → Store → StatusResponse
notify_status rid now rec s =
    let base = notify_base rid rec in
    let st = record base { as_uid = rec.as_uid } in
    elim (cancel_info rid s) [
      | some c ↦ record st {
        status = "cancelled";
        decision = "cancelled";
        by = c.by;
        output = c.reason;
      }
      | none ↦ elim (ack_info rid s) [
        | some ack ↦ record st {
          status = "acked";
          decision = "ack";
          by = ack.by;
          acked = true;
          ack_by = ack.by;
          ack_at = ack.unix_nano;
        }
        | none ↦
            if ltb now rec.expires
            then record st { status = "pending"; expires_in = rec.expires - now }
            else record base { status = "timeout" }
      ]
    ]

-- What the answers about an exec petition share.
abbrev pub exec_base : String → PendingRecord → StatusResponse
exec_base rid rec = record zero_status {
  id = rid;
  argv = rec.argv;
  cwd = rec.cwd;
  uid = rec.uid;
  as_uid = rec.as_uid;
  exit = minus_one;
  step = step_of rec;
  confirm_of = rec.confirm_of;
  preview = rec.preview;
  auth_url = rec.auth_url;
}

-- Approved, and no result yet: a confirmation may be waiting.
unfoldable pub approved_status : String → ℕ → PendingRecord → VerdictRecord → Store → StatusResponse
approved_status rid now rec v s =
    let st = exec_base rid rec in
    let running = record st { status = "running"; decision = v.decision; by = v.by } in
    if not (step_of rec == "initial") then running else elim (find_confirmation rid s) [
      | none ↦ running
      | some (child, child_rec) ↦ elim (cancel_info child s) [
        | some c ↦ record st {
          status = "cancelled";
          decision = "cancelled";
          by = c.by;
          output = c.reason;
        }
        | none ↦ elim (verdict child s) [
          | none ↦ record st {
            status = "confirming";
            decision = v.decision;
            by = v.by;
            expires_in = child_rec.expires - now;
          }
          | some _ ↦ running
        ]
      ]
    ]

unfoldable pub decided_status : String → ℕ → PendingRecord → VerdictRecord → Store → StatusResponse
decided_status rid now rec v s =
    let st = exec_base rid rec in
    if v.decision == "cancelled"
    then record st { status = "cancelled"; decision = "cancelled"; by = v.by }
    else if v.decision == "approve"
    then approved_status rid now rec v s
    else record st { status = v.decision; decision = v.decision; by = v.by }

-- The status and the decision of a confirmation's verdict, where the parent's result has exit -1.
abbrev pub child_outcome : String → String × String
child_outcome decision =
    if decision == "deny"
    then ("denied", decision)
    else if (decision == "timeout") || (decision == "confirmation_timeout")
    then ("timeout", decision)
    else if decision == "client_aborted"
    then ("client_aborted", decision)
    else if decision == "cancelled"
    then ("cancelled", decision)
    else ("completed", decision)

-- Status, decision and output.
abbrev pub Outcome : Type 0
Outcome = String × String × String

unfoldable pub child_result : String → VerdictRecord → ResultRecord → Store → Outcome
child_result rid v r s = elim (find_confirmation rid s) [
  | none ↦ ("completed", v.decision, r.output)
  | some (child, _) ↦
      if child == "" then ("completed", v.decision, r.output) else elim (cancel_info child s) [
        | some c ↦ ("cancelled", "cancelled", if not (c.reason == "") then c.reason else r.output)
        | none ↦ elim (verdict child s) [
          | none ↦ ("completed", v.decision, r.output)
          | some cv ↦
              let (status, decision) = child_outcome cv.decision in (status, decision, r.output)
        ]
      ]
]

unfoldable pub outcome : String → VerdictRecord → ResultRecord → Store → Outcome
outcome rid v r s =
    if v.decision == "deny"
    then ("denied", v.decision, r.output)
    else if (v.decision == "cancelled") || (r.output == "cancelled")
    then ("cancelled", "cancelled", r.output)
    else if (v.decision == "timeout")
        || (v.decision == "confirmation_timeout")
        || (r.output == "confirmation_timeout")
    then (
      "timeout",
      if r.output == "confirmation_timeout" then "confirmation_timeout" else v.decision,
      r.output,
    )
    else if (v.decision == "client_aborted") || (r.output == "client_aborted")
    then (
      "client_aborted",
      if r.output == "client_aborted" then "client_aborted" else v.decision,
      r.output,
    )
    else if is_minus_one r.exit
    then child_result rid v r s
    else ("completed", v.decision, r.output)

-- A .result file that does not parse counts as exit -1 with no output.
abbrev pub parsed : Option ResultRecord → ResultRecord
parsed none = record { id = ""; exit = minus_one; output = "" }
parsed (some r) = r

unfoldable pub finished_status :
    String → PendingRecord → VerdictRecord → ResultRecord → Store → StatusResponse
finished_status rid rec v r s =
    let st = exec_base rid rec in
    let (status, decision, output) = outcome rid v r s in
    record st { status = status; decision = decision; by = v.by; exit = r.exit; output = output }

-- With a verdict: what there is of a result.
unfoldable pub verdict_status : String → ℕ → PendingRecord → VerdictRecord → Store → StatusResponse
verdict_status rid now rec v s = elim (at s rid).result [
  | absent ↦ decided_status rid now rec v s
  | present _ r ↦ finished_status rid rec v (parsed r) s
]

unfoldable pub exec_status : String → ℕ → PendingRecord → Store → StatusResponse
exec_status rid now rec s =
    let st = exec_base rid rec in
    elim (cancel_info rid s) [
      | some c ↦ record st {
        status = "cancelled";
        decision = "cancelled";
        by = c.by;
        output = c.reason;
      }
      | none ↦ elim (verdict rid s) [
        | none ↦
            if ltb now rec.expires
            then record st { status = "pending"; expires_in = rec.expires - now }
            else record st { status = "timeout" }
        | some v ↦ verdict_status rid now rec v s
      ]
    ]

unfoldable pub status : String → ℕ → Store → StatusResponse
status rid now s = elim (load rid s) [
  | none ↦ record zero_status { id = rid; status = "not_found"; exit = minus_one }
  | some rec ↦
      if rec.kind == "ask"
      then ask_status rid now rec s
      else if rec.kind == "notify"
      then notify_status rid now rec s
      else exec_status rid now rec s
]
