-- ===== src/Store.antt =====
-- go/internal/store/store.go: the store's reads and writes. `now` is time.Now() in nanoseconds, and
-- each write takes the fault that it meets. A method that writes returns the new store.
pub mod Files
pub mod Status
pub mod Listing
pub mod Recent
pub mod Writes
pub mod Kept
pub mod Once
pub mod Approvals
pub mod Offset
pub mod Prune
pub mod Audit
use fado.Base.{
  ℕ, ◌≡◌, refl, Bool, true, false, not, ◌||◌, ◌&&◌, Option, none, some, List, [], ◌∷◌, ◌++◌, String,
  ℤ, pos, negsuc, minus_one, ltb, if◌then◌else◌, ◌==◌, string_eq,
}
use fado.Text.{take_bytes, len, append_text}
use fado.Protocol.{
  PendingRecord, zero_record, VerdictRecord, AckRecord, SelectionRecord, CancelRecord, ResultRecord,
  AuditEvent,
}
use Files.{
  File, absent, present, Fault, works, contents, exists, create_excl, write_no_follow, Artifacts,
  remove, no_files, Dir, files, put,
}

-- One line of audit.log.
pub data Line : Type 0 where
  event : AuditEvent → Line
  garbage blank : Line

pub record Store : Type 0 where
  pub pending : Dir
  pub audit : List Line
  pub offset : Option (List ℕ)

abbrev pub at : Store → String → Artifacts
at s rid = files s.pending rid

abbrev pub set_at : String → Artifacts → Store → Store
set_at rid f s = record s { pending = put rid f s.pending }

module _ (fault : Fault) (now : ℕ) where
  unfoldable pub save : PendingRecord → String → Store → Store × Bool
  save rec rid s =
      let f = at s rid in
      let (file, ok) = write_no_follow fault false now rec f.json in
      (set_at rid (record f { json = file }) s, ok)

unfoldable pub load : String → Store → Option PendingRecord
load rid s = contents (at s rid).json

unfoldable pub verdict : String → Store → Option VerdictRecord
verdict rid s = contents (at s rid).verdict

unfoldable pub ack_info : String → Store → Option AckRecord
ack_info rid s = contents (at s rid).ack

unfoldable pub selection_info : String → Store → Option SelectionRecord
selection_info rid s = contents (at s rid).selection

unfoldable pub cancel_info : String → Store → Option CancelRecord
cancel_info rid s = contents (at s rid).cancel

module _ (fault : Fault) (now : ℕ) where
  unfoldable pub attach_pager : String → String → ℕ → Store → Store
  attach_pager rid chat msg_id s = elim (load rid s) [
    | none ↦ s
    | some rec ↦ (save fault now (record rec { chat_id = chat; msg_id = msg_id }) rid s).0
  ]

  unfoldable pub set_auth_url : String → String → Store → Store
  set_auth_url rid auth_url s = if auth_url == "" then s else elim (load rid s) [
    | none ↦ s
    | some rec ↦
        if not (rec.auth_url == "")
        then s
        else (save fault now (record rec { auth_url = auth_url }) rid s).0
  ]

  unfoldable pub set_page_list : String → String → List String → Store → Store
  set_page_list rid title lines s = elim (load rid s) [
    | none ↦ s
    | some rec ↦ (save fault now (record rec { summary = title; page_lines = lines }) rid s).0
  ]

  unfoldable pub consume : String → String → String → Store → Store × Bool
  consume rid decision by s =
      let f = at s rid in
      let v : VerdictRecord = record { decision = decision; by = by; unix_nano = now } in
      let (file, ok) = create_excl fault now v f.verdict in
      (set_at rid (record f { verdict = file }) s, ok)

  unfoldable pub ack : String → String → Store → Store × Bool
  ack rid by s = elim (load rid s) [
    | none ↦ (s, false)
    | some rec ↦
        if not (rec.kind == "notify")
        then (s, false)
        else let f = at s rid in
          let a : AckRecord = record { by = by; unix_nano = now } in
          let (file, ok) = create_excl fault now a f.ack in
          (set_at rid (record f { ack = file }) s, ok)
  ]

  unfoldable pub select_record : String → String → ℤ → List ℕ → String → Store → Store × Bool
  select_record rid selection idx idxs by s = elim (load rid s) [
    | none ↦ (s, false)
    | some rec ↦
        if not (rec.kind == "ask")
        then (s, false)
        else let f = at s rid in
          let sel : SelectionRecord = record {
            selection = selection;
            selection_idx = idx;
            selection_idxs = idxs;
            by = by;
            unix_nano = now;
          } in
          let (file, ok) = create_excl fault now sel f.selection in
          (set_at rid (record f { selection = file }) s, ok)
  ]

  unfoldable pub select : String → String → ℤ → String → Store → Store × Bool
  unfolding select_record
  select rid selection idx by s = select_record rid selection idx [] by s

  unfoldable pub select_many : String → String → List ℕ → String → Store → Store × Bool
  unfolding select_record
  select_many rid selection idxs by s = select_record rid selection (pos 0) idxs by s

  unfoldable pub set_selected_idxs : String → List ℕ → Store → Store × Bool
  set_selected_idxs rid idxs s = elim (load rid s) [
    | none ↦ (s, false)
    | some rec ↦
        if not (rec.kind == "ask") || not rec.multi_select
        then (s, false)
        else save fault now (record rec { selected_idxs = idxs }) rid s
  ]

  unfoldable pub cancel : String → String → String → Store → Store × Bool
  cancel rid by reason s = elim (load rid s) [
    | none ↦ (s, false)
    | some rec ↦
        let f = at s rid in
        let c : CancelRecord = record { by = by; reason = reason; unix_nano = now } in
        let (file, ok) = create_excl fault now c f.cancel in
        (set_at rid (record f { cancel = file }) s, ok)
  ]

  abbrev pub cut_output : String → String
  cut_output output =
      if ltb 8192 (len output)
      then append_text (take_bytes 8192 output) "\n…[truncated]"
      else output

  unfoldable pub save_result : String → ℤ → String → Store → Store
  save_result rid exit output s =
      let f = at s rid in
      let r : ResultRecord = record { id = rid; exit = exit; output = cut_output output } in
      let (file, ok) = write_no_follow fault true now r f.result in
      set_at rid (record f { result = file }) s

unfoldable pub load_result : String → Store → ℤ × String
load_result rid s = elim (contents (at s rid).result) [
  | none ↦ (minus_one, "")
  | some r ↦ (r.exit, r.output)
]

-- What Purge leaves of the files of an id; `fails` says which of its eight calls fail. Of the directory
-- a failed RemoveAll is taken to leave something.
abbrev pub remaining : (ℕ → Bool) → Artifacts → Artifacts
remaining fails f = record {
  json = remove (fails 0) f.json;
  verdict = remove (fails 1) f.verdict;
  result = remove (fails 2) f.result;
  ack = remove (fails 3) f.ack;
  selection = remove (fails 4) f.selection;
  cancel = remove (fails 5) f.cancel;
  sealed_archive = fails 6 && f.sealed_archive;
  sealed_dir = fails 7 && f.sealed_dir;
}

-- The errors are not looked at.
unfoldable pub purge : (ℕ → Bool) → String → Store → Store
purge fails rid s = set_at rid (remaining fails (at s rid)) s

-- Append, at a time that time.RFC3339 formats as `ts`.
unfoldable pub append_event : String → AuditEvent → Store → Store
append_event ts ev s = record s { audit = s.audit ++ event (record ev { ts = ts }) ∷ [] }

-- The ids of the .json files, in directory order.
abbrev pub json_ids : Dir → List String
json_ids [] = []
json_ids ((k, f) ∷ d) = let rest = json_ids d in if exists f.json then k ∷ rest else rest

find_child : String → List String → Store → Option (String × PendingRecord)
find_child parent [] s = none
find_child parent (rid ∷ rids) s =
    let rest = find_child parent rids s in
    elim (load rid s) [
      | none ↦ rest
      | some rec ↦ if rec.confirm_of == parent then some (rid, rec) else rest
    ]

unfoldable pub find_confirmation : String → Store → Option (String × PendingRecord)
unfolding find_child
find_confirmation parent s = find_child parent (json_ids s.pending) s
