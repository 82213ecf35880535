-- ===== src/Store/Recent.antt =====
-- go/internal/store/store.go: Recent, the decided petitions, newest first. Of two files with one
-- modification time, sort.Slice may put either first.
pub mod Laws
use fado.Base.{
  ℕ, Bool, true, false, not, ◌||◌, Option, none, some, List, [], ◌∷◌, String, ℤ, pos, negsuc,
  minus_one, is_minus_one, ltb, leb, if◌then◌else◌, ◌==◌, string_eq, nat_eq, take,
}
use fado.Protocol.{PendingRecord, VerdictRecord, RecentItem}
use fado.Store.{
  Store, load, verdict, ack_info, selection_info, cancel_info, load_result, find_confirmation,
}
use fado.Store.Files.{File, absent, present, Artifacts, Dir}
use fado.Store.Status.{step_of}

-- The modification time, `none` where there is no such file.
mod_time {ℓ} : {A : Type ℓ} → File A → Option ℕ
mod_time absent = none
mod_time (present t c) = some t

or_else : Option ℕ → Option ℕ → Option ℕ
or_else none other = other
or_else (some t) other = some t

-- That of the first of an id's four files, by their names.
unfoldable pub decided_at : Artifacts → Option ℕ
unfolding mod_time or_else
decided_at f =
    or_else (mod_time f.ack)
      (or_else (mod_time f.cancel) (or_else (mod_time f.selection) (mod_time f.verdict)))

unfoldable pub found : Dir → List (String × ℕ)
unfolding decided_at
found [] = []
found ((rid, f) ∷ d) =
    let rest = found d in elim (decided_at f) [ none ↦ rest | some t ↦ (rid, t) ∷ rest ]

-- Newest first.
insert_by_time : String × ℕ → List (String × ℕ) → List (String × ℕ)
insert_by_time e [] = e ∷ []
insert_by_time e (x ∷ xs) =
    let rest = insert_by_time e xs in if ltb e.1 x.1 then x ∷ rest else e ∷ x ∷ xs

unfoldable pub newest_first : List (String × ℕ) → List (String × ℕ)
unfolding insert_by_time
newest_first [] = []
newest_first (x ∷ xs) = insert_by_time x (newest_first xs)

-- What the rows share.
abbrev pub recent_base : String → PendingRecord → String → String → RecentItem
recent_base rid rec decision by = record {
  id = rid;
  argv = [];
  cwd = rec.cwd;
  as_uid = rec.as_uid;
  decision = decision;
  by = by;
  exit = minus_one;
  output = "";
  step = "";
  confirm_of = "";
  auth_url = "";
  kind = rec.kind;
  link = rec.link;
  summary = rec.summary;
  question = "";
  options = [];
  selection = "";
  selection_idx = pos 0;
  multi_select = rec.multi_select;
  allow_write_in = rec.allow_write_in;
  recommended_index = rec.recommended_index;
  acked = false;
  ack_by = "";
  git_drift = none;
  fd_drift = none;
  seal_drift = none;
}

-- A confirmation that was cancelled or decided says what became of its petition.
unfoldable pub child_decision : String → String → Store → String
child_decision rid word s = elim (find_confirmation rid s) [
  | none ↦ word
  | some (child, rec) ↦ if child == "" then word else elim (cancel_info child s) [
    | some c ↦ "cancelled"
    | none ↦ elim (verdict child s) [ none ↦ word | some v ↦ v.decision ]
  ]
]

unfoldable pub decision_word : String → VerdictRecord → ℤ → String → Store → String
unfolding child_decision
decision_word rid v exit output s =
    if not (is_minus_one exit)
    then v.decision
    else if output == "confirmation_timeout"
    then "timeout"
    else if output == "client_aborted"
    then "client_aborted"
    else if output == "cancelled"
    then "cancelled"
    else child_decision rid v.decision s

-- The row of an id, if it has one.
unfoldable pub recent_item : Store → String → Option RecentItem
unfolding decision_word
recent_item s rid = elim (load rid s) [
  | none ↦ none
  | some rec ↦ elim (cancel_info rid s) [
    | some c ↦ some (record (recent_base rid rec "cancelled" c.by) {
      argv = rec.argv;
      output = c.reason;
      step = step_of rec;
      confirm_of = rec.confirm_of;
      auth_url = rec.auth_url;
      question = rec.question;
      options = rec.options;
    })
    | none ↦ elim (ack_info rid s) [
      | some a ↦
          some (record (recent_base rid rec "ack" a.by) {
            argv = rec.argv;
            acked = true;
            ack_by = a.by;
          })
      | none ↦ elim (verdict rid s) [
        | none ↦ elim (selection_info rid s) [
          | none ↦ none
          | some sel ↦ some (record (recent_base rid rec "select" sel.by) {
            question = rec.question;
            options = rec.options;
            selection = sel.selection;
            selection_idx = sel.selection_idx;
          })
        ]
        | some v ↦
            let (exit, output) = load_result rid s in
            some (record (recent_base rid rec (decision_word rid v exit output s) v.by) {
              argv = rec.argv;
              exit = exit;
              output = output;
              step = step_of rec;
              confirm_of = rec.confirm_of;
              auth_url = rec.auth_url;
            })
      ]
    ]
  ]
]

unfoldable pub recent_items : Store → List (String × ℕ) → List RecentItem
unfolding recent_item
recent_items s [] = []
recent_items s ((rid, t) ∷ es) =
    let rest = recent_items s es in
    elim (recent_item s rid) [ none ↦ rest | some item ↦ item ∷ rest ]

-- A limit that is not between 1 and 50 stands for 10.
unfoldable pub recent_limit : ℤ → ℕ
recent_limit (negsuc n) = 10
recent_limit (pos n) = if n == 0 || ltb 50 n then 10 else n

unfoldable pub recent : ℤ → Store → List RecentItem
unfolding recent_items recent_limit newest_first found
recent limit s = recent_items s (take (recent_limit limit) (newest_first (found s.pending)))
