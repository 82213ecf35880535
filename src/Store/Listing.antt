-- ===== src/Store/Listing.antt =====
-- go/internal/store/store.go: List, the petitions that still wait at `now`, in Unix seconds.
pub mod Laws
use fado.Base.{
  ℕ, ◌-◌, Bool, true, false, not, ◌||◌, Option, none, some, List, [], ◌∷◌, String, ltb, leb,
  if◌then◌else◌, ◌==◌, string_eq,
}
use fado.Protocol.{PendingRecord, PendingItem}
use fado.Store.{Store, load, verdict, ack_info, selection_info, cancel_info, json_ids}
use fado.Store.Status.{step_of}

abbrev pub is_some {ℓ} : {A : Type ℓ} → Option A → Bool
is_some none = false
is_some (some a) = true

-- One of the four files that end a petition is there and parses.
unfoldable pub decided : String → Store → Bool
decided rid s =
    is_some (verdict rid s)
    || is_some (ack_info rid s)
    || is_some (selection_info rid s)
    || is_some (cancel_info rid s)

unfoldable pub pending_item : String → ℕ → PendingRecord → PendingItem
pending_item rid now rec = record {
  id = rid;
  argv = rec.argv;
  uid = rec.uid;
  as_uid = rec.as_uid;
  cwd = rec.cwd;
  expires_in = rec.expires - now;
  step = step_of rec;
  confirm_of = rec.confirm_of;
  preview = rec.preview;
  auth_url = rec.auth_url;
  kind = rec.kind;
  link = rec.link;
  summary = rec.summary;
  question = rec.question;
  options = rec.options;
  selection = rec.selection;
  selection_idx = rec.selection_idx;
  multi_select = rec.multi_select;
  allow_write_in = rec.allow_write_in;
  recommended_index = rec.recommended_index;
  git = none;
  git_drift = none;
  fd = none;
  fd_drift = none;
  seal = none;
  seal_drift = none;
  suspend = none;
}

-- What one round of the loop appends.
unfoldable pub list_one : ℕ → Store → String → Option PendingItem
list_one now s rid = if decided rid s then none else elim (load rid s) [
  | none ↦ none
  | some rec ↦ if leb rec.expires now then none else some (pending_item rid now rec)
]

unfoldable pub list_ids : ℕ → Store → List String → List PendingItem
list_ids now s [] = []
list_ids now s (rid ∷ rids) =
    let rest = list_ids now s rids in
    elim (list_one now s rid) [ none ↦ rest | some item ↦ item ∷ rest ]

unfoldable pub list : ℕ → Store → List PendingItem
list now s = list_ids now s (json_ids s.pending)
