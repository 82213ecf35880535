-- ===== src/Store/Listing/Laws.antt =====
-- List and Status agree about what is pending.
use fado.Base.{
  refl, eq_iff, if◌then◌else◌, string_eq, eq_iff, ◌==◌, Bool-cases, none, true, sym, ◌≢◌, inr, inl,
  Option-cases, [], zero, suc, subst, ◌∷◌, false, arith, ◌<◌, some, ◌≡◌, get_elem?, List, String, ℕ,
}
use fado.Protocol.{StatusResponse, ResultRecord, VerdictRecord, PendingRecord, PendingItem}
use fado.Store.{
  at, Dir, exists, Store, load, verdict, ack_info, selection_info, cancel_info, json_ids,
}
use fado.Store.Status.{
  parsed, verdict_status, finished_status, decided_status, outcome, approved_status, child_result,
  status, ask_status, notify_status, exec_status,
}
use fado.Store.Listing.{decided, pending_item, list_one, list_ids, list}
use fado.Store.Files.{File, absent, present, files}

-- What a row of the list says of its id.
pub record Agrees (now : ℕ) (s : Store) (item : PendingItem) : Type 0 where
  pub waits : (status item.id now s).status ≡ "pending"
  pub same_time : (status item.id now s).expires_in ≡ item.expires_in
  pub not_expired : 0 < item.expires_in
  pub undecided : decided item.id s ≡ false

list_one-Agrees :
    (now : ℕ) (s : Store) (rid : String) (item : PendingItem)
    → list_one now s rid ≡ some item
    → Agrees now s item
unfolding list_one status ask_status notify_status exec_status decided pending_item
list_one-Agrees now s rid item h = record {
  waits = ground arith;
  same_time = ground arith;
  not_expired = ground arith;
  undecided = ground arith;
}

list_cons-Agrees :
    (now : ℕ) (s : Store) (rids : List String) (x : PendingItem)
    → Agrees now s x
    → ((j : ℕ) (item : PendingItem)
        → get_elem? (list_ids now s rids) j ≡ some item
        → Agrees now s item)
    → (i : ℕ) (item : PendingItem) → get_elem? (x ∷ list_ids now s rids) i ≡ some item
    → Agrees now s item
list_cons-Agrees now s rids x a rest zero item h = let e : x ≡ item = cc in subst (Agrees now s) e a
list_cons-Agrees now s rids x a rest (suc j) item h = rest j item h

list_ids-Agrees :
    (now : ℕ) (s : Store) (rids : List String) (i : ℕ) (item : PendingItem)
    → get_elem? (list_ids now s rids) i ≡ some item
    → Agrees now s item
unfolding list_ids
list_ids-Agrees now s [] i item h = cc
list_ids-Agrees now s (rid ∷ rids) i item h = elim (Option-cases (list_one now s rid)) [
  | inl e ↦ list_ids-Agrees now s rids i item (rw (e, list_ids) at h)
  | inr (x, e) ↦
      list_cons-Agrees now s rids x (list_one-Agrees now s rid x e)
        (λ j. list_ids-Agrees now s rids j) i item (rw (e, list_ids) at h)
]

-- Every row of the list is undecided and unexpired, and Status answers "pending" for its id, with the
-- same time left.
pub list-Agrees :
    (now : ℕ) (s : Store) (i : ℕ) (item : PendingItem)
    → get_elem? (list now s) i ≡ some item
    → Agrees now s item
unfolding list
list-Agrees now s i item h = list_ids-Agrees now s (json_ids s.pending) i item h

json_ids-of_load :
    (rid : String) (d : Dir)
    → exists (files d rid).json ≡ true
    → (i : ℕ) × (get_elem? (json_ids d) i ≡ some rid)
unfolding files
json_ids-of_load rid [] h = cc
json_ids-of_load rid ((k, f) ∷ d) h = elim (Bool-cases (k == rid)) [
  | inl e ↦ (0, ground (arith, eq_iff k rid, e))
  | inr e ↦
      let (i, found) = json_ids-of_load rid d (ground (arith, e)) in
      (if exists f.json then suc i else i, ground (arith, found))
]

list_ids-of :
    (now : ℕ) (s : Store) (rids : List String) (i : ℕ) (rid : String) (item : PendingItem)
    → get_elem? rids i ≡ some rid
    → list_one now s rid ≡ some item
    → (j : ℕ) × (get_elem? (list_ids now s rids) j ≡ some item)
unfolding list_ids
list_ids-of now s [] i rid item h e = cc
list_ids-of now s (r ∷ rids) zero rid item h e =
    let same : r ≡ rid = cc in
    (0, rw (subst (λ x. list_one now s x ≡ some item) (sym same) e, list_ids))
list_ids-of now s (r ∷ rids) (suc i) rid item h e =
    let (j, found) = list_ids-of now s rids i rid item h e in
    elim (Option-cases (list_one now s r)) [
      | inl a ↦ (j, rw (a, list_ids) found)
      | inr (x, a) ↦ (suc j, rw (a, list_ids) found)
    ]

load-exists :
    (rid : String) (s : Store) (rec : PendingRecord)
    → load rid s ≡ some rec
    → exists (files s.pending rid).json ≡ true
unfolding load
load-exists rid s rec h = ground arith

distinct : (w : String) → (w == "pending") ≡ false → w ≢ "pending"
distinct w h e = cc ((eq_iff w "pending").1 e, h)

approved-ne-pending :
    (now : ℕ) (s : Store) (rid : String) (rec : PendingRecord) (v : VerdictRecord)
    → (approved_status rid now rec v s).status ≢ "pending"
unfolding approved_status
approved-ne-pending now s rid rec v h =
    ground (arith, distinct "running" refl, distinct "cancelled" refl, distinct "confirming" refl)

child-ne-pending :
    (s : Store) (rid : String) (v : VerdictRecord) (r : ResultRecord)
    → (child_result rid v r s).0 ≢ "pending"
unfolding child_result
child-ne-pending s rid v r h = ground (
  arith,
  distinct "denied" refl,
  distinct "cancelled" refl,
  distinct "timeout" refl,
  distinct "client_aborted" refl,
  distinct "completed" refl,
)

outcome-ne-pending :
    (s : Store) (rid : String) (v : VerdictRecord) (r : ResultRecord)
    → (outcome rid v r s).0 ≢ "pending"
unfolding outcome
outcome-ne-pending s rid v r h = ground (
  arith,
  child-ne-pending s rid v r,
  distinct "denied" refl,
  distinct "cancelled" refl,
  distinct "timeout" refl,
  distinct "client_aborted" refl,
  distinct "completed" refl,
)

decided-ne-pending :
    (now : ℕ) (s : Store) (rid : String) (rec : PendingRecord) (v : VerdictRecord)
    → v.decision ≢ "pending"
    → (decided_status rid now rec v s).status ≢ "pending"
unfolding decided_status
decided-ne-pending now s rid rec v not_word h =
    ground (arith, approved-ne-pending now s rid rec v, distinct "cancelled" refl, not_word)

finished-ne-pending :
    (s : Store) (rid : String) (rec : PendingRecord) (v : VerdictRecord) (r : ResultRecord)
    → (finished_status rid rec v r s).status ≢ "pending"
unfolding finished_status
finished-ne-pending s rid rec v r h = outcome-ne-pending s rid v r h

verdict-ne-pending :
    (now : ℕ) (s : Store) (rid : String) (rec : PendingRecord) (v : VerdictRecord)
    → v.decision ≢ "pending"
    → (verdict_status rid now rec v s).status ≢ "pending"
unfolding verdict_status
verdict-ne-pending now s rid rec v not_word = go (at s rid).result
  where
    go :
        (f : File ResultRecord)
        → (let st : StatusResponse = elim f [
          | absent ↦ decided_status rid now rec v s
          | present _ r ↦ finished_status rid rec v (parsed r) s
        ] in
            st.status ≢ "pending")
    go absent = decided-ne-pending now s rid rec v not_word
    go (present t r) = finished-ne-pending s rid rec v (parsed r)

exec-pending :
    (now : ℕ) (s : Store) (rid : String) (rec : PendingRecord)
    → ((v : VerdictRecord) → verdict rid s ≡ some v → v.decision ≢ "pending")
    → (exec_status rid now rec s).status ≡ "pending"
    → (cancel_info rid s ≡ none) × (verdict rid s ≡ none) × (now < rec.expires)
unfolding exec_status
exec-pending now s rid rec word h = elim (Option-cases (verdict rid s)) [
  | inl e ↦ (
    ground (arith, e, distinct "cancelled" refl),
    e,
    ground (arith, e, distinct "cancelled" refl, distinct "timeout" refl),
  )
  | inr (v, e) ↦
      absurd (
        ground (arith, e, distinct "cancelled" refl, verdict-ne-pending now s rid rec v (word v e)))
]

status-exec :
    (now : ℕ) (s : Store) (rid : String) (rec : PendingRecord)
    → load rid s ≡ some rec
    → rec.kind ≢ "ask"
    → rec.kind ≢ "notify"
    → (status rid now s).status ≡ "pending"
    → (exec_status rid now rec s).status ≡ "pending"
unfolding status
status-exec now s rid rec found not_ask not_notify h =
    ground (arith, found, eq_iff rec.kind "ask", eq_iff rec.kind "notify")

pending-list_one :
    (now : ℕ) (s : Store) (rid : String) (rec : PendingRecord)
    → load rid s ≡ some rec
    → rec.kind ≢ "ask"
    → rec.kind ≢ "notify"
    → ack_info rid s ≡ none
    → selection_info rid s ≡ none
    → ((v : VerdictRecord) → verdict rid s ≡ some v → v.decision ≢ "pending")
    → (status rid now s).status ≡ "pending"
    → list_one now s rid ≡ some (pending_item rid now rec)
unfolding list_one decided
pending-list_one now s rid rec found not_ask not_notify no_ack no_selection word waits =
    let (open_cancel, open_verdict, early) =
      exec-pending now s rid rec word (status-exec now s rid rec found not_ask not_notify waits) in
    ground (arith, found, no_ack, no_selection, open_cancel, open_verdict, early)

-- An exec petition whose Status is "pending" is in the list, unless an acknowledgement or a selection
-- of its id is there, or its verdict is the word "pending" itself.
pub pending-listed :
    (now : ℕ) (s : Store) (rid : String) (rec : PendingRecord)
    → load rid s ≡ some rec
    → rec.kind ≢ "ask"
    → rec.kind ≢ "notify"
    → ack_info rid s ≡ none
    → selection_info rid s ≡ none
    → ((v : VerdictRecord) → verdict rid s ≡ some v → v.decision ≢ "pending")
    → (status rid now s).status ≡ "pending"
    → (i : ℕ) × (get_elem? (list now s) i ≡ some (pending_item rid now rec))
unfolding list
pending-listed now s rid rec found not_ask not_notify no_ack no_selection word waits =
    let (i, at_i) = json_ids-of_load rid s.pending (load-exists rid s rec found) in
    list_ids-of now s (json_ids s.pending) i rid (pending_item rid now rec) at_i
      (pending-list_one now s rid rec found not_ask not_notify no_ack no_selection word waits)
