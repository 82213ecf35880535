-- ===== src/Tests/Stores.antt =====
-- The store at a concrete directory: a petition that waits, one that was answered, one that ran out.
use fado.Base.{
  Bool, nat_eq, string_eq, eq_iff, ◌-◌, arith, ap, ◌≡◌, get_elem?, Option, ◌≢◌, ◌==◌, refl, some,
  none, [], ◌∷◌, true, false, zero, suc, ℕ, ℤ, pos, List, String,
}
use fado.Protocol.{PendingRecord, zero_record, zero_event, AuditQueryRequest}
use fado.Store.{
  ack_info, Store, Line, event, garbage, verdict, consume, cancel_info, selection_info, load,
}
use fado.Store.Files.{File, absent, present, Fault, works, write_fails, no_files}
use fado.Store.Writes.{Write, consumes, cancels, saves_result, perform_all}
use fado.Store.Once.{consume_wins}
use fado.Store.Listing.{list, pending_item}
use fado.Store.Listing.Laws.{Agrees, list-Agrees, pending-listed}
use fado.Store.Status.{status}
use fado.Store.Audit.{audit_query}
use fado.Store.Audit.Pages.{ReadsBack, Paged, audit_query_pages}
use fado.Store.Prune.{prune}
use fado.Store.Prune.Laws.{Swept, prune-Swept}

abbrev waiting : PendingRecord
waiting = record zero_record { argv = "make" ∷ []; uid = 1000; expires = 500; step = "initial" }

abbrev asked : PendingRecord
asked = record waiting { kind = "ask"; options = "a" ∷ "b" ∷ [] }

abbrev log : List Line
log =
    event (record zero_event { ev = "request"; rid = "r1" })
    ∷ garbage
    ∷ event (record zero_event { ev = "verdict"; rid = "r2" })
    ∷ event (record zero_event { ev = "verdict"; rid = "r3" })
    ∷ []

abbrev pub stocked : Store
stocked = record {
  pending =
      ("r1", record no_files { json = present 10 (some waiting) })
      ∷ (
        "r2",
        record no_files {
          json = present 20 (some asked);
          selection = present 30 (
              some (record {
                selection = "a";
                selection_idx = pos 0;
                selection_idxs = [];
                by = "x";
                unix_nano = 30;
              }));
          cancel = present 31 (some (record { by = "y"; reason = "late"; unix_nano = 31 }));
        },
      )
      ∷ [];
  audit = log;
  offset = none;
}

abbrev later_writes : List (Fault × ℕ × Write)
later_writes =
    (works, 60, consumes "r1" "deny" "eve")
    ∷ (write_fails, 70, saves_result "r1" (pos 0) "done")
    ∷ (works, 80, cancels "r2" "eve" "again")
    ∷ []

first_consumed : (consume works 50 "r1" "approve" "ann" stocked).1 ≡ true
unfolding consume fado.Store.Files.create_excl fado.Store.Files.files
first_consumed = refl

consume_wins_example :
    let after = perform_all later_writes (consume works 50 "r1" "approve" "ann" stocked).0 in
    (verdict "r1" after ≡ some (record { decision = "approve"; by = "ann"; unix_nano = 50 }))
    × ((fault' : Fault) (later : ℕ) (decision' by' : String)
        → (consume fault' later "r1" decision' by' after).1 ≡ false)
consume_wins_example =
    consume_wins works 50 "r1" "approve" "ann" stocked later_writes first_consumed

was_cancelled :
    cancel_info "r2" stocked ≡ some (record { by = "y"; reason = "late"; unix_nano = 31 })
unfolding cancel_info fado.Store.Files.files
was_cancelled = refl

was_selected :
    selection_info "r2" stocked
    ≡ some (record {
      selection = "a";
      selection_idx = pos 0;
      selection_idxs = [];
      by = "x";
      unix_nano = 30;
    })
unfolding selection_info fado.Store.Files.files
was_selected = refl

listed_one : get_elem? (list 400 stocked) 0 ≡ some (pending_item "r1" 400 waiting)
unfolding list fado.Store.Listing.list_ids fado.Store.Listing.list_one fado.Store.Listing.decided
    verdict fado.Store.Files.files ack_info selection_info cancel_info load
listed_one = refl

list-Agrees_example : Agrees 400 stocked (pending_item "r1" 400 waiting)
list-Agrees_example = list-Agrees 400 stocked 0 (pending_item "r1" 400 waiting) listed_one

is_loaded : load "r1" stocked ≡ some waiting
unfolding load fado.Store.Files.files
is_loaded = refl

not_acked : ack_info "r1" stocked ≡ none
unfolding ack_info fado.Store.Files.files
not_acked = refl

not_selected : selection_info "r1" stocked ≡ none
unfolding selection_info fado.Store.Files.files
not_selected = refl

no_verdict : verdict "r1" stocked ≡ none
unfolding verdict fado.Store.Files.files
no_verdict = refl

is_pending : (status "r1" 400 stocked).status ≡ "pending"
unfolding status load fado.Store.Files.files fado.Store.Status.exec_status cancel_info verdict
is_pending = refl

plain_kind : (w : String) → ("" == w) ≡ false → waiting.kind ≢ w
plain_kind w h e = cc ((eq_iff "" w).1 e, h)

pending-listed_example :
    (i : ℕ) × (get_elem? (list 400 stocked) i ≡ some (pending_item "r1" 400 waiting))
pending-listed_example =
    pending-listed 400 stocked "r1" waiting is_loaded (plain_kind "ask" refl)
      (plain_kind "notify" refl) not_acked not_selected (λ v e. cc (no_verdict, e)) is_pending

-- Cursors in unary, which are enough to be read back.
abbrev tally : ℕ → String
tally zero = "1"
tally (suc n) = String.◌∷◌ "1" (tally n)

abbrev count_tally : String → ℕ
count_tally String.[] = 0
count_tally (String.◌∷◌ c s) = suc (count_tally s)

abbrev read_tally : String → Option ℤ
read_tally s = some (pos (count_tally s - 1))

count_tally-tally : (n : ℕ) → count_tally (tally n) ≡ suc n
count_tally-tally zero = refl
count_tally-tally (suc n) = ap suc (count_tally-tally n)

tally-ReadsBack : ReadsBack read_tally tally
tally-ReadsBack n = (ap (λ k. some (pos k)) (omega (arith, count_tally-tally n)), nonempty n)
  where
    nonempty : (n : ℕ) → tally n ≢ ""
    nonempty n e = absurd (omega (arith, count_tally-tally n, ap count_tally e))

abbrev no_time : String → Option ℤ
no_time ts = none

abbrev verdicts : AuditQueryRequest
verdicts = record {
  cursor = "";
  limit = pos 1;
  ev = "verdict";
  id = "";
  uid = 0;
  since = pos 0;
  until = pos 0;
}

audit_query_pages_example :
    Paged no_time read_tally tally verdicts stocked
      (audit_query no_time read_tally tally verdicts stocked)
audit_query_pages_example =
    audit_query_pages no_time read_tally tally verdicts stocked tally-ReadsBack

tally_nonempty : tally 2 ≢ ""
tally_nonempty = (tally-ReadsBack 2).1

-- The verdict cannot be removed.
abbrev stuck : String → ℕ → Bool
stuck rid i = i == 1

prune-Swept_example : Swept stuck 100 1000 600 stocked (prune stuck 100 1000 600 stocked).0 "r2"
prune-Swept_example = prune-Swept stuck 100 1000 600 stocked "r2"

prunes_both : (prune stuck 100 1000 600 stocked).1 ≡ 2
unfolding prune fado.Store.Prune.prune_ids fado.Store.Prune.prune_one fado.Store.Prune.is_live load
    fado.Store.Files.files fado.Store.Listing.decided verdict ack_info selection_info cancel_info
    fado.Store.Prune.oldest_of fado.Store.purge fado.Store.Files.put
prunes_both = refl
