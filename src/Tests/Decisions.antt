-- ===== src/Tests/Decisions.antt =====
-- Submit, Ack and Cancel over a store with a run that waits, and the capped writer.
use fado.Store.Status.{status}
use fado.Base.{
  minus_one, zero, ap, refl, none, some, [], ◌∷◌, true, false, ℕ, pos, List, String, ◌≡◌, ◌≢◌, ◌⊎◌,
  length, arith, ◌≤◌, ◌+◌,
}
use fado.Text.{trim_space}
use fado.Protocol.{PendingRecord, zero_record}
use fado.Store.{Store, verdict, load}
use fado.Store.Files.{Fault, works, absent, present, no_files, files}
use fado.Store.Writes.{Write, consumes, saves_result, perform_all}
use fado.Service.Output.{
  write_all, new_capped_writer, captured, bound_output, truncation_marker, cap_bytes,
}
use fado.Service.Output.Laws.{captured-write_all, written_in_full}
use fado.Service.Decisions.{
  World, Env, CancelRequest, VerdictSubmit, AckSubmit, submit, ack_petition, is_admin_uid,
}
use fado.Service.Decisions.Attribution.{clean_by, clean_by-Clean, rune_count, each_by_rune}
use fado.Service.Decisions.Cancels.{cancel_petition}
use fado.Service.Decisions.Final.{cancel_petition_settles}
use fado.Service.Decisions.Refusals.{Untouched, outsider_decides_nothing, submit_recorded}

abbrev build : PendingRecord
build = record zero_record { argv = "make" ∷ []; uid = 1000; expires = 500; step = "initial" }

abbrev pub office : World
office = record {
  store = record {
    pending = ("r1", record no_files { json = present 10 (some build) }) ∷ [];
    audit = [];
    offset = none;
  };
  resumed = [];
}

abbrev pub desk : Env
desk = record {
  uid = 900;
  now = 60;
  now_unix = 40;
  ts = "t";
  fault = λ n. works;
  cont_error = λ pgid. "";
}

abbrev stop_it : CancelRequest
stop_it = record { id = " r1 "; by = "bob!"; reason = "late" }

abbrev yes : VerdictSubmit
yes = record { id = "r1"; decision = "approve"; by = "al ice" }

abbrev seen : AckSubmit
seen = record { id = "r1"; by = "eve" }

-- What another goroutine still writes.
abbrev pub race : List (Fault × ℕ × Write)
race =
    (works, 70, consumes "r1" "approve" "mallory")
    ∷ (works, 80, saves_result "r1" (pos 0) "done")
    ∷ []

cancel_trims : (cancel_petition desk stop_it 1000 office).1.cancelled ≡ true
unfolding cancel_petition trim_space load fado.Store.Files.files fado.Store.cancel_info
    fado.Service.Decisions.Cancels.verdict_is verdict fado.Service.Decisions.Cancels.child_cancelled
    fado.Store.find_confirmation
cancel_trims = refl

cancel_by_stranger : (cancel_petition desk stop_it 1001 office).1.error ≡ "unauthorized"
unfolding cancel_petition trim_space load fado.Store.Files.files
cancel_by_stranger = refl

cleaned_text : clean_by "al ice!" ≡ "alice"
unfolding clean_by fado.Service.Decisions.Attribution.kept_runes
    fado.Service.Decisions.Attribution.is_by_rune
cleaned_text = refl

cleaned_away : clean_by "???" ≡ "local"
unfolding clean_by fado.Service.Decisions.Attribution.kept_runes
    fado.Service.Decisions.Attribution.is_by_rune
cleaned_away = refl

cut_marked : bound_output (1 ∷ 2 ∷ 3 ∷ []) 2 ≡ 1 ∷ 2 ∷ truncation_marker 1 2
unfolding bound_output
cut_marked = refl

default_ceiling : cap_bytes (pos 0) ≡ 262144
unfolding cap_bytes
default_ceiling = refl

cancel_petition_settles_example :
    verdict "r1" (perform_all race (cancel_petition desk stop_it 1000 office).0.store)
    ≡ some (record { decision = "cancelled"; by = "bob"; unix_nano = 60 })
unfolding load fado.Store.Files.files trim_space fado.Service.Decisions.Cancels.already_cancelled
    fado.Store.cancel_info fado.Service.Decisions.Cancels.verdict_is verdict
    fado.Service.Decisions.Cancels.child_cancelled fado.Store.find_confirmation cancel_petition
    clean_by fado.Service.Decisions.Attribution.kept_runes
    fado.Service.Decisions.Attribution.is_by_rune
cancel_petition_settles_example =
    cancel_petition_settles desk stop_it 1000 office build race (λ n. refl) refl (λ e. cc) (λ e. cc)
      refl refl refl

submit_recorded_example :
    ((◌≡◌ {A = ℕ} 900 0) ⊎ (◌≡◌ {A = ℕ} 900 900))
    × ((◌≡◌ {A = String} "approve" "approve") ⊎ (◌≡◌ {A = String} "approve" "deny"))
    × (verdict "r1" (perform_all race (submit desk yes 900 office).0.store)
        ≡ some (record { decision = "approve"; by = "alice"; unix_nano = 60 }))
unfolding submit is_admin_uid fado.Store.consume fado.Store.Files.create_excl files clean_by
    fado.Service.Decisions.Attribution.kept_runes fado.Service.Decisions.Attribution.is_by_rune
submit_recorded_example = submit_recorded desk yes 900 office race refl

-- The petition's owner is 1000.
stranger : (rec : PendingRecord) → load "r1" office.store ≡ some rec → ◌≢◌ {A = ℕ} 1001 rec.uid
unfolding load files
stranger rec found same =
    let owner : 1000 ≡ rec.uid = ap (λ o. elim o [ none ↦ zero | some r ↦ r.uid ]) found in
    absurd (omega (arith, owner, same))

outsider_decides_nothing_example :
    (Untouched office (submit desk yes 1001 office).0
      × ((submit desk yes 1001 office).1.recorded ≡ false))
    × (Untouched office (ack_petition desk seen 1001 office).0
        × ((ack_petition desk seen 1001 office).1.acked ≡ false))
    × (Untouched office (cancel_petition desk stop_it 1001 office).0
        × ((cancel_petition desk stop_it 1001 office).1.cancelled ≡ false))
unfolding is_admin_uid trim_space
outsider_decides_nothing_example =
    outsider_decides_nothing desk 1001 office yes seen stop_it refl
      (λ rec found. stranger rec found)

clean_by-Clean_example :
    (clean_by "al ice!" ≢ "")
    × (rune_count (clean_by "al ice!") ≤ 64)
    × (each_by_rune (clean_by "al ice!") ≡ true)
    × (clean_by (clean_by "al ice!") ≡ clean_by "al ice!")
clean_by-Clean_example = clean_by-Clean "al ice!"

captured-write_all_example :
    captured (write_all ((1 ∷ 2 ∷ []) ∷ (3 ∷ 4 ∷ []) ∷ []) (new_capped_writer 3))
    ≡ bound_output (1 ∷ 2 ∷ 3 ∷ 4 ∷ []) 3
captured-write_all_example = captured-write_all 3 ((1 ∷ 2 ∷ []) ∷ (3 ∷ 4 ∷ []) ∷ []) (omega arith)

written_in_full_example :
    (length (write_all ((1 ∷ 2 ∷ []) ∷ (3 ∷ 4 ∷ []) ∷ []) (new_capped_writer 3)).buf
        + (write_all ((1 ∷ 2 ∷ []) ∷ (3 ∷ 4 ∷ []) ∷ []) (new_capped_writer 3)).dropped
      ≡ 4)
    × (length (write_all ((1 ∷ 2 ∷ []) ∷ (3 ∷ 4 ∷ []) ∷ []) (new_capped_writer 3)).buf ≤ 3)
written_in_full_example = written_in_full 3 ((1 ∷ 2 ∷ []) ∷ (3 ∷ 4 ∷ []) ∷ [])

-- A run that timed out, and was approved after that.
abbrev late : Store
late = record {
  pending =
      (
        "r1",
        record no_files {
          json = present 10 (some build);
          verdict =
              present 700 (some (record { decision = "approve"; by = "al"; unix_nano = 700 }));
          result = present 600 (some (record { id = "r1"; exit = minus_one; output = "" }));
        },
      )
      ∷ [];
  audit = [];
  offset = none;
}

late_reads_done : (status "r1" 900 late).status ≡ "completed"
unfolding status load files fado.Store.Status.exec_status fado.Store.cancel_info verdict
    fado.Store.Status.verdict_status fado.Store.Status.finished_status fado.Store.Status.outcome
    fado.Store.Status.child_result fado.Store.find_confirmation
late_reads_done = refl
