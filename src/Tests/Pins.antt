-- ===== src/Tests/Pins.antt =====
-- The checks of an approval on a machine that stays as it is, and the copies of its sealed file.
use fado.Base.{refl, none, some, [], ◌∷◌, true, ◌==◌, string_eq, ◌≡◌, inl, inr, length}
use fado.Policy.Rules.{load_defaults}
use fado.Protocol.{PendingRecord, zero_record, GitPin, FdPin, SealFile}
use fado.Store.{Store, load, verdict}
use fado.Store.Files.{works, no_files, present}
use fado.Service.Pins.{git_drift}
use fado.Service.Pins.Seals.{first_drift}
use fado.Base.{arith, ap, Bool-cases, eq_iff, ◌||◌}
use fado.Protocol.{SealPin}
use fado.Service.Pins.{check_git_drift, snapshot_git}
use fado.Service.Pins.Entry.{snapshot_entry, check_fd_drift, safe_path}
use fado.Service.Pins.Seals.{check_seal_drift}
use fado.Service.Pins.Frozen.{Copy, snapshot_seal, materialize_seal, distinct}
use fado.Service.Pins.Unchanged.{Honest, unchanged_petition}
use fado.Service.Pins.Detected.{SameFile, first_drift-SameFile}
use fado.Service.Pins.Faithful.{AllSealed, materialize_seal-AllSealed}
use fado.Tests.Machines.{bytes_of}
use fado.Tests.Machines.{quiet}

abbrev pub empty : Store
empty = record { pending = []; audit = []; offset = none }

-- The record of an approved petition.
abbrev pub filed : PendingRecord
filed = record zero_record {
  argv = "make" ∷ "in.txt" ∷ [];
  uid = 900;
  cwd = "/w";
  expires = 360;
  fd = snapshot_entry quiet ("make" ∷ "in.txt" ∷ []) "/w";
  git = snapshot_git quiet "/w";
  seal = (snapshot_seal quiet "/s" (λ s. "d1") "q1" ("make" ∷ "in.txt" ∷ []) "/w" empty).1;
}

abbrev pub filed_store : Store
filed_store = record {
  pending = ("q1", record no_files { json = present 10 (some filed) }) ∷ [];
  audit = [];
  offset = none;
}

quiet-Honest : Honest quiet
quiet-Honest path info b e f = elim (Bool-cases (path == "/w")) [
  | inl g ↦
      let other : bytes_of path ≡ none = ap bytes_of ((eq_iff path "/w").0 g) in
      absurd (cc (other, f))
  | inr g ↦ elim (Bool-cases (path == "/w/in.txt" || path == "/usr/bin/make")) [
    | inl h ↦ ground (arith, e, f, g, h)
    | inr h ↦ absurd (ground (arith, e, g, h))
  ]
]

pub filed_loads : load "q1" filed_store ≡ some filed
unfolding load fado.Store.Files.files
filed_loads = refl

unchanged_petition_example :
    (check_fd_drift quiet "q1" filed_store ≡ none)
    × (check_git_drift quiet load_defaults "q1" "/w" filed_store ≡ none)
    × (check_seal_drift quiet "q1" filed_store ≡ none)
unchanged_petition_example =
    unchanged_petition quiet quiet-Honest load_defaults "/s" (λ s. "d1") "q1" "/w" filed_store empty
      filed filed_loads refl refl refl

abbrev make_pin : FdPin
make_pin = record {
  path = "/usr/bin/make";
  resolved = "/usr/bin/make";
  sha256 = "5a";
  dev = 8;
  ino = 77;
  size = 2;
  mode = 493;
  is_script = true;
  interpreter = "/bin/sh";
  interp_arg = "-e";
}

make_is_pinned : snapshot_entry quiet ("make" ∷ []) "/w" ≡ some make_pin
unfolding snapshot_entry fado.Text.trim_space fado.Service.Pins.Entry.split_list
    fado.Service.Pins.Entry.path_of fado.Text.fields fado.Text.join
make_is_pinned = refl

abbrev main_tree : GitPin
main_tree = record { head = "a1"; branch = "main"; porcelain = ""; clean = true; present = true }

abbrev in_file : SealFile
in_file = record { rel = "in.txt"; abs = "/w/in.txt"; sha256 = "c0"; size = 2; mode = 493 }

in_file_stays : first_drift quiet (in_file ∷ []) ≡ none
unfolding first_drift
in_file_stays = refl

first_drift-SameFile_example : SameFile quiet in_file
first_drift-SameFile_example =
    first_drift-SameFile quiet (in_file ∷ []) in_file_stays 0 in_file refl

frozen :
    (materialize_seal quiet "/s" "q1" filed_store).1
    ≡ some ("/s/sealed/q1.d", record { rel = "in.txt"; bytes = 104 ∷ 105 ∷ [] } ∷ [])
unfolding materialize_seal load fado.Store.Files.files snapshot_seal fado.Text.trim_space
    fado.Service.Pins.Seals.seal_blobs fado.Service.Pins.Seals.seal_candidates
    fado.Service.Pins.Frozen.take_all_out fado.Service.Pins.Frozen.take_out
    fado.Service.Pins.Frozen.wanted distinct
frozen = refl

materialize_seal-AllSealed_example :
    (rec : PendingRecord) × (pin : SealPin) × (load "q1" filed_store ≡ some rec)
    × (rec.seal ≡ some pin)
    × AllSealed quiet pin.files (record { rel = "in.txt"; bytes = 104 ∷ 105 ∷ [] } ∷ [])
    × (length {A = Copy} (record { rel = "in.txt"; bytes = 104 ∷ 105 ∷ [] } ∷ [])
        ≡ distinct pin.files)
materialize_seal-AllSealed_example =
    materialize_seal-AllSealed quiet "/s" "q1" "/s/sealed/q1.d" filed_store
      (record { rel = "in.txt"; bytes = 104 ∷ 105 ∷ [] } ∷ []) frozen
