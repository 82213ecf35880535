-- ===== src/Store/Files.antt =====
-- go/internal/store/store.go and secure_unix.go: the pending directory. Each request id has six
-- files; a file is its modification time and what json.Unmarshal makes of its contents, `none` where
-- it fails. The sealed artifact of an id under <dir>/sealed is two flags.
use fado.Base.{
  ℕ, ◌≡◌, refl, Bool, true, false, Option, none, some, List, [], ◌∷◌, String, arith, eq_iff,
  if◌then◌else◌, ◌==◌, string_eq, ◌||◌, Bool-cases, inl, inr,
}
use Prim.Native.String.{◌++◌ as append, compare as compare_text}
use text.Mathlib.Text.{is_lt}
use fado.Protocol.{
  PendingRecord, VerdictRecord, AckRecord, SelectionRecord, CancelRecord, ResultRecord,
}

pub data File {ℓ} (A : Type ℓ) : Type ℓ where
  absent : File A
  present : ℕ → Option A → File A

-- How a write goes: it works, or the open, the write or the sync fails.
pub data Fault : Type 0 where
  works open_fails write_fails sync_fails : Fault

module _ {ℓ} {A : Type ℓ} where
  -- os.ReadFile and json.Unmarshal.
  abbrev pub contents : File A → Option A
  contents absent = none
  contents (present t c) = c

  abbrev pub exists : File A → Bool
  exists absent = false
  exists (present t c) = true

  -- O_WRONLY|O_CREATE|O_EXCL, Write, Sync: the file after, and whether all of it succeeded. A failed
  -- write leaves a part of the data, which is no JSON value.
  unfoldable pub create_excl : Fault → ℕ → A → File A → File A × Bool
  create_excl fault now a (present t c) = (present t c, false)
  create_excl works now a absent = (present now (some a), true)
  create_excl open_fails now a absent = (absent, false)
  create_excl write_fails now a absent = (present now none, false)
  create_excl sync_fails now a absent = (present now (some a), false)

  -- writeNoFollow: O_WRONLY|O_CREATE|O_TRUNC, Write and, where `fsync`, Sync.
  unfoldable pub write_no_follow : Fault → Bool → ℕ → A → File A → File A × Bool
  write_no_follow works fsync now a f = (present now (some a), true)
  write_no_follow open_fails fsync now a f = (f, false)
  write_no_follow write_fails fsync now a f = (present now none, false)
  write_no_follow sync_fails fsync now a f = (present now (some a), if fsync then false else true)

pub record Artifacts : Type 0 where
  pub json : File PendingRecord
  pub verdict : File VerdictRecord
  pub result : File ResultRecord
  pub ack : File AckRecord
  pub selection : File SelectionRecord
  pub cancel : File CancelRecord
  pub sealed_archive : Bool
  pub sealed_dir : Bool

-- os.Remove, which leaves the file where it fails.
abbrev pub remove {ℓ} : {A : Type ℓ} → Bool → File A → File A
remove fails f = if fails then f else absent

abbrev pub no_files : Artifacts
no_files = record {
  json = absent;
  verdict = absent;
  result = absent;
  ack = absent;
  selection = absent;
  cancel = absent;
  sealed_archive = false;
  sealed_dir = false;
}

-- Keyed by request id, in the order in which os.ReadDir lists the .json files.
abbrev pub Dir : Type 0
Dir = List (String × Artifacts)

unfoldable pub files : Dir → String → Artifacts
files [] rid = no_files
files ((k, f) ∷ d) rid = if k == rid then f else files d rid

abbrev has : String → Dir → Bool
has rid [] = false
has rid ((k, f) ∷ d) = k == rid || has rid d

abbrev replace : String → Artifacts → Dir → Dir
replace rid f [] = []
replace rid f ((k, g) ∷ d) =
    let rest = replace rid f d in if k == rid then (k, f) ∷ d else (k, g) ∷ rest

-- os.ReadDir sorts by file name.
abbrev insert : String → Artifacts → Dir → Dir
insert rid f [] = (rid, f) ∷ []
insert rid f ((k, g) ∷ d) =
    let rest = insert rid f d in
    if is_lt (compare_text (append rid ".json") (append k ".json"))
    then (rid, f) ∷ (k, g) ∷ d
    else (k, g) ∷ rest

unfoldable pub put : String → Artifacts → Dir → Dir
put rid f d = if has rid d then replace rid f d else insert rid f d

files_absent : (rid : String) (d : Dir) → has rid d ≡ false → files d rid ≡ no_files
unfolding files
files_absent rid [] h = refl
files_absent rid ((k, g) ∷ d) h = ground (arith, files_absent rid d)

files-replace :
    (rid j : String) (f : Artifacts) (d : Dir)
    → has rid d ≡ true
    → files (replace rid f d) j ≡ (if rid == j then f else files d j)
unfolding files
files-replace rid j f [] h = cc
files-replace rid j f ((k, g) ∷ d) h =
    ground (arith, files-replace rid j f d, eq_iff k rid, eq_iff rid j, eq_iff k j)

files-insert :
    (rid j : String) (f : Artifacts) (d : Dir)
    → has rid d ≡ false
    → files (insert rid f d) j ≡ (if rid == j then f else files d j)
unfolding files
files-insert rid j f [] h = refl
files-insert rid j f ((k, g) ∷ d) h =
    ground (arith, files-insert rid j f d, eq_iff k rid, eq_iff rid j, eq_iff k j)

-- A write to one id is read back at that id, and changes no other.
pub files-put :
    (rid j : String) (f : Artifacts) (d : Dir)
    → files (put rid f d) j ≡ (if rid == j then f else files d j)
unfolding put
files-put rid j f d = elim (Bool-cases (has rid d)) [
  | inl h ↦ rw h (files-replace rid j f d h)
  | inr h ↦ rw h (files-insert rid j f d h)
]
