-- ===== src/Service/Preview/Impact.antt =====
-- go/internal/service/preview.go: PreviewImpact, isCriticalTarget and isOutsideCwd. `os` is the host.
pub mod Levels
use fado.Base.{
  ℕ, ◌+◌, Bool, true, false, not, ◌||◌, ◌&&◌, Option, none, some, List, [], ◌∷◌, ◌++◌, map, String,
  if◌then◌else◌, ◌==◌, string_eq, nat_eq, ltb, leb, length, any,
}
use fado.Text.{has_prefix, append_text, decimal, contains_rune}
use fado.Protocol.{PreviewRecord}
use fado.Service.Host.{Host}
use fado.Service.Pins.Entry.{resolve_binary}
use fado.Service.Preview.{Classified}
use fado.Service.Preview.Commands.{classify_command}

abbrev max_sample_paths : ℕ
max_sample_paths = 10

abbrev max_walk_limit : ℕ
max_walk_limit = 1000

-- What the loop over the targets has gathered: the reason of the first critical target and the first
-- path outside, if there is one.
pub record Gathered : Type 0 where
  pub affected_count : ℕ
  pub sample_paths : List String
  pub critical_reason : Option String
  pub outside_path : Option String

abbrev pub nothing : Gathered
nothing = record {
  affected_count = 0;
  sample_paths = [];
  critical_reason = none;
  outside_path = none;
}

abbrev sys_dirs : List String
sys_dirs =
    "/etc" ∷ "/usr" ∷ "/boot" ∷ "/var" ∷ "/root" ∷ "/sys" ∷ "/proc" ∷ "/dev" ∷ "/bin" ∷ "/sbin"
    ∷ "/lib" ∷ "/lib64" ∷ "/opt" ∷ "/srv" ∷ []

-- The samples that are seen are those that are kept.
unfoldable pub add_sample : String → List String → List String
add_sample p samples =
    if ltb (length samples) max_sample_paths && not (any (λ s. s == p) samples)
    then samples ++ p ∷ []
    else samples

unfoldable pub affect : String → Gathered → Gathered
unfolding add_sample
affect p g = record g {
  affected_count = g.affected_count + 1;
  sample_paths = add_sample p g.sample_paths;
}

-- The walk ends where the limit is reached.
unfoldable pub walked : List (Option String) → Gathered → Gathered
walked [] g = g
walked (none ∷ visits) g = walked visits g
walked (some p ∷ visits) g =
    let g' = affect p g in
    let rest = walked visits g' in if leb max_walk_limit g'.affected_count then g' else rest

abbrev first : Option String → Option String → Option String
first none new = new
first (some old) new = some old

unfoldable pub level_of : Gathered → String
level_of g = elim g.critical_reason [
  | some reason ↦ "critical"
  | none ↦ elim g.outside_path [
    | some path ↦ "high"
    | none ↦ if ltb 10 g.affected_count then "high" else "medium"
  ]
]

unfoldable pub reason_of : Bool → Gathered → String
reason_of is_deletion g = elim g.critical_reason [
  | some reason ↦ reason
  | none ↦ elim g.outside_path [
    | some path ↦ append_text "Targets path outside working directory: " path
    | none ↦
        let files = decimal g.affected_count in
        if ltb 10 g.affected_count
        then append_text "Affects " (append_text files " files (exceeds threshold of 10)")
        else if not is_deletion
        then "Modifies files within working directory"
        else if g.affected_count == 1
        then "Deletes file within working directory"
        else append_text "Deletes " (append_text files " files within working directory")
  ]
]

module _ (os : Host) where
  -- `none` where the path is not critical, else the reason.
  unfoldable pub is_critical_target : String → Option String
  is_critical_target p =
      let clean = os.clean p in
      if clean == "/"
      then some "Matches root filesystem pattern: /"
      else if clean == "/home"
      then some "Targets system root directory: /home"
      else if any (λ sys. clean == sys || has_prefix clean (append_text sys "/")) sys_dirs
      then some (append_text "Targets critical system directory: " clean)
      else none

  unfoldable pub is_outside_cwd : String → String → Bool
  is_outside_cwd cwd target = elim (os.relative (os.clean cwd) (os.clean target)) [
    | none ↦ true
    | some rel ↦ rel == ".." || has_prefix rel "../"
  ]

  -- The paths that a target means.
  unfoldable pub target_paths : String → String → List String
  target_paths cwd raw =
      let target_abs = if os.is_abs raw then os.clean raw else os.clean (os.path_join cwd raw) in
      if contains_rune raw 42 || contains_rune raw 63 || contains_rune raw 91
      then (elim (os.glob target_abs) [
        | none ↦ target_abs ∷ []
        | some matches ↦ if ltb 0 (length matches) then matches else target_abs ∷ []
      ])
      else target_abs ∷ []

  unfoldable pub counted : Bool → String → Gathered → Gathered
  unfolding affect walked
  counted is_recursive p g = elim (os.lstat p) [
    | none ↦ affect p g
    | some is_dir ↦ if is_dir && is_recursive then walked (os.walk p) g else affect p g
  ]

  abbrev pub marked : String → String → Gathered → Gathered
  marked cwd p g = record g {
    critical_reason = first g.critical_reason (is_critical_target p);
    outside_path = first g.outside_path (if is_outside_cwd cwd p then some p else none);
  }

  -- One path of a target.
  unfoldable pub gather_path : String → Bool → String → Gathered → Gathered
  unfolding is_critical_target is_outside_cwd counted
  gather_path cwd is_recursive raw g =
      let p = os.clean raw in counted is_recursive p (marked cwd p g)

  unfoldable pub gather_paths : String → Bool → List String → Gathered → Gathered
  gather_paths cwd is_recursive [] g = g
  gather_paths cwd is_recursive (p ∷ ps) g =
      gather_paths cwd is_recursive ps (gather_path cwd is_recursive p g)

  unfoldable pub gather : String → Bool → List String → Gathered → Gathered
  gather cwd is_recursive [] g = g
  gather cwd is_recursive (raw ∷ raws) g =
      gather cwd is_recursive raws (gather_paths cwd is_recursive (target_paths cwd raw) g)

  abbrev or_dot : List String → List String
  or_dot [] = "." ∷ []
  or_dot (t ∷ ts) = t ∷ ts

  abbrev working_dir : String → String
  working_dir cwd =
      os.clean (if cwd == "" then (elim os.getwd [ some wd ↦ wd | none ↦ "." ]) else cwd)

  unfoldable pub preview_impact : List String → String → List String → PreviewRecord
  unfolding gather gather_paths level_of reason_of
  preview_impact [] cwd env = record {
    resolved_binary = "";
    target_cwd = cwd;
    affected_count = 0;
    sample_paths = [];
    risk_level = "low";
    risk_reason = "";
  }
  preview_impact (bin ∷ args) cwd env =
      let clean_cwd = working_dir cwd in
      let resolved_bin = resolve_binary os bin clean_cwd env in
      let c = classify_command os.base (os.base bin) (bin ∷ args) in
      if not c.is_destructive
      then record {
        resolved_binary = resolved_bin;
        target_cwd = clean_cwd;
        affected_count = 0;
        sample_paths = [];
        risk_level = "low";
        risk_reason = "";
      }
      else let g = gather clean_cwd c.is_recursive (or_dot c.targets) nothing in
        record {
          resolved_binary = resolved_bin;
          target_cwd = clean_cwd;
          affected_count = g.affected_count;
          sample_paths = g.sample_paths;
          risk_level = level_of g;
          risk_reason = reason_of c.is_deletion g;
        }
