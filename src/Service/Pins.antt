-- ===== src/Service/Pins.antt =====
-- go/internal/service/gitpin.go: the state of the work tree when a petition is made, and its
-- comparison with the state when it is approved.
pub mod Entry
pub mod Seals
pub mod Frozen
pub mod Unchanged
pub mod Detected
pub mod Faithful
use fado.Base.{
  ℕ, Bool, true, false, not, ◌||◌, ◌&&◌, Option, none, some, List, [], ◌∷◌, String, ltb,
  if◌then◌else◌, ◌==◌, string_eq,
}
use fado.Text.{trim_space, len, take_bytes, append_text}
use fado.Protocol.{PendingRecord, GitPin, Drift}
use fado.Policy.{Policy}
use fado.Store.{Store, load}
use fado.Service.Host.{Host}

abbrev pub max_porcelain : ℕ
max_porcelain = 32768

-- A pin of a directory that is no work tree.
abbrev pub absent_pin : GitPin
absent_pin = record { head = ""; branch = ""; porcelain = ""; clean = false; present = false }

abbrev cut_porcelain : String → String
cut_porcelain text =
    if ltb max_porcelain (len text)
    then append_text (take_bytes max_porcelain text) "\n…[truncated]"
    else text

abbrev pub blocking : String → Drift
blocking reason = record { drift = true; block = true; reason = reason }

unfoldable pub short_head : String → String
short_head h =
    let h = trim_space h in
    if ltb 12 (len h) then take_bytes 12 h else if h == "" then "unknown" else h

module _ (os : Host) where
  unfoldable pub snapshot_git : String → Option GitPin
  snapshot_git cwd = if trim_space cwd == "" then none else elim (os.stat cwd) [
    | none ↦ none
    | some info ↦ elim (os.look_path "git") [
      | none ↦ none
      | some path ↦ elim (os.git cwd ("rev-parse" ∷ "HEAD" ∷ [])) [
        | none ↦ some absent_pin
        | some head ↦ elim (os.git cwd ("rev-parse" ∷ "--abbrev-ref" ∷ "HEAD" ∷ [])) [
          | none ↦ some absent_pin
          | some branch ↦
              elim (os.git cwd ("status" ∷ "--porcelain=v1" ∷ "--untracked-files=normal" ∷ [])) [
                | none ↦ none
                | some out ↦ some (record {
                  head = trim_space head;
                  branch = trim_space branch;
                  porcelain = cut_porcelain out;
                  clean = trim_space (cut_porcelain out) == "";
                  present = true;
                })
              ]
        ]
      ]
    ]
  ]

  unfoldable pub git_strict : Policy → Bool
  git_strict p =
      if p.mode == "whitelist"
      then true
      else let word = os.to_lower (trim_space (os.getenv "TWOFADO_GIT_STRICT")) in
        word == "1" || word == "true" || word == "yes" || word == "strict" || word == "block"

  dirty_reason : GitPin → GitPin → String
  dirty_reason pinned live =
      if pinned.clean && not live.clean
      then "DIRTY WORKSPACE: clean tree at petition is now dirty"
      else if not pinned.clean && live.clean
      then "DIRTY WORKSPACE: dirty tree at petition is now clean"
      else "DIRTY WORKSPACE: tree state changed since petition"

  -- The comparison of the two pins, for the directory `dir`.
  unfoldable pub git_drift : Policy → String → GitPin → GitPin → Option Drift
  unfolding dirty_reason
  git_drift p dir pinned live =
      if not live.present
      then some
          (blocking (append_text "git worktree at " (append_text dir " is no longer a git repo")))
      else if not (live.head == pinned.head)
      then some (
          blocking (
            append_text "HEAD moved "
              (append_text (short_head pinned.head) (append_text " -> " (short_head live.head)))))
      else if not (live.branch == pinned.branch)
      then some (
          blocking (
            append_text "branch switch "
              (append_text pinned.branch (append_text " -> " live.branch))))
      else if not (live.porcelain == pinned.porcelain)
      then some (record { drift = true; block = git_strict p; reason = dirty_reason pinned live })
      else none

  unfoldable pub check_git_drift : Policy → String → String → Store → Option Drift
  unfolding git_drift snapshot_git
  check_git_drift p rid cwd s = elim (load rid s) [
    | none ↦ none
    | some rec ↦ elim rec.git [
      | none ↦ none
      | some pinned ↦
          if not pinned.present
          then none
          else let dir = if rec.cwd == "" then cwd else rec.cwd in
            elim (snapshot_git dir) [ none ↦ none | some live ↦ git_drift p dir pinned live ]
    ]
  ]
