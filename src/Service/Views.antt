-- ===== src/Service/Views.antt =====
-- go/internal/service/service.go: List, Recent and Status, which put the pins of a petition and the
-- drifts that are found now to what the store answers. `os` is the host at that time.
pub mod Checks
use fado.Base.{
  Bool, not, ◌&&◌, Option, none, some, List, [], map, String, ℤ, is_minus_one, if◌then◌else◌, ◌==◌,
  string_eq, nat_eq, length,
}
use fado.Text.{trim_space, has_prefix, trim_prefix, append_text}
use fado.Protocol.{GitPin, FdPin, SealPin, Drift, PendingItem, RecentItem, StatusResponse}
use fado.Policy.{Policy}
use fado.Store.{Store, load}
use fado.Store.Listing.{list}
use fado.Store.Recent.{recent}
use fado.Store.Status.{status}
use fado.Service.Host.{Host}
use fado.Service.Pins.{snapshot_git, check_git_drift, blocking}
use fado.Service.Pins.Entry.{check_fd_drift}
use fado.Service.Pins.Seals.{check_seal_drift}

-- The pins that are shown: of a work tree, of a file with a path, of a manifest with files.
unfoldable pub shown_git : Option GitPin → Option GitPin
shown_git none = none
shown_git (some pin) = if pin.present then some pin else none

unfoldable pub shown_fd : Option FdPin → Option FdPin
shown_fd none = none
shown_fd (some pin) = if pin.path == "" then none else some pin

unfoldable pub shown_seal : Option SealPin → Option SealPin
shown_seal none = none
shown_seal (some pin) = if length pin.files == 0 then none else some pin

-- A drift counts only where its pin is shown.
abbrev drift_if {ℓ} : {A : Type ℓ} → Option A → Option Drift → Option Drift
drift_if none d = none
drift_if (some pin) d = d

-- The drift that a refused run left in its output.
unfoldable pub told_drift : String → ℤ → String → Option Drift
told_drift prefix exit output =
    if is_minus_one exit && has_prefix output prefix
    then some (blocking (trim_space (trim_prefix output prefix)))
    else none

unfoldable pub recent_view : ℤ → Store → List RecentItem
unfolding told_drift
recent_view limit s =
    map
      (λ (item : RecentItem). record item {
        git_drift = told_drift "git-drift:" item.exit item.output;
        fd_drift = told_drift "fd-drift:" item.exit item.output;
        seal_drift = told_drift "seal-drift:" item.exit item.output;
      })
      (recent limit s)

-- A refused run reads as denied, for the reason in its output.
unfoldable pub refused_status : String → String → StatusResponse → StatusResponse
refused_status prefix word st =
    if has_prefix st.output prefix && is_minus_one st.exit
    then record st { status = "denied"; decision = word }
    else st

module _ (os : Host) (p : Policy) where
  unfoldable pub item_view : Store → PendingItem → PendingItem
  unfolding shown_git shown_fd shown_seal
  item_view s item = elim (load item.id s) [
    | none ↦ item
    | some rec ↦
        let git = shown_git rec.git in
        let fd = shown_fd rec.fd in
        let seal = shown_seal rec.seal in
        record item {
          git = git;
          git_drift = drift_if git (check_git_drift os p item.id rec.cwd s);
          fd = fd;
          fd_drift = drift_if fd (check_fd_drift os item.id s);
          seal = seal;
          seal_drift = drift_if seal (check_seal_drift os item.id s);
          suspend = rec.suspend;
        }
  ]

  -- `paseo` says whether requests are paged by this list.
  unfoldable pub list_view : Bool → Store → List PendingItem
  unfolding item_view
  list_view paseo s = if not paseo then [] else map (item_view s) (list os.env.now_unix s)

  -- The drift of a work tree that is shown, in a directory.
  unfoldable pub tree_drift : String → String → Store → Option Drift
  tree_drift rid dir s = if dir == "" then none else elim (snapshot_git os dir) [
    | none ↦ none
    | some live ↦
        if not live.present
        then some
            (blocking (append_text "git worktree at " (append_text dir " is no longer a git repo")))
        else check_git_drift os p rid dir s
  ]

  unfoldable pub status_view : String → Store → StatusResponse
  unfolding refused_status shown_git shown_fd shown_seal tree_drift
  status_view rid s =
      let st = refused_status "seal-drift:" "seal-drift" (
        refused_status "fd-drift:" "fd-drift"
          (refused_status "git-drift:" "git-drift" (status rid os.env.now_unix s))) in
      elim (load rid s) [
        | none ↦ st
        | some rec ↦
            let git = shown_git rec.git in
            let fd = shown_fd rec.fd in
            let seal = shown_seal rec.seal in
            record st {
              suspend = rec.suspend;
              fd = fd;
              fd_drift = drift_if fd (check_fd_drift os rid s);
              seal = seal;
              seal_drift = drift_if seal (check_seal_drift os rid s);
              git = git;
              git_drift = drift_if git (tree_drift rid rec.cwd s);
            }
      ]
