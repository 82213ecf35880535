-- ===== src/Service/Views/Checks.antt =====
-- go/internal/service/service.go: the drifts that List and Status show, and those that an approved run
-- is checked for.
use fado.Base.{
  subst, ◌≡◌, refl, ap, sym, ◌∙◌, inl, inr, Bool, true, false, Option, none, some, List, [], ◌∷◌,
  String, if◌then◌else◌, ◌==◌, Bool-cases, Option-cases, arith, some_injective, length, eq_iff,
  string_eq, nat_eq,
}
use fado.Text.{trim_space, append_text}
use fado.Protocol.{PendingRecord, PendingItem, GitPin, SealFile, Drift}
use fado.Policy.{Policy}
use fado.Store.{Store, load}
use fado.Service.Host.{Host}
use fado.Service.Pins.{snapshot_git, check_git_drift, git_drift, blocking}
use fado.Service.Pins.Entry.{check_fd_drift}
use fado.Service.Pins.Seals.{check_seal_drift, first_drift}
use fado.Service.Views.{
  shown_git, shown_fd, shown_seal, drift_if, item_view, status_view, tree_drift,
}

drift_if-same {ℓ} :
    {A : Type ℓ} (o : Option A) (d : Option Drift) → (o ≡ none → d ≡ none) → drift_if o d ≡ d
drift_if-same none d h = sym (h refl)
drift_if-same (some pin) d h = refl

no_elements : (xs : List SealFile) → (length xs == 0) ≡ true → xs ≡ []
no_elements [] h = refl
no_elements (x ∷ xs) h = absurd (ground arith)

kept_only {ℓ} :
    {A : Type ℓ} (b : Bool) (x y : A) → (if b then some x else none) ≡ some y → (x ≡ y) × (b ≡ true)
kept_only true x y e = (some_injective e, refl)
kept_only false x y e = cc

either_way {ℓ} : {A : Type ℓ} (b : Bool) (x : A) → (if b then x else x) ≡ x
either_way true x = refl
either_way false x = refl

module _ (os : Host) (p : Policy) (s : Store) (rid : String) (rec : PendingRecord)
    (here : load rid s ≡ some rec) where
  fd-shown : drift_if (shown_fd rec.fd) (check_fd_drift os rid s) ≡ check_fd_drift os rid s
  unfolding shown_fd check_fd_drift
  fd-shown = drift_if-same (shown_fd rec.fd) _ (λ hidden. elim (Option-cases rec.fd) [
    | inl e ↦ rw (here, e, check_fd_drift) refl
    | inr (pin, e) ↦ elim (Bool-cases (pin.path == "")) [
      | inl empty ↦ rw (here, e, empty, check_fd_drift) refl
      | inr path ↦ cc (rw (e, path, shown_fd) at hidden)
    ]
  ])

  seal-shown :
      drift_if (shown_seal rec.seal) (check_seal_drift os rid s) ≡ check_seal_drift os rid s
  unfolding shown_seal check_seal_drift first_drift
  seal-shown = drift_if-same (shown_seal rec.seal) _ (λ hidden. elim (Option-cases rec.seal) [
    | inl e ↦ rw (here, e, check_seal_drift) refl
    | inr (pin, e) ↦ elim (Bool-cases (length pin.files == 0)) [
      | inl empty ↦ rw (here, e, check_seal_drift, no_elements pin.files empty) refl
      | inr files ↦ cc (rw (e, files, shown_seal) at hidden)
    ]
  ])

  git-shown :
      drift_if (shown_git rec.git) (check_git_drift os p rid rec.cwd s)
      ≡ check_git_drift os p rid rec.cwd s
  unfolding shown_git check_git_drift
  git-shown = drift_if-same (shown_git rec.git) _ (λ hidden. elim (Option-cases rec.git) [
    | inl e ↦ rw (here, e, check_git_drift) refl
    | inr (pin, e) ↦ elim (Bool-cases pin.present) [
      | inr gone ↦ rw (here, e, gone, check_git_drift) refl
      | inl present ↦ cc (rw (e, present, shown_git) at hidden)
    ]
  ])

  compared : String → GitPin → Option GitPin → Option Drift
  compared dir pin none = none
  compared dir pin (some live) = git_drift os p dir pin live

  check-compared :
      (pin : GitPin)
      → rec.git ≡ some pin
      → pin.present ≡ true
      → check_git_drift os p rid rec.cwd s ≡ compared rec.cwd pin (snapshot_git os rec.cwd)
  unfolding check_git_drift compared snapshot_git git_drift
  check-compared pin e present =
      let dir = if rec.cwd == "" then rec.cwd else rec.cwd in
      let first : check_git_drift os p rid rec.cwd s ≡ compared dir pin (snapshot_git os dir) =
        rw (here, e, present, check_git_drift) refl in
      first ∙ ap (λ d. compared d pin (snapshot_git os d)) (either_way (rec.cwd == "") rec.cwd)

  no_snapshot : (dir : String) → (dir == "") ≡ true → snapshot_git os dir ≡ none
  unfolding snapshot_git trim_space
  no_snapshot dir empty = subst (λ d. snapshot_git os d ≡ none) (sym ((eq_iff dir "").0 empty)) refl

  drift-gone :
      (dir : String) (pin live : GitPin)
      → live.present ≡ false
      → git_drift os p dir pin live
        ≡ some
            (blocking (append_text "git worktree at " (append_text dir " is no longer a git repo")))
  unfolding git_drift
  drift-gone dir pin live gone = rw (gone, git_drift) refl

  tree_drift-check :
      (pin : GitPin)
      → rec.git ≡ some pin
      → pin.present ≡ true
      → tree_drift os p rid rec.cwd s ≡ check_git_drift os p rid rec.cwd s
  unfolding tree_drift compared
  tree_drift-check pin e present =
      let check = check-compared pin e present in
      elim (Bool-cases (rec.cwd == "")) [
        | inl empty ↦
            rw (empty, tree_drift)
              (sym (check ∙ ap (compared rec.cwd pin) (no_snapshot rec.cwd empty)))
        | inr dir ↦ elim (Option-cases (snapshot_git os rec.cwd)) [
          | inl no_live ↦
              rw (dir, no_live, tree_drift) (sym (check ∙ ap (compared rec.cwd pin) no_live))
          | inr (live, f) ↦ elim (Bool-cases live.present) [
            | inl still ↦ rw (dir, f, still, tree_drift) refl
            | inr gone ↦
                rw (dir, f, gone, tree_drift)
                  (sym (check ∙ ap (compared rec.cwd pin) f ∙ drift-gone rec.cwd pin live gone))
          ]
        ]
      ]

  shown-pin :
      (o : Option GitPin) (pin : GitPin)
      → shown_git o ≡ some pin
      → (o ≡ some pin) × (pin.present ≡ true)
  unfolding shown_git
  shown-pin none pin e = cc
  shown-pin (some other) pin e =
      let (same, present) = kept_only other.present other pin e in
      (ap some same, subst (λ (x : GitPin). x.present ≡ true) same present)

  tree-shown :
      drift_if (shown_git rec.git) (tree_drift os p rid rec.cwd s)
      ≡ check_git_drift os p rid rec.cwd s
  tree-shown = elim (Option-cases (shown_git rec.git)) [
    | inl hidden ↦
        let same : drift_if (shown_git rec.git) (tree_drift os p rid rec.cwd s)
            ≡ drift_if (shown_git rec.git) (check_git_drift os p rid rec.cwd s) =
          rw hidden refl in
        same ∙ git-shown
    | inr (pin, e) ↦
        let (pinned, present) = shown-pin rec.git pin e in
        rw e (tree_drift-check pin pinned present)
  ]

-- The drifts of work tree, entry and manifest that List and Status show for a petition are the ones that
-- the checks of an approved run find at that time.
pub views_show_checks :
    (os : Host) (p : Policy) (s : Store) (item : PendingItem) (rec : PendingRecord)
    → load item.id s ≡ some rec
    → let git = check_git_drift os p item.id rec.cwd s in
      let fd = check_fd_drift os item.id s in
      let seal = check_seal_drift os item.id s in
      (((item_view os p s item).git_drift ≡ git)
        × ((item_view os p s item).fd_drift ≡ fd)
        × ((item_view os p s item).seal_drift ≡ seal))
      × (((status_view os p item.id s).git_drift ≡ git)
          × ((status_view os p item.id s).fd_drift ≡ fd)
          × ((status_view os p item.id s).seal_drift ≡ seal))
unfolding item_view status_view
views_show_checks os p s item rec here =
    let git = git-shown os p s item.id rec here in
    let fd = fd-shown os p s item.id rec here in
    let seal = seal-shown os p s item.id rec here in
    rw (here, item_view, status_view)
      ((git, fd, seal), (tree-shown os p s item.id rec here, fd, seal))
