-- ===== src/Service/Pins/Detected.antt =====
-- go/internal/service/fdpin.go, gitpin.go and seal.go: what the checks at an approval detect.
use fado.Base.{
  ℕ, ◌≡◌, ◌≢◌, ◌⊎◌, ◌↔◌, inl, inr, sym, ap, ◌∙◌, true, none, some, List, [], ◌∷◌, String, arith,
  Bool-cases, Option-cases, ◌==◌, eq_iff, string_eq, nat_eq, nat_beq_iff, get_elem?, zero, suc,
  some_injective,
}
use fado.Protocol.{FdPin, GitPin, SealFile}
use fado.Policy.{Policy}
use fado.Service.Host.{Host, OpenFile, FileInfo}
use fado.Service.Pins.{git_drift}
use fado.Service.Pins.Seals.{live_drift, first_drift}

-- The pin is that of the file: its bytes, and its device and inode unless the pin's inode is 0.
abbrev pub IsPinOf : FdPin → OpenFile → Type 0
IsPinOf pin f = (f.sha256 ≡ some pin.sha256) × (pin.ino ≢ 0 → f.identity ≡ some (pin.dev, pin.ino))

module _ (os : Host) where
  -- The work tree is there and as it was.
  abbrev pub SameTree : GitPin → GitPin → Type 0
  SameTree pinned live =
      (live.present ≡ true)
      × (live.head ≡ pinned.head)
      × (live.branch ≡ pinned.branch)
      × (live.porcelain ≡ pinned.porcelain)

  -- Two states of a work tree show no drift exactly when the second is one of a repository and has the
  -- head, the branch and the status of the first.
  pub git_drift-SameTree :
      (p : Policy) (dir : String) (pinned live : GitPin)
      → (git_drift os p dir pinned live ≡ none) ↔ SameTree pinned live
  unfolding git_drift
  git_drift-SameTree p dir pinned live =
      let h = eq_iff live.head pinned.head in
      let b = eq_iff live.branch pinned.branch in
      let s = eq_iff live.porcelain pinned.porcelain in
      (
        λ e. (
          ground (arith, e),
          ground (arith, e, h),
          ground (arith, e, h, b),
          ground (arith, e, h, b, s),
        ),
        λ same. ground (arith, same, h, b, s),
      )

  -- The live file is the sealed one, of which an entry that lacks a name or a path says nothing.
  abbrev pub SameFile : SealFile → Type 0
  SameFile f =
      (f.abs ≡ "")
      ⊎ (f.rel ≡ "")
      ⊎ ((info : FileInfo) × (b : List ℕ) × (os.stat f.abs ≡ some info)
          × (info.is_regular ≡ true)
          × (info.size ≡ f.size)
          × (os.read_file f.abs ≡ some b)
          × (os.sha256 b ≡ f.sha256))

  live_drift-SameFile : (f : SealFile) → live_drift os f ≡ none → SameFile f
  unfolding live_drift
  live_drift-SameFile f e = elim (Bool-cases (f.abs == "")) [
    | inl a ↦ inl ((eq_iff f.abs "").0 a)
    | inr a ↦ elim (Bool-cases (f.rel == "")) [
      | inl r ↦ inr (inl ((eq_iff f.rel "").0 r))
      | inr r ↦ elim (Option-cases (os.stat f.abs)) [
        | inl s ↦ absurd (ground (arith, e, a, r, s))
        | inr (info, s) ↦ elim (Option-cases (os.read_file f.abs)) [
          | inl k ↦ absurd (ground (arith, e, a, r, s, k))
          | inr (b, k) ↦ inr (
              inr (
                info,
                b,
                s,
                ground (arith, e, a, r, s, k),
                ground (arith, e, a, r, s, k, nat_beq_iff info.size f.size),
                k,
                ground (arith, e, a, r, s, k, eq_iff (os.sha256 b) f.sha256),
              ))
        ]
      ]
    ]
  ]

  -- Where no sealed file is found to have drifted, every one that has a name and a path is there, a
  -- regular file of the size in the manifest, and its bytes have the hash in the manifest.
  pub first_drift-SameFile :
      (files : List SealFile)
      → first_drift os files ≡ none
      → (i : ℕ) (f : SealFile) → get_elem? files i ≡ some f
      → SameFile f
  unfolding first_drift
  first_drift-SameFile [] e i f here = absurd (cc here)
  first_drift-SameFile (g ∷ gs) e zero f here = live_drift-SameFile f (
      ap (live_drift os) (sym (some_injective here))
      ∙ ground (arith, e, Option-cases (live_drift os g)))
  first_drift-SameFile (g ∷ gs) e (suc i) f here =
      first_drift-SameFile gs (ground (arith, e, Option-cases (live_drift os g))) i f here
