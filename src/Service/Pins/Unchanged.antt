-- ===== src/Service/Pins/Unchanged.antt =====
-- go/internal/service/fdpin.go, gitpin.go and seal.go: what is checked at an approval, on a machine
-- that is as it was when the petition was made.
use fado.Base.{
  ℕ, ◌≡◌, inl, inr, refl, sym, ap, ◌∙◌, true, not, ◌||◌, none, some, List, [], ◌∷◌, ◌+◌, String,
  arith, Bool-cases, Option-cases, ◌==◌, eq_iff, string_eq, nat_eq, length, ltb,
}
use fado.Text.{trim_space, append_text}
use fado.Protocol.{PendingRecord, FdPin, GitPin, SealFile}
use fado.Policy.{Policy}
use fado.Store.{Store, load}
use fado.Service.Host.{Host, OpenFile, FileInfo}
use fado.Service.Pins.{snapshot_git, git_drift, check_git_drift}
use fado.Service.Pins.Entry.{
  snapshot_entry, pin_from_file, pin_drift, open_verified, check_fd_drift, resolve_binary,
  safe_path,
}
use fado.Service.Pins.Seals.{
  SealTarget, seal_blobs, live_drift, first_drift, check_seal_drift, max_seal_file_size,
  max_seal_total, seal_candidates,
}
use fado.Service.Pins.Frozen.{snapshot_seal}

same_text : (s : String) → (s == s) ≡ true
same_text s = (eq_iff s s).1 refl

same_nat : (n : ℕ) → (n == n) ≡ true
same_nat n = ground arith

pin_drift_same : (os : Host) (p : FdPin) → pin_drift os p p ≡ none
unfolding pin_drift
pin_drift_same os p = ground (arith, same_text p.sha256, same_nat p.dev, same_nat p.ino)

git_drift_same :
    (os : Host) (p : Policy) (dir : String) (pin : GitPin)
    → pin.present ≡ true
    → git_drift os p dir pin pin ≡ none
unfolding git_drift
git_drift_same os p dir pin there =
    ground (arith, there, same_text pin.head, same_text pin.branch, same_text pin.porcelain)

module _ (os : Host) where
  pin_from_file-path :
      (path : String) (f : OpenFile) (pin : FdPin)
      → pin_from_file os path f ≡ some pin
      → pin.path ≡ path
  unfolding pin_from_file
  pin_from_file-path path f pin e = ground arith

  opened :
      (path : String) (f : OpenFile) (pin : FdPin)
      → os.open_file path ≡ some f
      → pin_from_file os path f ≡ some pin
      → open_verified os pin ≡ none
  unfolding open_verified
  opened path f pin o e =
      let at_path : pin.path ≡ path = pin_from_file-path path f pin e in
      rw (at_path) (ground (arith, o, e, pin_drift_same os pin))

  open_verified-snapshot_entry :
      (argv : List String) (cwd : String) (pin : FdPin)
      → snapshot_entry os argv cwd ≡ some pin
      → open_verified os pin ≡ none
  unfolding snapshot_entry
  open_verified-snapshot_entry [] cwd pin e = absurd (cc e)
  open_verified-snapshot_entry (bin ∷ args) cwd pin e = elim (Bool-cases (trim_space bin == "")) [
    | inl g ↦ absurd (ground (arith, e, g))
    | inr g ↦
        let path = resolve_binary os bin cwd (append_text "PATH=" safe_path ∷ []) in
        elim (Option-cases (os.open_file path)) [
          | inl o ↦ absurd (ground (arith, e, g, o))
          | inr (f, o) ↦ opened path f pin o (ground (arith, e, g, o))
        ]
  ]

  -- git
  no_directory : snapshot_git os "" ≡ none
  unfolding snapshot_git trim_space
  no_directory = refl

  check_git_drift-snapshot_git :
      (p : Policy) (rid cwd : String) (s : Store) (rec : PendingRecord)
      → load rid s ≡ some rec
      → rec.git ≡ snapshot_git os rec.cwd
      → check_git_drift os p rid cwd s ≡ none
  unfolding check_git_drift
  check_git_drift-snapshot_git p rid cwd s rec e made = elim (Option-cases rec.git) [
    | inl f ↦ ground (arith, e, f)
    | inr (pin, f) ↦ elim (Bool-cases pin.present) [
      | inr g ↦ ground (arith, e, f, g)
      | inl g ↦ elim (Bool-cases (rec.cwd == "")) [
        | inl h ↦
            let nothing : rec.git ≡ none =
              made ∙ ap (snapshot_git os) ((eq_iff rec.cwd "").0 h) ∙ no_directory in
            absurd (cc (nothing, f))
        | inr h ↦ ground (arith, e, f, g, h, sym made ∙ f, git_drift_same os p rec.cwd pin g)
      ]
    ]
  ]

  -- the frozen files
  -- The size that Stat tells is the number of bytes that are read.
  abbrev pub Honest : Type 0
  Honest =
      (path : String) (info : FileInfo) (b : List ℕ)
      → os.stat path ≡ some info
      → os.read_file path ≡ some b
      → info.size ≡ length b

  live_drift_same :
      (f : SealFile) (info : FileInfo) (b : List ℕ)
      → os.stat f.abs ≡ some info
      → info.is_regular ≡ true
      → info.size ≡ f.size
      → os.read_file f.abs ≡ some b
      → os.sha256 b ≡ f.sha256
      → live_drift os f ≡ none
  unfolding live_drift
  live_drift_same f info b e g h k l =
      rw (e) (rw (g, h, k) (rw (l) (ground (arith, same_text f.sha256))))

  first_drift-seal_blobs :
      Honest → (total : ℕ) (ts : List SealTarget) → first_drift os (seal_blobs os total ts) ≡ none
  unfolding seal_blobs first_drift
  first_drift-seal_blobs honest total [] = refl
  first_drift-seal_blobs honest total (t ∷ ts) =
      let skip = first_drift-seal_blobs honest total ts in
      elim (Option-cases (os.stat t.abs)) [
        | inl e ↦ ground (arith, e, skip)
        | inr (info, e) ↦
            elim (Bool-cases (not info.is_regular || ltb max_seal_file_size info.size)) [
              | inl f ↦ ground (arith, e, f, skip)
              | inr f ↦ elim (Option-cases (os.read_file t.abs)) [
                | inl g ↦ ground (arith, e, f, g, skip)
                | inr (b, g) ↦ elim (Bool-cases (ltb max_seal_file_size (length b))) [
                  | inl h ↦ ground (arith, e, f, g, h, skip)
                  | inr h ↦ elim (Bool-cases (ltb max_seal_total (total + length b))) [
                    | inl k ↦ ground (arith, e, f, g, h, k)
                    | inr k ↦
                        let file : SealFile = record {
                          rel = t.rel;
                          abs = t.abs;
                          sha256 = os.sha256 b;
                          size = length b;
                          mode = info.mode;
                        } in
                        let same =
                          live_drift_same file info b e (ground (arith, f))
                            (honest t.abs info b e g) g refl in
                        ground (
                          arith,
                          e,
                          f,
                          g,
                          h,
                          k,
                          same,
                          first_drift-seal_blobs honest (total + length b) ts,
                        )
                  ]
                ]
              ]
            ]
      ]

  check_seal_drift-snapshot_seal :
      Honest
      → (state_dir : String) (hash_text : String → String) (rid : String) (s t : Store)
        (rec : PendingRecord)
      → load rid s ≡ some rec
      → rec.seal ≡ (snapshot_seal os state_dir hash_text rid rec.argv rec.cwd t).1
      → check_seal_drift os rid s ≡ none
  unfolding check_seal_drift snapshot_seal
  check_seal_drift-snapshot_seal honest state_dir hash_text rid s t rec e made =
      let files = seal_blobs os 0 (seal_candidates os rec.argv rec.cwd) in
      let same = first_drift-seal_blobs honest 0 (seal_candidates os rec.argv rec.cwd) in
      elim (Option-cases rec.seal) [
        | inl f ↦ ground (arith, e, f)
        | inr (pin, f) ↦
            let theirs : pin.files ≡ files = ground (arith, sym f ∙ made) in
            ground (arith, e, f, ap (first_drift os) theirs ∙ same)
      ]

  check_fd_drift-snapshot_entry :
      (rid : String) (s : Store) (rec : PendingRecord)
      → load rid s ≡ some rec
      → rec.fd ≡ snapshot_entry os rec.argv rec.cwd
      → check_fd_drift os rid s ≡ none
  unfolding check_fd_drift
  check_fd_drift-snapshot_entry rid s rec e made = elim (Option-cases rec.fd) [
    | inl f ↦ ground (arith, e, f)
    | inr (pin, f) ↦
        ground (arith, e, f, open_verified-snapshot_entry rec.argv rec.cwd pin (sym made ∙ f))
  ]

  -- A petition whose record has the pins of a host, at which Stat tells the size of the bytes that are
  -- read, is not refused at that host: none of the three checks finds a drift.
  pub unchanged_petition :
      Honest
      → (p : Policy) (state_dir : String) (hash_text : String → String) (rid cwd : String)
        (s t : Store) (rec : PendingRecord)
      → load rid s ≡ some rec
      → rec.fd ≡ snapshot_entry os rec.argv rec.cwd
      → rec.git ≡ snapshot_git os rec.cwd
      → rec.seal ≡ (snapshot_seal os state_dir hash_text rid rec.argv rec.cwd t).1
      → (check_fd_drift os rid s ≡ none)
        × (check_git_drift os p rid cwd s ≡ none)
        × (check_seal_drift os rid s ≡ none)
  unchanged_petition honest p state_dir hash_text rid cwd s t rec e fd git seal = (
    check_fd_drift-snapshot_entry rid s rec e fd,
    check_git_drift-snapshot_git p rid cwd s rec e git,
    check_seal_drift-snapshot_seal honest state_dir hash_text rid s t rec e seal,
  )
