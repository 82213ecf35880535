-- ===== src/Service/Pins/Faithful.antt =====
-- go/internal/service/seal.go: the copies that are taken out of an archive are those of its manifest.
use fado.Base.{
  ◌≡◌, inl, inr, sym, ap, subst, ◌∙◌, false, not, ◌||◌, some, List, [], ◌∷◌, String, arith,
  Bool-cases, Option-cases, if◌then◌else◌, ◌==◌, eq_iff, string_eq, nat_eq, length, ltb,
  some_injective, any,
}
use fado.Protocol.{PendingRecord, SealFile, SealPin}
use fado.Store.{Store, load}
use fado.Service.Host.{Host, TarEntry}
use fado.Service.Pins.Frozen.{
  Copy, wanted, distinct, take_out, take_all_out, materialize_seal, seal_archive_path,
  seal_extract_dir,
}
use fado.Service.Pins.Seals.{max_seal_file_size}

-- The copy has the hash that the manifest has for its name.
abbrev pub IsSealed : Host → List SealFile → Copy → Type 0
IsSealed os files c =
    (f : SealFile) × (wanted files c.rel ≡ some f) × (os.sha256 c.bytes ≡ f.sha256)

-- Every copy is one of the manifest, and no two have the same name.
abbrev pub AllSealed : Host → List SealFile → List Copy → Type 0
AllSealed os files [] = Unit
AllSealed os files (c ∷ cs) =
    IsSealed os files c × (any (λ d. d.rel == c.rel) cs ≡ false) × AllSealed os files cs

module _ (os : Host) (state_dir : String) (files : List SealFile) (dir : String) where
  take_out-AllSealed :
      (seen : List Copy) (entry : TarEntry) (more : List Copy)
      → take_out os state_dir files dir seen entry ≡ some more
      → AllSealed os files seen
      → AllSealed os files more
  unfolding take_out
  take_out-AllSealed seen entry more e so = elim (Option-cases (wanted files entry.name)) [
    | inl a ↦ absurd (ground (arith, e, a))
    | inr (f, a) ↦
        elim (Bool-cases
          (any (λ c. c.rel == entry.name) seen || ltb max_seal_file_size entry.size)) [
            | inl b ↦ absurd (ground (arith, e, a, b))
            | inr b ↦ elim (Option-cases entry.bytes) [
              | inl c ↦ absurd (ground (arith, e, a, b, c))
              | inr (bytes, c) ↦
                  let copy : Copy = record { rel = entry.name; bytes = bytes } in
                  let hash : os.sha256 bytes ≡ f.sha256 =
                    ground (arith, e, a, b, c, eq_iff (os.sha256 bytes) f.sha256) in
                  let new : any (λ d. d.rel == entry.name) seen ≡ false = ground (arith, b) in
                  let made : more ≡ copy ∷ seen = ground (arith, e, a, b, c) in
                  subst (AllSealed os files) (sym made) ((f, a, hash), new, so)
            ]
          ]
  ]

  take_all_out-AllSealed :
      (entries : List TarEntry) (seen copies : List Copy)
      → take_all_out os state_dir files dir seen entries ≡ some copies
      → AllSealed os files seen
      → AllSealed os files copies
  unfolding take_all_out
  take_all_out-AllSealed [] seen copies e so = subst (AllSealed os files) (some_injective e) so
  take_all_out-AllSealed (entry ∷ entries) seen copies e so =
      elim (Option-cases (take_out os state_dir files dir seen entry)) [
        | inl f ↦ absurd (ground (arith, e, f))
        | inr (more, f) ↦
            take_all_out-AllSealed entries more copies (ground (arith, e, f))
              (take_out-AllSealed seen entry more f so)
      ]

made_of :
    (os : Host) (state_dir rid dir : String) (s : Store) (copies : List Copy) (rec : PendingRecord)
    (pin : SealPin)
    → load rid s ≡ some rec
    → rec.seal ≡ some pin
    → (materialize_seal os state_dir rid s).1 ≡ some (dir, copies)
    → AllSealed os pin.files copies × (length copies ≡ distinct pin.files)
unfolding materialize_seal
made_of os state_dir rid dir s copies rec pin a b e =
    let archive = if pin.archive == "" then seal_archive_path os state_dir rid else pin.archive in
    let dir' = seal_extract_dir os state_dir rid in
    elim (Bool-cases (length pin.files == 0)) [
      | inl c ↦ absurd (ground (arith, e, a, b, c))
      | inr c ↦ elim (Option-cases (os.read_file archive)) [
        | inl d ↦ absurd (ground (arith, e, a, b, c, d))
        | inr (raw, d) ↦ elim (Bool-cases (os.can_write dir')) [
          | inr w ↦ absurd (ground (arith, e, a, b, c, d, w))
          | inl w ↦ elim (Option-cases (os.untar raw)) [
            | inl u ↦ absurd (ground (arith, e, a, b, c, d, w, u))
            | inr (tar, u) ↦
                elim (Option-cases (take_all_out os state_dir pin.files dir' [] tar.0)) [
                  | inl t ↦ absurd (ground (arith, e, a, b, c, d, w, u, t))
                  | inr (all, t) ↦
                      let test = not tar.1 || not (length all == distinct pin.files) in
                      elim (Bool-cases test) [
                        | inl z ↦ absurd (ground (arith, e, a, b, c, d, w, u, t, z))
                        | inr z ↦
                            let same : all ≡ copies = ground (arith, e, a, b, c, d, w, u, t, z) in
                            (
                              subst (AllSealed os pin.files) same (
                                  take_all_out-AllSealed os state_dir pin.files dir' tar.0 [] all t
                                    tt),
                              ap length (sym same) ∙ ground (arith, z),
                            )
                      ]
                ]
          ]
        ]
      ]
    ]

-- Where copies are made, the record is there and has a manifest, every copy has the hash that the manifest
-- has for its name, no two copies have one name, and there are as many as the manifest has names.
pub materialize_seal-AllSealed :
    (os : Host) (state_dir rid dir : String) (s : Store) (copies : List Copy)
    → (materialize_seal os state_dir rid s).1 ≡ some (dir, copies)
    → (rec : PendingRecord) × (pin : SealPin) × (load rid s ≡ some rec)
      × (rec.seal ≡ some pin)
      × AllSealed os pin.files copies
      × (length copies ≡ distinct pin.files)
unfolding materialize_seal
materialize_seal-AllSealed os state_dir rid dir s copies e = elim (Option-cases (load rid s)) [
  | inl a ↦ absurd (ground (arith, e, a))
  | inr (rec, a) ↦ elim (Option-cases rec.seal) [
    | inl b ↦ absurd (ground (arith, e, a, b))
    | inr (pin, b) ↦
        let made = made_of os state_dir rid dir s copies rec pin a b e in
        (rec, pin, a, b, made.0, made.1)
  ]
]
