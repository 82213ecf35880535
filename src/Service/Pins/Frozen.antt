-- ===== src/Service/Pins/Frozen.antt =====
-- go/internal/service/seal.go: writing the archive of a petition, taking the frozen copies out of it,
-- and the argv that names them. The flags of an id's files say whether it has an archive and a
-- directory of copies. A writer into memory does not fail.
use fado.Base.{
  ◌+◌, ℕ, Bool, true, false, not, ◌||◌, Option, none, some, List, [], ◌∷◌, String, ltb,
  if◌then◌else◌, ◌==◌, string_eq, nat_eq, length, map, any,
}
use fado.Text.{trim_space, append_text}
use fado.Protocol.{SealFile, SealPin}
use fado.Store.{Store, load, at, set_at}
use fado.Service.Host.{Host, TarEntry}
use fado.Service.Pins.Seals.{seal_candidates, seal_blobs, max_seal_file_size}

-- A copy under the directory: its name in the archive and its bytes.
pub record Copy : Type 0 where
  pub rel : String
  pub bytes : List ℕ

-- The map from names to manifest entries; of two entries with one name the last counts.
unfoldable pub wanted : List SealFile → String → Option SealFile
wanted [] name = none
wanted (f ∷ fs) name = elim (wanted fs name) [
  | some g ↦ some g
  | none ↦ if f.rel == name then some f else none
]

-- The size of that map.
unfoldable pub distinct : List SealFile → ℕ
distinct [] = 0
distinct (f ∷ fs) =
    let rest = distinct fs in if any (λ g. g.rel == f.rel) fs then rest else rest + 1

-- The text that sealRoot hashes.
unfoldable pub root_text : List SealFile → String
root_text [] = ""
root_text (f ∷ fs) =
    append_text f.rel (append_text "\0" (append_text f.sha256 (append_text "\0" (root_text fs))))

module _ (os : Host) (state_dir : String) where
  unfoldable pub seal_archive_path : String → String
  seal_archive_path rid = os.path_join (os.path_join state_dir "sealed") (append_text rid ".tar.gz")

  unfoldable pub seal_extract_dir : String → String
  seal_extract_dir rid = os.path_join (os.path_join state_dir "sealed") (append_text rid ".d")

  -- `hash_text` is the SHA-256 of a text's bytes, in hex.
  unfoldable pub snapshot_seal :
      (String → String) → String → List String → String → Store → Store × Option SealPin
  unfolding seal_archive_path root_text
  snapshot_seal hash_text rid argv cwd s =
      if trim_space rid == "" || state_dir == ""
      then (s, none)
      else let files = seal_blobs os 0 (seal_candidates os argv cwd) in
        let archive = seal_archive_path rid in
        if length files == 0 || not (os.can_write archive) then (s, none) else (
          set_at rid (record (at s rid) { sealed_archive = true }) s,
          some (record { root = hash_text (root_text files); files = files; archive = archive }),
        )

  -- One entry of the archive, with the copies so far.
  unfoldable pub take_out : List SealFile → String → List Copy → TarEntry → Option (List Copy)
  take_out files dir seen entry = elim (wanted files entry.name) [
    | none ↦ none
    | some f ↦
        if any (λ c. c.rel == entry.name) seen || ltb max_seal_file_size entry.size
        then none
        else elim entry.bytes [
          | none ↦ none
          | some b ↦
              if not (length b == entry.size)
              then none
              else if not (os.sha256 b == f.sha256)
              then none
              else if not (os.can_write (os.path_join dir entry.name))
              then none
              else some (record { rel = entry.name; bytes = b } ∷ seen)
        ]
  ]

  unfoldable pub take_all_out :
      List SealFile → String → List Copy → List TarEntry → Option (List Copy)
  take_all_out files dir seen [] = some seen
  take_all_out files dir seen (entry ∷ entries) = elim (take_out files dir seen entry) [
    | none ↦ none
    | some seen' ↦ take_all_out files dir seen' entries
  ]

  abbrev pub with_dir : String → Bool → Store → Store
  with_dir rid there s = set_at rid (record (at s rid) { sealed_dir = there }) s

  -- The directory of the copies and the copies, `none` for any error.
  unfoldable pub materialize_seal : String → Store → Store × Option (String × List Copy)
  unfolding seal_archive_path seal_extract_dir
  materialize_seal rid s = elim (load rid s) [
    | none ↦ (s, none)
    | some rec ↦ elim rec.seal [
      | none ↦ (s, none)
      | some pin ↦
          let archive = if pin.archive == "" then seal_archive_path rid else pin.archive in
          let dir = seal_extract_dir rid in
          if length pin.files == 0 then (s, none) else elim (os.read_file archive) [
            | none ↦ (s, none)
            | some raw ↦
                if not (os.can_write dir)
                then (with_dir rid false s, none)
                else elim (os.untar raw) [
                  | none ↦ (with_dir rid true s, none)
                  | some (entries, whole) ↦ elim (take_all_out pin.files dir [] entries) [
                    | none ↦ (with_dir rid false s, none)
                    | some copies ↦
                        if not whole || not (length copies == distinct pin.files)
                        then (with_dir rid false s, none)
                        else (with_dir rid true s, some (dir, copies))
                  ]
                ]
          ]
    ]
  ]

-- The map from absolute paths to copies, with the last entry for one path.
unfoldable pub copy_of : Host → String → List SealFile → String → Option String
copy_of os dir [] abs = none
copy_of os dir (f ∷ fs) abs = elim (copy_of os dir fs abs) [
  | some path ↦ some path
  | none ↦ if f.abs == abs then some (os.path_join dir f.rel) else none
]

unfoldable pub sealed_token : Host → String → SealPin → String → String → String
unfolding copy_of
sealed_token os cwd pin dir tok =
    if trim_space tok == ""
    then tok
    else let clean = os.clean tok in
      let abs =
        if os.is_abs clean
        then clean
        else if not (trim_space cwd == "")
        then os.path_join cwd clean
        else "" in
      elim (copy_of os dir pin.files abs) [ none ↦ tok | some path ↦ path ]

unfoldable pub sealed_argv : Host → List String → String → SealPin → String → List String
unfolding sealed_token
sealed_argv os argv cwd pin dir = map (sealed_token os cwd pin dir) argv
