-- ===== src/Service/Pins/Seals.antt =====
-- go/internal/service/seal.go: the frozen copies of a command's inputs. An archive is its bytes, read
-- by Go's gzip and tar; that its writers are their inverse is not assumed.
use fado.Base.{
  ℕ, ◌+◌, Bool, true, false, not, ◌||◌, Option, none, some, List, [], ◌∷◌, ◌++◌, String, ltb,
  if◌then◌else◌, ◌==◌, string_eq, nat_eq, length, take, any,
}
use fado.Text.{trim_space, append_text, has_prefix, contains, decimal}
use Prim.Native.String.{compare as compare_text}
use text.Mathlib.Text.{is_lt}
use fado.Protocol.{SealFile, Drift}
use fado.Store.{Store, load}
use fado.Service.Host.{Host}
use fado.Service.Pins.{blocking}
use fado.Service.Pins.Entry.{short_hash}

abbrev pub max_seal_files : ℕ
max_seal_files = 32

abbrev pub max_seal_total : ℕ
max_seal_total = 8388608

abbrev pub max_seal_file_size : ℕ
max_seal_file_size = 2097152

pub record SealTarget : Type 0 where
  pub abs : String
  pub rel : String

-- strings.ContainsAny with the shell's special characters.
unfoldable pub has_special : String → Bool
has_special tok = any (contains tok) (
    "\0" ∷ "\n" ∷ "|" ∷ "&" ∷ ";" ∷ "<" ∷ ">" ∷ "(" ∷ ")" ∷ "{" ∷ "}" ∷ "!" ∷ "$" ∷ "`" ∷ "\"" ∷ "'"
    ∷ [])

insert_target : SealTarget → List SealTarget → List SealTarget
insert_target x [] = x ∷ []
insert_target x (y ∷ ys) =
    let rest = insert_target x ys in
    if is_lt (compare_text y.rel x.rel) then y ∷ rest else x ∷ y ∷ ys

-- sort.Slice by `rel`; two targets are never equal in it, since their absolute paths differ.
sort_targets : List SealTarget → List SealTarget
sort_targets [] = []
sort_targets (x ∷ xs) = insert_target x (sort_targets xs)

abbrev seal_drift : SealFile → String → Drift
seal_drift f what = blocking (append_text "sealed input " (append_text f.rel what))

module _ (os : Host) where
  -- One turn of the loop over argv, with the targets so far.
  candidate : String → List SealTarget → String → List SealTarget
  unfolding has_special
  candidate cwd out tok =
      if trim_space tok == "" || has_prefix tok "-"
      then out
      else if has_special tok || contains tok "://" || contains tok "="
      then out
      else let abs =
          if os.is_abs (os.clean tok) then os.clean tok else os.path_join cwd (os.clean tok) in
        elim (os.stat abs) [
          | none ↦ out
          | some info ↦
              if info.is_dir || not info.is_regular then out else elim (os.relative cwd abs) [
                | none ↦ out
                | some rel ↦
                    if rel == ".." || has_prefix rel "../" || any (λ t. t.abs == abs) out
                    then out
                    else out ++ record { abs = abs; rel = rel } ∷ []
              ]
        ]

  candidates_from : String → List SealTarget → List String → List SealTarget
  candidates_from cwd out [] = out
  candidates_from cwd out (tok ∷ toks) = candidates_from cwd (candidate cwd out tok) toks

  unfoldable pub seal_candidates : List String → String → List SealTarget
  unfolding candidates_from candidate sort_targets insert_target
  seal_candidates argv cwd =
      if length argv == 0 || trim_space cwd == "" then [] else elim (os.stat cwd) [
        | none ↦ []
        | some info ↦
            if not info.is_dir
            then []
            else take max_seal_files (sort_targets (candidates_from cwd [] argv))
      ]

  -- The files that are read, until the total is past its bound.
  unfoldable pub seal_blobs : ℕ → List SealTarget → List SealFile
  seal_blobs total [] = []
  seal_blobs total (t ∷ ts) = elim (os.stat t.abs) [
    | none ↦ seal_blobs total ts
    | some info ↦ elim (not info.is_regular || ltb max_seal_file_size info.size) [
      | true ↦ seal_blobs total ts
      | false ↦ elim (os.read_file t.abs) [
        | none ↦ seal_blobs total ts
        | some b ↦ elim (ltb max_seal_file_size (length b)) [
          | true ↦ seal_blobs total ts
          | false ↦ elim (ltb max_seal_total (total + length b)) [
            | true ↦ []
            | false ↦
                record {
                  rel = t.rel;
                  abs = t.abs;
                  sha256 = os.sha256 b;
                  size = length b;
                  mode = info.mode;
                }
                ∷ seal_blobs (total + length b) ts
          ]
        ]
      ]
    ]
  ]

  -- One file of the manifest: `none` where the live one is the same.
  unfoldable pub live_drift : SealFile → Option Drift
  live_drift f = if f.abs == "" || f.rel == "" then none else elim (os.stat f.abs) [
    | none ↦ some (seal_drift f " is gone at approval")
    | some info ↦
        if not info.is_regular
        then some (seal_drift f " changed type since petition")
        else if not (info.size == f.size)
        then some (
            seal_drift f (
              append_text " changed since petition (" (
                append_text (short_hash f.sha256)
                  (append_text " -> size " (append_text (decimal info.size) ")")))))
        else elim (os.read_file f.abs) [
          | none ↦ some (seal_drift f " is unreadable at approval")
          | some b ↦
              if not (os.sha256 b == f.sha256)
              then some (
                  seal_drift f (
                    append_text " changed since petition (" (
                      append_text (short_hash f.sha256)
                        (append_text " -> " (append_text (short_hash (os.sha256 b)) ")")))))
              else none
        ]
  ]

  unfoldable pub first_drift : List SealFile → Option Drift
  unfolding live_drift
  first_drift [] = none
  first_drift (f ∷ fs) =
      let rest = first_drift fs in elim (live_drift f) [ none ↦ rest | some d ↦ some d ]

  unfoldable pub check_seal_drift : String → Store → Option Drift
  check_seal_drift rid s = elim (load rid s) [
    | none ↦ none
    | some rec ↦ elim rec.seal [ none ↦ none | some pin ↦ first_drift pin.files ]
  ]
