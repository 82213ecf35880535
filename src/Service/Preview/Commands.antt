-- ===== src/Service/Preview/Commands.antt =====
-- go/internal/service/preview.go: classifyCommand, over the extractors.
pub mod Behind
pub mod Removals
use fado.Base.{
  ℕ, zero, suc, Bool, true, false, ◌||◌, ◌&&◌, List, [], ◌∷◌, String, if◌then◌else◌, ◌==◌,
  string_eq, ltb, length,
}
use fado.Text.{has_prefix}
use fado.Service.Preview.{
  Classified, Extracted, extract_rm_targets, extract_git_clean_targets, extract_mv_targets,
  extract_chmod_targets, extract_chown_targets, extract_truncate_targets, extract_find_targets,
  is_clean, harmless, deletion, change,
}

abbrev pub tail : List String → List String
tail [] = []
tail (a ∷ args) = args

-- The switch over the base name. A git without "clean" and a find without a deletion are harmless.
unfoldable pub classify_base : String → List String → Classified
unfolding extract_rm_targets extract_git_clean_targets extract_mv_targets extract_chmod_targets
    extract_chown_targets extract_truncate_targets extract_find_targets is_clean
classify_base base argv =
    let args = tail argv in
    let found = extract_find_targets args in
    if base == "rm" || base == "unlink" || base == "shred" || base == "wipe"
    then deletion (extract_rm_targets args)
    else if base == "git" && is_clean args
    then deletion (extract_git_clean_targets args)
    else if base == "mv"
    then change (extract_mv_targets args)
    else if base == "chmod"
    then change (extract_chmod_targets args)
    else if base == "chown" || base == "chgrp"
    then change (extract_chown_targets args)
    else if base == "truncate"
    then change (extract_truncate_targets args)
    else if base == "find" && found.1
    then deletion (record { targets = found.0; is_recursive = false })
    else harmless

abbrev pub raises : String → Bool
raises base = base == "sudo" || base == "doas"

abbrev pub takes_value : String → Bool
takes_value a = a == "-u" || a == "-g" || a == "-h" || a == "-p"

-- The loop over the options of sudo: what is left behind them. The flag says whether the next
-- argument is the value of an option.
unfoldable pub behind_options : Bool → List String → List String
behind_options skip [] = []
behind_options true (a ∷ args) = behind_options false args
behind_options false (a ∷ args) = elim (a == "--") [
  | true ↦ args
  | false ↦ elim (has_prefix a "-") [
    | true ↦ behind_options (takes_value a) args
    | false ↦ a ∷ args
  ]
]

-- The command behind sudo and its options, if there is one.
unfoldable pub behind_sudo : String → List String → List String
unfolding behind_options
behind_sudo base argv =
    if raises base && ltb 1 (length argv) then behind_options false (tail argv) else []

module _ (base_of : String → String) where
  -- At most `fuel` times sudo.
  unfoldable pub classify_in : ℕ → String → List String → Classified
  classify_in zero base argv = classify_base base argv
  classify_in (suc fuel) base argv = elim (behind_sudo base argv) [
    | [] ↦ classify_base base argv
    | a ∷ args ↦ classify_in fuel (base_of a) (a ∷ args)
  ]

  unfoldable pub classify_command : String → List String → Classified
  unfolding classify_in
  classify_command base argv = classify_in (length argv) base argv
