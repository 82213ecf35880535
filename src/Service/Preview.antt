-- ===== src/Service/Preview.antt =====
-- go/internal/service/preview.go: classifyCommand, which says of an argv whether it destroys
-- something and what its targets are, and the loops over the arguments of each command. `base` is
-- filepath.Base. The command behind sudo is found in at most as many steps as the argv has words,
-- since each step drops one.
pub mod Commands
pub mod Impact
pub mod Operands
use fado.Base.{
  Bool, true, false, not, ◌||◌, ◌&&◌, List, [], ◌∷◌, String, if◌then◌else◌, ◌==◌, string_eq, nat_eq,
  length, any,
}
use fado.Text.{has_prefix, contains, contains_rune}

pub record Classified : Type 0 where
  pub is_destructive : Bool
  pub is_deletion : Bool
  pub is_recursive : Bool
  pub targets : List String

-- What a loop over arguments finds.
pub record Extracted : Type 0 where
  pub targets : List String
  pub is_recursive : Bool

abbrev pub no_targets : Extracted
no_targets = record { targets = []; is_recursive = false }

abbrev with_target : String → Extracted → Extracted
with_target arg found = record found { targets = arg ∷ found.targets }

abbrev with_flag : Bool → Extracted → Extracted
with_flag flag found = record found { is_recursive = flag || found.is_recursive }

-- The targets behind "--": all of them, but the mode or the owner, if it is still to come.
abbrev pub after_dash_dash : Bool → List String → List String
after_dash_dash true args = args
after_dash_dash false [] = []
after_dash_dash false (arg ∷ args) = args

-- The loop that the extractors share. `recursive` says which options make the command recursive, and
-- `valued` which are followed by a value; the flags say whether the mode or the owner was seen,
-- where the command takes one, and whether the next argument is a value.
module _ (recursive valued : String → Bool) where
  unfoldable pub extract : Bool → Bool → List String → Extracted
  extract seen skip [] = no_targets
  extract seen true (arg ∷ args) = extract seen false args
  extract seen false (arg ∷ args) = elim (arg == "--") [
    | true ↦ record { targets = after_dash_dash seen args; is_recursive = false }
    | false ↦ elim (has_prefix arg "-") [
      | true ↦ with_flag (recursive arg) (extract seen (valued arg) args)
      | false ↦ elim seen [
        | true ↦ with_target arg (extract true false args)
        | false ↦ extract true false args
      ]
    ]
  ]

abbrev never : String → Bool
never arg = false

-- The characters are `r` and `R`.
abbrev pub rm_recursive : String → Bool
rm_recursive arg =
    arg == "--recursive"
    || (not (has_prefix arg "--") && (contains_rune arg 114 || contains_rune arg 82))

-- The extractors take argv[1:].
unfoldable pub extract_rm_targets : List String → Extracted
unfolding extract
extract_rm_targets = extract rm_recursive never true false

-- The loop behind the word "clean"; the options before it are not read.
unfoldable pub extract_git_clean_targets : List String → Extracted
unfolding extract
extract_git_clean_targets [] = no_targets
extract_git_clean_targets (arg ∷ args) = elim (arg == "clean") [
  | true ↦ extract (λ a. contains a "d") (λ a. a == "-e" || a == "--exclude") true false args
  | false ↦ extract_git_clean_targets args
]

unfoldable pub extract_mv_targets : List String → Extracted
unfolding extract
extract_mv_targets =
    extract never (λ a. a == "-t" || a == "--target-directory" || a == "-S" || a == "--suffix") true
      false

-- The character is `R`.
abbrev mode_recursive : String → Bool
mode_recursive arg = arg == "--recursive" || contains_rune arg 82

unfoldable pub extract_chmod_targets : List String → Extracted
unfolding extract
extract_chmod_targets = extract mode_recursive (λ a. a == "--reference") false false

unfoldable pub extract_chown_targets : List String → Extracted
unfolding extract
extract_chown_targets = extract mode_recursive (λ a. a == "--reference") false false

unfoldable pub extract_truncate_targets : List String → Extracted
unfolding extract
extract_truncate_targets =
    extract never (λ a. a == "-s" || a == "--size" || a == "-r" || a == "--reference") true false

abbrev starts_expression : String → Bool
starts_expression arg = has_prefix arg "-" || arg == "!" || arg == "(" || arg == ")"

-- Whether the word deletes; `args` are those behind it.
abbrev deletes : String → List String → Bool
deletes arg args =
    arg == "-delete" || ((arg == "-exec" || arg == "-execdir") && any (λ a. a == "rm") args)

-- The loop ends at the first word of the expression. The flag is whether this is a deletion.
unfoldable pub find_targets : List String → List String × Bool
find_targets [] = ([], false)
find_targets (arg ∷ args) =
    let found = find_targets args in
    if starts_expression arg
    then ([], deletes arg args)
    else (arg ∷ found.0, deletes arg args || found.1)

unfoldable pub extract_find_targets : List String → List String × Bool
unfolding find_targets
extract_find_targets args =
    let found = find_targets args in (if length found.0 == 0 then "." ∷ [] else found.0, found.1)

-- The words of git before the first that is no option.
unfoldable pub is_clean : List String → Bool
is_clean [] = false
is_clean (a ∷ args) =
    let rest = is_clean args in
    if a == "clean" then true else if not (has_prefix a "-") then false else rest

abbrev pub harmless : Classified
harmless = record {
  is_destructive = false;
  is_deletion = false;
  is_recursive = false;
  targets = [];
}

abbrev deletion : Extracted → Classified
deletion found = record {
  is_destructive = true;
  is_deletion = true;
  is_recursive = found.is_recursive;
  targets = found.targets;
}

abbrev change : Extracted → Classified
change found = record {
  is_destructive = true;
  is_deletion = false;
  is_recursive = found.is_recursive;
  targets = found.targets;
}
