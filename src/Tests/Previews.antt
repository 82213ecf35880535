-- ===== src/Tests/Previews.antt =====
-- go/internal/service/preview.go: previews of concrete commands.
use fado.Base.{true, List, [], ◌∷◌, String, ◌==◌, string_eq, ◌≡◌, refl}
use fado.Protocol.{PreviewRecord}
use fado.Service.Preview.{Classified, extract_rm_targets, harmless}
use fado.Service.Preview.Commands.{classify_command}
use fado.Service.Preview.Operands.{extract_rm_targets-operands}
use fado.Service.Preview.Impact.{preview_impact}
use fado.Service.Preview.Impact.Levels.{preview_impact-critical}
use fado.Tests.Machines.{quiet}

abbrev plain_name : String → String
plain_name s = s

abbrev rm_etc : List String
rm_etc = "-u" ∷ "ada" ∷ "rm" ∷ "-r" ∷ "in.txt" ∷ "/etc" ∷ []

abbrev preview_of_rm_etc : PreviewRecord
preview_of_rm_etc = preview_impact quiet ("sudo" ∷ rm_etc) "" []

counts_three :
    (preview_of_rm_etc.affected_count ≡ 3)
    × (preview_of_rm_etc.sample_paths ≡ "/w/in.txt" ∷ "/etc" ∷ "/etc/hosts" ∷ [])
    × (preview_of_rm_etc.risk_reason ≡ "Targets critical system directory: /etc")
unfolding preview_impact fado.Service.Preview.Commands.classify_command
    fado.Service.Preview.Commands.behind_sudo fado.Service.Preview.Commands.classify_base
    fado.Service.Preview.Impact.target_paths fado.Text.contains_rune
    fado.Service.Preview.Impact.gather_path
counts_three = (refl, refl, refl)

preview_impact-critical_example : (preview_of_rm_etc.risk_level == "critical") ≡ true
unfolding preview_impact fado.Service.Preview.Commands.classify_command
    fado.Service.Preview.Commands.behind_sudo fado.Service.Preview.Commands.classify_base
    fado.Service.Preview.Impact.target_paths fado.Text.contains_rune
    fado.Service.Preview.Impact.gather_path
preview_impact-critical_example = preview_impact-critical quiet "sudo" rm_etc "" []

extract_rm_targets-operands_example :
    ((extract_rm_targets ("-rf" ∷ "a" ∷ "--" ∷ "-b" ∷ [])).targets ≡ "a" ∷ "-b" ∷ [])
    × ((extract_rm_targets ("-rf" ∷ "a" ∷ "--" ∷ "-b" ∷ [])).is_recursive ≡ true)
unfolding fado.Text.contains_rune
extract_rm_targets-operands_example = extract_rm_targets-operands ("-rf" ∷ "a" ∷ "--" ∷ "-b" ∷ [])

-- What the loop over find's arguments does not reach.
misses_delete :
    classify_command plain_name "find" ("find" ∷ "/etc" ∷ "-name" ∷ "*.conf" ∷ "-delete" ∷ [])
    ≡ harmless
unfolding classify_command fado.Service.Preview.Commands.behind_sudo
    fado.Service.Preview.Commands.classify_base
misses_delete = refl

-- The directory of -C is taken for git's command.
misses_clean :
    classify_command plain_name "git" ("git" ∷ "-C" ∷ "/w" ∷ "clean" ∷ "-fd" ∷ []) ≡ harmless
unfolding classify_command fado.Service.Preview.Commands.behind_sudo
    fado.Service.Preview.Commands.classify_base
misses_clean = refl

-- The directory that -t names is no target.
misses_directory :
    (classify_command plain_name "mv" ("mv" ∷ "-t" ∷ "/etc" ∷ "x" ∷ [])).targets ≡ "x" ∷ []
unfolding classify_command fado.Service.Preview.Commands.behind_sudo
    fado.Service.Preview.Commands.classify_base
misses_directory = refl
