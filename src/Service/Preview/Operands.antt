-- ===== src/Service/Preview/Operands.antt =====
-- go/internal/service/preview.go: what extractRmTargets finds.
use fado.Base.{
  not, ◌&&◌, List, [], ◌∷◌, ◌++◌, String, string_eq, ◌==◌, arith, keep_if, any, if◌then◌else◌, ◌≡◌,
  refl,
}
use fado.Text.{has_prefix}
use fado.Service.Preview.{rm_recursive, extract_rm_targets}

-- The arguments before and behind the first "--".
abbrev pub before_dashes : List String → List String
before_dashes [] = []
before_dashes (a ∷ args) = let rest = before_dashes args in if a == "--" then [] else a ∷ rest

abbrev pub behind_dashes : List String → List String
behind_dashes [] = []
behind_dashes (a ∷ args) = let rest = behind_dashes args in if a == "--" then args else rest

-- Before the first "--", what an rm takes as its targets is the arguments that are no options, and it
-- is recursive where one of the options says so; behind it, every argument is a target.
pub extract_rm_targets-operands :
    (args : List String)
    → (extract_rm_targets args).targets
        ≡ keep_if (λ a. not (has_prefix a "-")) (before_dashes args) ++ behind_dashes args
      × (extract_rm_targets args).is_recursive
        ≡ any (λ a. has_prefix a "-" && rm_recursive a) (before_dashes args)
unfolding extract_rm_targets
extract_rm_targets-operands [] = (refl, refl)
extract_rm_targets-operands (a ∷ args) =
    let (t, r) = extract_rm_targets-operands args in ground arith
