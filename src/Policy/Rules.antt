-- ===== src/Policy/Rules.antt =====
-- go/internal/policy/policy.go: Load, AddRule and saveAtomic. The policy file is `none` where
-- os.ReadFile fails, and otherwise what json.Unmarshal leaves in the defaults that Load starts from.
-- saveAtomic replaces the file whole or leaves it: `saves` says which.
pub mod Laws
use fado.Base.{
  ℕ, suc, Bool, true, false, not, ◌||◌, ◌&&◌, Option, none, some, List, [], ◌∷◌, ◌++◌, String,
  if◌then◌else◌, ◌==◌, nat_eq, string_eq, length, any,
}
use fado.Policy.{Policy, Exe, equal, is_star, is_restricted_base}

pub data RuleError : Type 0 where
  bad_target bad_match_type : String → RuleError
  empty_pattern empty_element exact_wildcard base_not_single save_failed : RuleError
  base_forbidden : String → RuleError

pub data Added : Type 0 where
  refused : RuleError → Added
  added : Policy → ℕ → Added

abbrev pub load_defaults : Policy
load_defaults = record {
  mode = "blacklist";
  whitelist = [];
  blacklist = [];
  confirm = [];
  default = "ask";
  env_keep = [];
  target = "";
}

abbrev pub or_default : String → String → String
or_default s d = if s == "" then d else s

abbrev pub normalize : Policy → Policy
normalize p = record p {
  mode = or_default p.mode "blacklist";
  default = or_default p.default "ask";
}

unfoldable pub load : Option Policy → Policy
load none = normalize load_defaults
load (some p) = normalize p

unfoldable pub rules_of : String → Policy → List (List String)
rules_of target p = if target == "whitelist" then p.whitelist else p.blacklist

unfoldable pub with_rule : String → Policy → List String → Policy
with_rule target p vec =
    if target == "whitelist"
    then record p { whitelist = p.whitelist ++ vec ∷ [] }
    else record p { blacklist = p.blacklist ++ vec ∷ [] }

abbrev pub save_atomic : Bool → Option Policy → Policy → Option Policy
save_atomic saves file p = if saves then some p else file

-- The file after the call, and what the call returns.
unfoldable pub append_rule : Bool → Option Policy → String → List String → Option Policy × Added
append_rule saves file target vec =
    let p = load file in
    if any (λ r. equal r vec) (rules_of target p)
    then (file, added p (length (rules_of target p)))
    else if saves
    then (let q = load (some (with_rule target p vec)) in
        (save_atomic saves file (with_rule target p vec), added q (length (rules_of target q))))
    else (file, refused save_failed)

module _ (os : Exe) where
  abbrev pub base_fault : String → List String → Option RuleError
  base_fault target (e ∷ []) =
      if is_star e
      then some base_not_single
      else if (target == "whitelist") && is_restricted_base os e
      then some (base_forbidden e)
      else none
  base_fault target _ = some base_not_single

  abbrev pub type_fault : String → String → List String → Option RuleError
  type_fault target match_type pattern =
      if match_type == "exact"
      then (if any is_star pattern then some exact_wildcard else none)
      else if match_type == "base"
      then base_fault target pattern
      else if match_type == "custom"
      then none
      else some (bad_match_type match_type)

  -- The tests before the file is read.
  unfoldable pub rule_fault : String → String → List String → Option RuleError
  rule_fault target match_type pattern =
      if not (target == "whitelist") && not (target == "blacklist")
      then some (bad_target target)
      else if length pattern == 0
      then some empty_pattern
      else if any (λ e. e == "") pattern
      then some empty_element
      else type_fault target match_type pattern

  unfoldable pub add_rule :
      Bool → Option Policy → String → String → List String → Option Policy × Added
  add_rule saves file target match_type pattern = elim (rule_fault target match_type pattern) [
    | some e ↦ (file, refused e)
    | none ↦ append_rule saves file target pattern
  ]
