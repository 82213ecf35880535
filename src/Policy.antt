-- ===== src/Policy.antt =====
-- go/internal/policy/policy.go: the tiers of an argv and the rules they are decided by. `Exe` stands
-- for what path/filepath and exec.LookPath answer on the daemon's host: `clean` is filepath.Clean,
-- `base` is filepath.Base, and `look_path` is `none` where exec.LookPath returns an error.
pub mod Rules
pub mod Tiers
pub mod Wild
use fado.Base.{
  ℕ, suc, ◌-◌, Bool, true, false, not, ◌||◌, Option, none, some, List, [], ◌∷◌, String, ltb,
  if◌then◌else◌, ◌==◌, nat_eq, string_eq, length, take, get_elem?, any,
}
use fado.Text.{contains_rune}

pub record Policy : Type 0 where
  pub mode : String
  pub whitelist : List (List String)
  pub blacklist : List (List String)
  pub confirm : List (List String)
  pub default : String
  pub env_keep : List String
  pub target : String

pub record Exe : Type 0 where
  pub clean : String → String
  pub base : String → String
  pub look_path : String → Option String

abbrev pub same_items : List String → List String → Bool
same_items [] bs = true
same_items (a ∷ xs) [] = false
same_items (a ∷ xs) (b ∷ bs) = let rest = same_items xs bs in if a == b then rest else false

unfoldable pub equal : List String → List String → Bool
equal a b = if length a == length b then same_items a b else false

unfoldable pub needs_confirm : Policy → List String → Bool
needs_confirm p argv = any (λ c. equal argv c) p.confirm

abbrev pub restricted_tools : List String
restricted_tools =
    "bash" ∷ "sh" ∷ "zsh" ∷ "python" ∷ "python3" ∷ "node" ∷ "ruby" ∷ "perl" ∷ "php" ∷ "curl"
    ∷ "wget" ∷ "nc" ∷ []

-- The loop over a rule with no trailing "*".
unfoldable pub each_arg : List String → List String → Bool
each_arg argv [] = true
each_arg [] (r ∷ rs) = false
each_arg (a ∷ xs) (r ∷ rs) =
    let rest = each_arg xs rs in if r == "*" then rest else if not (a == r) then false else rest

abbrev pub is_star : String → Bool
is_star e = e == "*"

abbrev pub lone_star : List String → Bool
lone_star (e ∷ []) = is_star e
lone_star _ = false

-- `rule[len(rule)-1] == "*"`.
abbrev pub ends_in_star : List String → Bool
ends_in_star rule = elim (get_elem? rule (length rule - 1)) [ some e ↦ is_star e | none ↦ false ]

module _ (os : Exe) where
  unfoldable pub is_restricted_base : String → Bool
  is_restricted_base s = any (λ t. t == os.base (os.clean s)) restricted_tools

  resolve : String → String → String
  resolve cleaned base = elim (os.look_path cleaned) [
    | some resolved ↦ os.clean resolved
    | none ↦ cleaned
  ]

  -- The path and the base name.
  unfoldable pub canon_exe : String → String × String
  unfolding resolve
  canon_exe s =
      let cleaned = os.clean s in
      let base = os.base cleaned in
      if not (contains_rune cleaned b'/') then (resolve cleaned base, base) else (cleaned, base)

  unfoldable pub exe_match : String → String → Bool
  exe_match a b =
      let (pa, ba) = canon_exe a in let (pb, bb) = canon_exe b in (pa == pb) || (ba == bb)

  -- The loop over `prefix`, at index `i`. An index past the end of argv is excluded by the caller's
  -- test of the lengths; Go would panic there.
  unfoldable pub prefix_from : ℕ → List String → List String → Bool
  prefix_from i argv [] = true
  prefix_from i [] (p ∷ ps) = false
  prefix_from i (a ∷ xs) (p ∷ ps) =
      let rest = prefix_from (suc i) xs ps in
      if p == "*"
      then rest
      else if i == 0
      then (if not (exe_match a p) then false else rest)
      else if not (a == p)
      then false
      else rest

  unfoldable pub match_wild : List String → List String → Bool
  match_wild argv rule =
      let prefix = take (length rule - 1) rule in
      if lone_star rule
      then false
      else if ends_in_star rule
      then (if not (any (λ e. not (is_star e)) prefix)
          then false
          else if ltb (length argv) (length prefix)
          then false
          else prefix_from 0 argv prefix)
      else if not (length argv == length rule)
      then false
      else each_arg argv rule

  abbrev pub single : List String → List String → Bool
  single (a ∷ xs) (r ∷ []) = exe_match a r
  single argv rule = equal argv rule

  unfoldable pub match_rule : List String → List String → Bool
  match_rule argv rule =
      if (length rule == 0) || (length argv == 0)
      then false
      else if any is_star rule
      then match_wild argv rule
      else single argv rule

  abbrev pub bare_restricted : List String → Bool
  bare_restricted (r ∷ []) = is_restricted_base r
  bare_restricted _ = false

  -- What one round of the whitelist loop answers.
  unfoldable pub permits : List String → List String → Bool
  permits argv rule = if bare_restricted rule then false else match_rule argv rule

  unfoldable pub tier : Policy → List String → String
  tier p argv =
      if any (λ a. permits argv a) p.whitelist
      then "allow"
      else if p.mode == "whitelist"
      then "deny"
      else if any (λ d. match_rule argv d) p.blacklist
      then "deny"
      else p.default
