-- ===== src/Tests/Policies.antt =====
-- The policy at concrete rules: one host, on which every path is clean, and paths have the base names
-- of their programs.
use fado.Base.{
  get_elem?, ◌≢◌, ◌≤◌, ◌↔◌, ◌⊎◌, string_eq, ◌≡◌, ◌==◌, if◌then◌else◌, refl, some, none, [], ◌∷◌,
  true, false, ℕ, List, String,
}
use fado.Policy.{
  bare_restricted, is_restricted_base, permits, Policy, Exe, tier, match_wild, match_rule,
}
use fado.Policy.Rules.{load_defaults, add_rule, added, refused, exact_wildcard}
use fado.Policy.Tiers.{tier_cases, Permitted, Unpermitted, Forbidden, Unforbidden}
use fado.Policy.Wild.{match_wild-trailing, Anchored, Accepts}
use fado.Policy.Rules.Laws.{Holds, add_rule-Holds}

abbrev host_base : String → String
host_base s = if s == "/usr/bin/git" then "git" else s

abbrev pub host : Exe
host = record { clean = λ s. s; base = host_base; look_path = λ s. none }

abbrev listed : Policy
listed = record load_defaults {
  whitelist = ("git" ∷ "*" ∷ []) ∷ ("bash" ∷ []) ∷ [];
  blacklist = ("rm" ∷ []) ∷ [];
}

abbrev status_argv : List String
status_argv = "/usr/bin/git" ∷ "status" ∷ []

allows_git : tier host listed status_argv ≡ "allow"
unfolding tier permits match_rule match_wild fado.Policy.prefix_from fado.Policy.exe_match
    fado.Policy.canon_exe fado.Text.contains_rune
allows_git = refl

asks_for_bash : tier host listed ("bash" ∷ "-c" ∷ "x" ∷ []) ≡ "ask"
unfolding tier permits match_rule match_wild fado.Policy.prefix_from fado.Policy.exe_match
    fado.Policy.canon_exe fado.Text.contains_rune fado.Policy.is_restricted_base
asks_for_bash = refl

denies_rm : tier host listed ("rm" ∷ "-rf" ∷ []) ≡ "deny"
unfolding tier permits match_rule match_wild fado.Policy.prefix_from fado.Policy.exe_match
    fado.Policy.canon_exe fado.Text.contains_rune fado.Policy.is_restricted_base
denies_rm = refl

tier_cases_example :
    (Permitted host status_argv listed × (tier host listed status_argv ≡ "allow"))
    ⊎ (Unpermitted host status_argv listed
        × (listed.mode ≡ "whitelist")
        × (tier host listed status_argv ≡ "deny"))
    ⊎ (Unpermitted host status_argv listed
        × (listed.mode ≢ "whitelist")
        × Forbidden host status_argv listed
        × (tier host listed status_argv ≡ "deny"))
    ⊎ (Unpermitted host status_argv listed
        × (listed.mode ≢ "whitelist")
        × Unforbidden host status_argv listed
        × (tier host listed status_argv ≡ listed.default))
tier_cases_example = tier_cases host status_argv listed

bash_is_restricted : bare_restricted host ("bash" ∷ []) ≡ true
unfolding is_restricted_base
bash_is_restricted = refl

match_wild-trailing_example : (match_wild host status_argv ("git" ∷ "*" ∷ []) ≡ true) ↔ (
    Anchored host ("git" ∷ [])
    × (1 ≤ 2)
    × ((j : ℕ) (a p : String)
        → get_elem? {A = String} ("git" ∷ []) j ≡ some p
        → get_elem? status_argv j ≡ some a
        → Accepts host j a p))
match_wild-trailing_example = match_wild-trailing host status_argv ("git" ∷ [])

abbrev with_make : Policy
with_make = record load_defaults { whitelist = ("make" ∷ []) ∷ [] }

abbrev with_make_test : Policy
with_make_test = record load_defaults { whitelist = ("make" ∷ "test" ∷ []) ∷ [] }

refuses_star : (add_rule host true none "whitelist" "exact" ("*" ∷ [])).1 ≡ refused exact_wildcard
unfolding add_rule fado.Policy.Rules.rule_fault
refuses_star = refl

adds_make : (add_rule host true none "whitelist" "exact" ("make" ∷ [])).1 ≡ added with_make 1
unfolding add_rule fado.Policy.Rules.rule_fault fado.Policy.Rules.append_rule
    fado.Policy.Rules.rules_of fado.Policy.Rules.load fado.Policy.Rules.with_rule
adds_make = refl

adds_make_test :
    (add_rule host true none "whitelist" "exact" ("make" ∷ "test" ∷ [])).1 ≡ added with_make_test 1
unfolding add_rule fado.Policy.Rules.rule_fault fado.Policy.Rules.append_rule
    fado.Policy.Rules.rules_of fado.Policy.Rules.load fado.Policy.Rules.with_rule
adds_make_test = refl

make_is_free : is_restricted_base host "make" ≡ false
unfolding is_restricted_base
make_is_free = refl

add_rule-Holds_example :
    Holds none
      (add_rule host true none "whitelist" "exact" ("make" ∷ [])).0
      "whitelist"
      ("make" ∷ [])
      with_make
      1
add_rule-Holds_example =
    add_rule-Holds host true none "whitelist" "exact" ("make" ∷ []) with_make 1 adds_make
