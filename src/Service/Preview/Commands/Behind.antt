-- ===== src/Service/Preview/Commands/Behind.antt =====
-- go/internal/service/preview.go: classifyCommand behind any number of sudo.
use fado.Base.{
  ℕ, zero, suc, ◌≤◌, arith, Bool, true, false, List-cases, List, [], ◌∷◌, String, string_eq, length,
  ◌≡◌, refl, sym, ◌∙◌, inl, inr,
}
use fado.Service.Preview.Commands.{
  takes_value, behind_options, behind_sudo, classify_base, classify_in, classify_command,
}

behind_options_shorter :
    (skip : Bool) (args : List String) → length (behind_options skip args) ≤ length args
unfolding behind_options
behind_options_shorter skip [] = omega arith
behind_options_shorter true (a ∷ args) = let rest = behind_options_shorter false args in omega arith
behind_options_shorter false (a ∷ args) =
    let rest = behind_options_shorter (takes_value a) args in ground arith

behind_sudo_shorter :
    (n : ℕ) (base : String) (argv : List String)
    → length argv ≤ suc n
    → length (behind_sudo base argv) ≤ n
unfolding behind_sudo
behind_sudo_shorter n base [] l = ground arith
behind_sudo_shorter n base (w ∷ argv) l =
    let rest = behind_options_shorter false argv in ground arith

nothing_behind : (base : String) (argv : List String) → length argv ≤ 0 → behind_sudo base argv ≡ []
unfolding behind_sudo
nothing_behind base [] l = ground arith
nothing_behind base (w ∷ argv) l = ground arith

module _ (base_of : String → String) where
  plain :
      (fuel : ℕ) (base : String) (argv : List String)
      → behind_sudo base argv ≡ []
      → classify_in base_of fuel base argv ≡ classify_base base argv
  unfolding classify_in
  plain zero base argv e = refl
  plain (suc fuel) base argv e = rw (classify_in, e) refl

  step :
      (fuel : ℕ) (base : String) (argv : List String) (a : String) (args : List String)
      → behind_sudo base argv ≡ a ∷ args
      → classify_in base_of (suc fuel) base argv ≡ classify_in base_of fuel (base_of a) (a ∷ args)
  unfolding classify_in
  step fuel base argv a args e = rw (classify_in, e) refl

  -- One word of the argv is dropped at each step, so more fuel than words changes nothing.
  enough_fuel :
      (m n : ℕ) (base : String) (argv : List String)
      → length argv ≤ m
      → length argv ≤ n
      → classify_in base_of m base argv ≡ classify_in base_of n base argv
  unfolding classify_in
  enough_fuel zero n base argv l r = sym (plain n base argv (nothing_behind base argv l))
  enough_fuel (suc m) zero base argv l r = plain (suc m) base argv (nothing_behind base argv r)
  enough_fuel (suc m) (suc n) base argv l r = elim (List-cases (behind_sudo base argv)) [
    | inl e ↦ plain (suc m) base argv e ∙ sym (plain (suc n) base argv e)
    | inr (a, args, e) ↦
        let left = behind_sudo_shorter m base argv l in
        let right = behind_sudo_shorter n base argv r in
        rw (classify_in, e) (enough_fuel m n (base_of a) (a ∷ args) (ground arith) (ground arith))
  ]

  -- classifyCommand is the recursion of its source, with no bound on it: where a command stands
  -- behind sudo or doas and their options, what it says of the argv is what it says of that command;
  -- else, what its switch says.
  pub classify_command-behind_sudo :
      (base : String) (argv : List String)
      → classify_command base_of base argv ≡ (elim (behind_sudo base argv) [
        | [] ↦ classify_base base argv
        | a ∷ args ↦ classify_command base_of (base_of a) (a ∷ args)
      ])
  unfolding classify_command
  classify_command-behind_sudo base [] =
      rw (nothing_behind base [] (omega arith))
        (plain zero base [] (nothing_behind base [] (omega arith)))
  classify_command-behind_sudo base (w ∷ argv) = elim (List-cases (behind_sudo base (w ∷ argv))) [
    | inl e ↦ rw e (plain (length (w ∷ argv)) base (w ∷ argv) e)
    | inr (a, args, e) ↦
        let l = behind_sudo_shorter (length argv) base (w ∷ argv) (omega arith) in
        rw e (
          step (length argv) base (w ∷ argv) a args e
          ∙ enough_fuel (length argv) (length (a ∷ args)) (base_of a) (a ∷ args) (ground arith)
              (omega arith))
  ]
