-- ===== src/Service/Preview/Commands/Removals.antt =====
-- go/internal/service/preview.go: classifyCommand of the commands that remove or change files, behind
-- any number of sudo and doas with their options.
use fado.Base.{◌≡◌, ◌≢◌, ◌⊎◌, true, false, List, [], ◌∷◌, String, string_eq}
use fado.Text.{has_prefix}

-- The options of sudo that a value follows.
abbrev pub Valued : String → Type 0
Valued o = (o ≡ "-u") ⊎ (o ≡ "-g") ⊎ (o ≡ "-h") ⊎ (o ≡ "-p")

-- Behind `args`, the arguments of sudo, stands the command `cmd`.
pub data Behind : List String → List String → Type 0 where
  here : (c : String) (args : List String) → has_prefix c "-" ≡ false → Behind (c ∷ args) (c ∷ args)
  ends : (cmd : List String) → Behind ("--" ∷ cmd) cmd
  value :
      (o v : String) (args cmd : List String)
      → Valued o
      → Behind args cmd
      → Behind (o ∷ v ∷ args) cmd
  flag :
      (o : String) (args cmd : List String)
      → has_prefix o "-" ≡ true
      → o ≢ "--"
      → (Valued o → ⊥)
      → Behind args cmd
      → Behind (o ∷ args) cmd

module _ (base_of : String → String) where
  -- The argv runs the command `cmd`, itself or behind sudo.
  pub data Runs : List String → List String → Type 0 where
    plainly : (cmd : List String) → Runs cmd cmd
    raised :
        (w : String) (args next cmd : List String)
        → (base_of w ≡ "sudo") ⊎ (base_of w ≡ "doas")
        → Behind args next
        → Runs next cmd
        → Runs (w ∷ args) cmd

abbrev pub word : List String → String
word [] = ""
word (w ∷ args) = w

-- The names of the programs whose arguments are removed.
abbrev pub IsRemoval : String → Type 0
IsRemoval b = (b ≡ "rm") ⊎ (b ≡ "unlink") ⊎ (b ≡ "shred") ⊎ (b ≡ "wipe")
