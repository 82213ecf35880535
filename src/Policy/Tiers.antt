-- ===== src/Policy/Tiers.antt =====
-- Which branch of `tier` an argv takes.
use fado.Base.{
  ℕ, ◌≡◌, ◌≢◌, ◌⊎◌, inl, inr, ◌∙◌, ap, true, false, some, List, ◌∷◌, ◌++◌, String, arith, eq_iff,
  Bool-cases, if◌then◌else◌, ◌==◌, string_eq, get_elem?, any, any-append, any-true, any-false,
}
use fado.Policy.{Policy, Exe, match_rule, bare_restricted, permits, tier}

module _ (os : Exe) (argv : List String) where
  -- A rule of the whitelist matches, and it is not a restricted tool alone.
  abbrev pub Permitted : Policy → Type 0
  Permitted p =
      (i : ℕ) × (rule : List String) × (get_elem? p.whitelist i ≡ some rule)
      × (bare_restricted os rule ≡ false)
      × (match_rule os argv rule ≡ true)

  abbrev pub Unpermitted : Policy → Type 0
  Unpermitted p =
      (i : ℕ) (rule : List String)
      → get_elem? p.whitelist i ≡ some rule
      → bare_restricted os rule ≡ false
      → match_rule os argv rule ≡ false

  abbrev pub Forbidden : Policy → Type 0
  Forbidden p =
      (i : ℕ) × (rule : List String) × (get_elem? p.blacklist i ≡ some rule)
      × (match_rule os argv rule ≡ true)

  abbrev pub Unforbidden : Policy → Type 0
  Unforbidden p =
      (i : ℕ) (rule : List String)
      → get_elem? p.blacklist i ≡ some rule
      → match_rule os argv rule ≡ false

  permitted : (p : Policy) → any (λ a. permits os argv a) p.whitelist ≡ true → Permitted p
  unfolding permits
  permitted p h =
      let (i, rule, at, holds) = any-true (λ a. permits os argv a) p.whitelist h in
      (i, rule, at, ground arith, ground arith)

  unpermitted : (p : Policy) → any (λ a. permits os argv a) p.whitelist ≡ false → Unpermitted p
  unfolding permits
  unpermitted p h i rule at free =
      let fails = any-false (λ a. permits os argv a) p.whitelist i h at in ground arith

  -- Tier answers "allow" where a rule of the whitelist that is no restricted tool alone matches.
  -- Else it answers "deny" in whitelist mode; else "deny" where a rule of the blacklist matches, and
  -- the policy's default where none does.
  pub tier_cases :
      (p : Policy)
      → (Permitted p × (tier os p argv ≡ "allow"))
        ⊎ (Unpermitted p × (p.mode ≡ "whitelist") × (tier os p argv ≡ "deny"))
        ⊎ (Unpermitted p × (p.mode ≢ "whitelist") × Forbidden p × (tier os p argv ≡ "deny"))
        ⊎ (Unpermitted p × (p.mode ≢ "whitelist") × Unforbidden p × (tier os p argv ≡ p.default))
  unfolding tier
  tier_cases p = elim (Bool-cases (any (λ a. permits os argv a) p.whitelist)) [
    | inl w ↦ inl (permitted p w, ground arith)
    | inr w ↦ elim (Bool-cases (p.mode == "whitelist")) [
      | inl m ↦ inr (inl (unpermitted p w, (eq_iff p.mode "whitelist").0 m, ground arith))
      | inr m ↦
          let off : p.mode ≢ "whitelist" = λ e. cc ((eq_iff p.mode "whitelist").1 e) in
          elim (Bool-cases (any (λ d. match_rule os argv d) p.blacklist)) [
            | inl b ↦ inr (inr (inl (unpermitted p w, off, any-true _ p.blacklist b, ground arith)))
            | inr b ↦ inr (
                inr (
                  inr (
                    unpermitted p w,
                    off,
                    λ i rule at. any-false (λ d. match_rule os argv d) p.blacklist i b at,
                    ground arith,
                  )))
          ]
    ]
  ]

  -- A restricted tool alone in the whitelist, wherever it stands, changes the tier of no argv.
  pub tier-bare_restricted :
      (p : Policy) (before after : List (List String)) (rule : List String)
      → bare_restricted os rule ≡ true
      → tier os (record p { whitelist = before ++ rule ∷ after }) argv
        ≡ tier os (record p { whitelist = before ++ after }) argv
  unfolding tier permits
  tier-bare_restricted p before after rule h =
      let test = λ (a : List String). permits os argv a in
      let same : any test (before ++ rule ∷ after) ≡ any test (before ++ after) =
        any-append test before (rule ∷ after) ∙ ground (arith, any-append test before after) in
      ap
        (λ w.
          if w
          then "allow"
          else if p.mode == "whitelist"
          then "deny"
          else if any (λ d. match_rule os argv d) p.blacklist
          then "deny"
          else p.default)
        same
