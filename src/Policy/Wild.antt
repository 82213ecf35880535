-- ===== src/Policy/Wild.antt =====
-- Wildcard rules, position by position.
use fado.Base.{
  ℕ, zero, suc, ◌+◌, ◌-◌, ◌≤◌, ◌≡◌, ◌≢◌, ◌⊎◌, ◌↔◌, refl, ap, Bool, true, false, not, some, List, [],
  ◌∷◌, String, arith, eq_iff, if◌then◌else◌, nat_eq, string_eq, length, get_elem?, any, take,
  length-append, any-true, any_of, subst, ◌++◌, Option, none, ◌∙◌, ltb,
}
use fado.Policy.{
  Exe, exe_match, prefix_from, each_arg, is_star, lone_star, ends_in_star, match_wild,
}

-- What a wildcard rule with a trailing "*" asks of the argument at index `i`: the first is compared
-- as an executable, the others as texts.
abbrev pub Accepts : Exe → ℕ → String → String → Type 0
Accepts os i a p = (p ≡ "*") ⊎ ((i ≡ 0) × (exe_match os a p ≡ true)) ⊎ ((i ≢ 0) × (a ≡ p))

module _ (os : Exe) where
  prefix_sound :
      (i : ℕ) (argv ps : List String)
      → prefix_from os i argv ps ≡ true
      → (j : ℕ) (a p : String) → get_elem? ps j ≡ some p
      → get_elem? argv j ≡ some a
      → Accepts os (i + j) a p
  unfolding prefix_from
  prefix_sound i argv [] h j a p hp ha = cc
  prefix_sound i [] (q ∷ ps) h j a p hp ha = cc
  prefix_sound i (b ∷ xs) (q ∷ ps) h zero a p hp ha = ground (arith, eq_iff q "*", eq_iff b q)
  prefix_sound i (b ∷ xs) (q ∷ ps) h (suc j) a p hp ha =
      let shift : suc i + j ≡ i + suc j = omega arith in
      subst (λ k. Accepts os k a p) shift
        (prefix_sound (suc i) xs ps (ground (arith, eq_iff q "*", eq_iff b q)) j a p hp ha)

  prefix_complete :
      (i : ℕ) (argv ps : List String)
      → length ps ≤ length argv
      → ((j : ℕ) (a p : String)
          → get_elem? ps j ≡ some p
          → get_elem? argv j ≡ some a
          → Accepts os (i + j) a p)
      → prefix_from os i argv ps ≡ true
  unfolding prefix_from
  prefix_complete i argv [] l h = refl
  prefix_complete i [] (q ∷ ps) l h = absurd (omega arith)
  prefix_complete i (b ∷ xs) (q ∷ ps) l h =
      let rest = prefix_complete (suc i) xs ps (omega arith) (λ j a p hp ha.
        let shift : i + suc j ≡ suc i + j = omega arith in
        subst (λ k. Accepts os k a p) shift (h (suc j) a p hp ha)) in
      let head : Accepts os i b q =
        let shift : i + 0 ≡ i = omega arith in
        subst (λ k. Accepts os k b q) shift (h 0 b q refl refl) in
      ground (arith, rest, head, eq_iff q "*", eq_iff b q)

  abbrev pub Anchored : List String → Type 0
  Anchored ps = (j : ℕ) × (p : String) × (get_elem? ps j ≡ some p) × (p ≢ "*")

  Anchored-sound : (ps : List String) → any (λ e. not (is_star e)) ps ≡ true → Anchored ps
  Anchored-sound ps h =
      let (j, p, at, star) = any-true (λ e. not (is_star e)) ps h in
      (j, p, at, λ e. cc (star, (eq_iff p "*").1 e))

  Anchored-complete : (ps : List String) → Anchored ps → any (λ e. not (is_star e)) ps ≡ true
  Anchored-complete ps (j, p, at, ne) =
      any_of (λ e. not (is_star e)) ps j p at (ground (arith, ne, eq_iff p "*"))

take_init : (ps : List String) (p : String) → take (length ps) (ps ++ p ∷ []) ≡ ps
take_init [] p = refl
take_init (q ∷ ps) p = ap (◌∷◌ q) (take_init ps p)

last_elem : (ps : List String) (p : String) → get_elem? (ps ++ p ∷ []) (length ps) ≡ some p
last_elem [] p = refl
last_elem (q ∷ ps) p = last_elem ps p

last_index : (ps : List String) (p : String) → length (ps ++ p ∷ []) - 1 ≡ length ps
last_index ps p = omega (arith, length-append ps (p ∷ []))

ends_star : (ps : List String) → ends_in_star (ps ++ "*" ∷ []) ≡ true
ends_star ps =
    let test : Option String → Bool = λ o. elim o [ some e ↦ is_star e | none ↦ false ] in
    ap test (ap (get_elem? (ps ++ "*" ∷ [])) (last_index ps "*") ∙ last_elem ps "*")

not_lone : (p : String) (ps : List String) → lone_star (p ∷ (ps ++ "*" ∷ [])) ≡ false
not_lone p [] = refl
not_lone p (q ∷ ps) = refl

module _ (os : Exe) where
  -- The test that `match_wild` makes of a rule that ends in "*".
  trailing :
      (argv ps : List String)
      → match_wild os argv (ps ++ "*" ∷ []) ≡ (
          if not (any (λ e. not (is_star e)) ps)
          then false
          else if ltb (length argv) (length ps)
          then false
          else prefix_from os 0 argv ps)
  unfolding match_wild
  trailing argv [] = refl
  trailing argv (p ∷ ps) =
      rw (not_lone p ps, ends_star (p ∷ ps), last_index (p ∷ ps) "*")
        (ap
          (λ (v : List String).
            if not (any (λ e. not (is_star e)) v)
            then false
            else if ltb (length argv) (length v)
            then false
            else prefix_from os 0 argv v)
          (take_init (p ∷ ps) "*"))

  -- A rule that ends in "*" matches an argv exactly when some element before the last "*" is no "*",
  -- the argv is as long as those elements, and each of them accepts the argument at its index: "*"
  -- accepts any, the first is compared as an executable, the others as texts.
  pub match_wild-trailing :
      (argv ps : List String)
      → (match_wild os argv (ps ++ "*" ∷ []) ≡ true) ↔ (
          Anchored os ps
          × (length ps ≤ length argv)
          × ((j : ℕ) (a p : String)
              → get_elem? ps j ≡ some p
              → get_elem? argv j ≡ some a
              → Accepts os j a p))
  match_wild-trailing argv ps = (
    λ h.
        let t = trailing argv ps in
        let found : any (λ e. not (is_star e)) ps ≡ true = ground (arith, t) in
        let fits : prefix_from os 0 argv ps ≡ true = ground (arith, t, found) in
        (
          Anchored-sound os ps found,
          ground (arith, t, found),
          λ j a p hp ha.
              let shift : 0 + j ≡ j = omega arith in
              subst (λ k. Accepts os k a p) shift (prefix_sound os 0 argv ps fits j a p hp ha),
        ),
    λ (an, l, h).
        let fits = prefix_complete os 0 argv ps l (λ j a p hp ha.
          let shift : j ≡ 0 + j = omega arith in
          subst (λ k. Accepts os k a p) shift (h j a p hp ha)) in
        ground (arith, trailing argv ps, Anchored-complete os ps an, fits),
  )

each_sound :
    (argv rule : List String)
    → each_arg argv rule ≡ true
    → (j : ℕ) (a r : String) → get_elem? rule j ≡ some r
    → get_elem? argv j ≡ some a
    → (r ≡ "*") ⊎ (a ≡ r)
unfolding each_arg
each_sound argv [] h j a r hr ha = cc
each_sound [] (q ∷ rule) h j a r hr ha = cc
each_sound (b ∷ xs) (q ∷ rule) h zero a r hr ha = ground (arith, eq_iff q "*", eq_iff b q)
each_sound (b ∷ xs) (q ∷ rule) h (suc j) a r hr ha =
    each_sound xs rule (ground (arith, eq_iff q "*", eq_iff b q)) j a r hr ha

each_complete :
    (argv rule : List String)
    → length argv ≡ length rule
    → ((j : ℕ) (a r : String)
        → get_elem? rule j ≡ some r
        → get_elem? argv j ≡ some a
        → (r ≡ "*") ⊎ (a ≡ r))
    → each_arg argv rule ≡ true
unfolding each_arg
each_complete argv [] l h = refl
each_complete [] (q ∷ rule) l h = absurd (omega arith)
each_complete (b ∷ xs) (q ∷ rule) l h = ground (
  arith,
  each_complete xs rule (omega arith) (λ j a r hr ha. h (suc j) a r hr ha),
  h 0 b q refl refl,
  eq_iff q "*",
  eq_iff b q,
)

-- A rule of two elements or more that does not end in "*" matches, once it is read as a wildcard
-- rule, exactly the argv of its length that have at each index the rule's text or a "*" there.
pub match_wild-inner :
    (os : Exe) (argv rule : List String)
    → lone_star rule ≡ false
    → ends_in_star rule ≡ false
    → (match_wild os argv rule ≡ true) ↔ (
        (length argv ≡ length rule)
        × ((j : ℕ) (a r : String)
            → get_elem? rule j ≡ some r
            → get_elem? argv j ≡ some a
            → (r ≡ "*") ⊎ (a ≡ r)))
unfolding match_wild
match_wild-inner os argv rule lone ends = (
  λ h. (ground arith, each_sound argv rule (ground arith)),
  λ (l, h). let all = each_complete argv rule l h in ground (arith, all),
)
