-- ===== src/Policy/Rules/Laws.antt =====
-- What AddRule does to the policy file, and to the tiers.
use fado.Base.{
  ℕ, ◌≡◌, ◌⊎◌, inl, inr, refl, Bool, true, false, Option, none, some, List, [], ◌∷◌, ◌++◌, String,
  arith, eq_iff, Option-cases, nat_eq, string_eq, length, any, any-append, any_of, any-true,
}
use fado.Policy.{
  Policy, Exe, equal, same_items, is_star, exe_match, canon_exe, is_restricted_base, match_rule,
  permits, tier,
}
use fado.Policy.Rules.{
  RuleError, refused, added, load, rules_of, with_rule, append_rule, rule_fault, add_rule,
}

same_items_self : (xs : List String) → same_items xs xs ≡ true
same_items_self [] = refl
same_items_self (x ∷ xs) = ground (arith, eq_iff x x, same_items_self xs)

equal_self : (xs : List String) → equal xs xs ≡ true
unfolding equal
equal_self xs = ground (arith, same_items_self xs)

any_last :
    (test : List String → Bool) (xs : List (List String)) (x : List String)
    → test x ≡ true
    → any test (xs ++ x ∷ []) ≡ true
any_last test xs x h = ground (arith, any-append test xs (x ∷ []), h)

-- AddRule that reports an error leaves the file as it was.
pub add_rule-refused :
    (os : Exe) (saves : Bool) (file : Option Policy) (target match_type : String)
    (pattern : List String) (e : RuleError)
    → (add_rule os saves file target match_type pattern).1 ≡ refused e
    → (add_rule os saves file target match_type pattern).0 ≡ file
unfolding add_rule append_rule
add_rule-refused os saves file target match_type pattern e h = ground arith

-- What a successful append leaves in the file.
pub record Holds (before after : Option Policy) (target : String) (vec : List String) (p : Policy)
    (n : ℕ) : Type 0 where
  pub reloaded : load after ≡ p
  pub counted : n ≡ length (rules_of target p)
  pub present : any (λ r. equal r vec) (rules_of target p) ≡ true
  pub grown : (p ≡ load before) ⊎ (p ≡ with_rule target (load before) vec)

load-with_rule :
    (file : Option Policy) (target : String) (vec : List String)
    → load (some (with_rule target (load file) vec)) ≡ with_rule target (load file) vec
unfolding load with_rule
load-with_rule none target vec = ground arith
load-with_rule (some p) target vec = ground arith

with_rule_present :
    (target : String) (p : Policy) (vec : List String)
    → any (λ r. equal r vec) (rules_of target (with_rule target p vec)) ≡ true
unfolding rules_of with_rule
with_rule_present target p vec = ground (
  arith,
  any_last (λ r. equal r vec) p.whitelist vec (equal_self vec),
  any_last (λ r. equal r vec) p.blacklist vec (equal_self vec),
)

append_rule-Holds :
    (saves : Bool) (file : Option Policy) (target : String) (vec : List String) (p : Policy) (n : ℕ)
    → (append_rule saves file target vec).1 ≡ added p n
    → Holds file (append_rule saves file target vec).0 target vec p n
unfolding append_rule
append_rule-Holds saves file target vec p n h = record {
  reloaded = ground (arith, load-with_rule file target vec);
  counted = ground (arith, load-with_rule file target vec);
  present =
      ground (arith, load-with_rule file target vec, with_rule_present target (load file) vec);
  grown = ground (arith, load-with_rule file target vec);
}

-- AddRule that returns a policy leaves a file from which Load reads that policy; the count is that of
-- its target list, the pattern is in that list, and the policy is the one that the file held or that
-- one with the pattern at the end of the target list.
pub add_rule-Holds :
    (os : Exe) (saves : Bool) (file : Option Policy) (target match_type : String)
    (pattern : List String) (p : Policy) (n : ℕ)
    → (add_rule os saves file target match_type pattern).1 ≡ added p n
    → Holds file (add_rule os saves file target match_type pattern).0 target pattern p n
unfolding add_rule
add_rule-Holds os saves file target match_type pattern p n h =
    elim (Option-cases (rule_fault os target match_type pattern)) [
      | inl e ↦
          rw (e, add_rule) (append_rule-Holds saves file target pattern p n (ground (arith, e)))
      | inr (x, e) ↦ absurd (ground (arith, e))
    ]

append_rule_again :
    (saves later : Bool) (file : Option Policy) (target : String) (vec : List String) (p : Policy)
    (n : ℕ)
    → (append_rule saves file target vec).1 ≡ added p n
    → append_rule later (append_rule saves file target vec).0 target vec
      ≡ ((append_rule saves file target vec).0, added p n)
unfolding append_rule
append_rule_again saves later file target vec p n h =
    let v = append_rule-Holds saves file target vec p n h in
    ground (arith, v.reloaded, v.counted, v.present)

add_rule-append :
    (os : Exe) (saves : Bool) (file : Option Policy) (target match_type : String)
    (pattern : List String)
    → rule_fault os target match_type pattern ≡ none
    → add_rule os saves file target match_type pattern ≡ append_rule saves file target pattern
unfolding add_rule
add_rule-append os saves file target match_type pattern e = rw (e, add_rule)

added_no_fault :
    (os : Exe) (saves : Bool) (file : Option Policy) (target match_type : String)
    (pattern : List String) (p : Policy) (n : ℕ)
    → (add_rule os saves file target match_type pattern).1 ≡ added p n
    → rule_fault os target match_type pattern ≡ none
unfolding add_rule
added_no_fault os saves file target match_type pattern p n h = ground arith

-- The same call again, whether or not it could save, changes nothing and returns the same.
pub add_rule_again :
    (os : Exe) (saves later : Bool) (file : Option Policy) (target match_type : String)
    (pattern : List String) (p : Policy) (n : ℕ)
    → (add_rule os saves file target match_type pattern).1 ≡ added p n
    → add_rule os later
        (add_rule os saves file target match_type pattern).0
        target
        match_type
        pattern
      ≡ ((add_rule os saves file target match_type pattern).0, added p n)
add_rule_again os saves later file target match_type pattern p n h =
    let none_found = added_no_fault os saves file target match_type pattern p n h in
    let first = add_rule-append os saves file target match_type pattern none_found in
    let second =
      λ (f : Option Policy). add_rule-append os later f target match_type pattern none_found in
    rw (first, second (append_rule saves file target pattern).0)
      (append_rule_again saves later file target pattern p n (rw first at h))

same_items-eq : (xs ys : List String) → length xs ≡ length ys → same_items xs ys ≡ true → xs ≡ ys
same_items-eq [] [] l h = refl
same_items-eq [] (y ∷ ys) l h = absurd (omega arith)
same_items-eq (x ∷ xs) [] l h = cc
same_items-eq (x ∷ xs) (y ∷ ys) l h = ground (arith, eq_iff x y, same_items-eq xs ys (omega arith))

equal-eq : (xs ys : List String) → equal xs ys ≡ true → xs ≡ ys
unfolding equal
equal-eq xs ys h = same_items-eq xs ys (ground arith) (ground arith)

tier-of_rule :
    (os : Exe) (p : Policy) (argv vec : List String)
    → any (λ r. equal r vec) p.whitelist ≡ true
    → permits os argv vec ≡ true
    → tier os p argv ≡ "allow"
unfolding tier
tier-of_rule os p argv vec h k =
    let (i, r, at, same) = any-true (λ r. equal r vec) p.whitelist h in
    let hit : permits os argv r ≡ true = rw (equal-eq r vec same) k in
    rw (any_of (λ a. permits os argv a) p.whitelist i r at hit)

exe_match_self : (os : Exe) (a : String) → exe_match os a a ≡ true
unfolding exe_match
exe_match_self os a = ground (arith, eq_iff (canon_exe os a).0 (canon_exe os a).0)

no_wildcards :
    (os : Exe) (pattern : List String)
    → rule_fault os "whitelist" "exact" pattern ≡ none
    → any is_star pattern ≡ false
unfolding rule_fault
no_wildcards os pattern h = ground arith

whitelist_present :
    (os : Exe) (saves : Bool) (file : Option Policy) (vec : List String) (p : Policy) (n : ℕ)
    → (add_rule os saves file "whitelist" "exact" vec).1 ≡ added p n
    → any (λ r. equal r vec) p.whitelist ≡ true
unfolding rules_of
whitelist_present os saves file vec p n h =
    (add_rule-Holds os saves file "whitelist" "exact" vec p n h).present

-- A whitelist rule of one element that AddRule takes as "exact" allows that program with any
-- arguments, unless it is a restricted tool.
pub exact_single_is_base :
    (os : Exe) (saves : Bool) (file : Option Policy) (name : String) (p : Policy) (n : ℕ)
    → is_restricted_base os name ≡ false
    → (add_rule os saves file "whitelist" "exact" (name ∷ [])).1 ≡ added p n
    → (args : List String) → tier os p (name ∷ args) ≡ "allow"
unfolding permits match_rule
exact_single_is_base os saves file name p n free h args =
    let plain = no_wildcards os (name ∷ []) (added_no_fault os saves file _ _ (name ∷ []) p n h) in
    tier-of_rule os p (name ∷ args) (name ∷ []) (whitelist_present os saves file (name ∷ []) p n h)
      (ground (arith, plain, exe_match_self os name))

-- A whitelist rule of two elements or more that AddRule takes as "exact" allows its argv.
pub exact_allows :
    (os : Exe) (saves : Bool) (file : Option Policy) (a b : String) (rest : List String)
    (p : Policy) (n : ℕ)
    → (add_rule os saves file "whitelist" "exact" (a ∷ b ∷ rest)).1 ≡ added p n
    → tier os p (a ∷ b ∷ rest) ≡ "allow"
unfolding permits match_rule
exact_allows os saves file a b rest p n h =
    let vec = a ∷ b ∷ rest in
    let plain = no_wildcards os vec (added_no_fault os saves file _ _ vec p n h) in
    tier-of_rule os p vec vec (whitelist_present os saves file vec p n h)
      (ground (arith, plain, equal_self vec))
