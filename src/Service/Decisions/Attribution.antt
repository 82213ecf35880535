-- ===== src/Service/Decisions/Attribution.antt =====
-- go/internal/service/service.go: cleanBy. The runes that it keeps are one byte each, so the bytes
-- that it has written are as many as those runes.
use Prim.Native.Char.{Char, code}
use fado.Base.{
  ℕ, zero, suc, ◌≤◌, ◌≡◌, ◌≢◌, refl, Bool, true, false, ◌&&◌, ◌||◌, String, leb, if◌then◌else◌,
  ◌==◌, string_eq, nat_eq, arith, eq_iff, ap, sym, subst, ◌∙◌, ◌⊎◌, Bool-cases, inl, inr,
}

unfoldable pub is_by_rune : ℕ → Bool
is_by_rune r =
    (leb 97 r && leb r 122)
    || (leb 65 r && leb r 90)
    || (leb 48 r && leb r 57)
    || r == 58
    || r == 95
    || r == 45
    || r == 64
    || r == 46

-- The loop, with `room` bytes left of the 64.
unfoldable pub kept_runes : ℕ → String → String
kept_runes zero s = String.[]
kept_runes (suc room) String.[] = String.[]
kept_runes (suc room) (String.◌∷◌ c s) = elim (is_by_rune (code c)) [
  | true ↦ String.◌∷◌ c (kept_runes room s)
  | false ↦ kept_runes (suc room) s
]

unfoldable pub clean_by : String → String
clean_by by =
    if by == "" then "local" else let b = kept_runes 64 by in if b == "" then "local" else b

-- Every character may stand in an attribution.
abbrev pub each_by_rune : String → Bool
each_by_rune String.[] = true
each_by_rune (String.◌∷◌ c s) = is_by_rune (code c) && each_by_rune s

-- What `len` is on text of one-byte runes.
abbrev pub rune_count : String → ℕ
rune_count String.[] = 0
rune_count (String.◌∷◌ c s) = suc (rune_count s)

keeps :
    (room : ℕ) (c : Char) (s : String)
    → is_by_rune (code c) ≡ true
    → kept_runes (suc room) (String.◌∷◌ c s) ≡ String.◌∷◌ c (kept_runes room s)
unfolding kept_runes
keeps room c s e = ground (arith, e)

skips :
    (room : ℕ) (c : Char) (s : String)
    → is_by_rune (code c) ≡ false
    → kept_runes (suc room) (String.◌∷◌ c s) ≡ kept_runes (suc room) s
unfolding kept_runes
skips room c s e = ground (arith, e)

kept_runes-each : (room : ℕ) (s : String) → each_by_rune (kept_runes room s) ≡ true
unfolding kept_runes
kept_runes-each zero s = refl
kept_runes-each (suc room) String.[] = refl
kept_runes-each (suc room) (String.◌∷◌ c s) = elim (Bool-cases (is_by_rune (code c))) [
  | inl e ↦
      subst (λ t. each_by_rune t ≡ true) (sym (keeps room c s e)) (rw e (kept_runes-each room s))
  | inr e ↦
      subst (λ t. each_by_rune t ≡ true) (sym (skips room c s e)) (kept_runes-each (suc room) s)
]

rune_count-kept_runes : (room : ℕ) (s : String) → rune_count (kept_runes room s) ≤ room
unfolding kept_runes
rune_count-kept_runes zero s = omega arith
rune_count-kept_runes (suc room) String.[] = omega arith
rune_count-kept_runes (suc room) (String.◌∷◌ c s) = elim (Bool-cases (is_by_rune (code c))) [
  | inl e ↦
      subst (λ t. rune_count t ≤ suc room) (sym (keeps room c s e))
        (omega (arith, rune_count-kept_runes room s))
  | inr e ↦
      subst (λ t. rune_count t ≤ suc room) (sym (skips room c s e))
        (rune_count-kept_runes (suc room) s)
]

kept_runes-same :
    (room : ℕ) (s : String) → each_by_rune s ≡ true → rune_count s ≤ room → kept_runes room s ≡ s
unfolding kept_runes
kept_runes-same zero String.[] h le = refl
kept_runes-same zero (String.◌∷◌ c s) h le = absurd (omega arith)
kept_runes-same (suc room) String.[] h le = refl
kept_runes-same (suc room) (String.◌∷◌ c s) h le =
    let first : is_by_rune (code c) ≡ true = ground arith in
    let others : each_by_rune s ≡ true = ground arith in
    keeps room c s first ∙ ap (String.◌∷◌ c) (kept_runes-same room s others (omega arith))

clean_by-cases :
    (by : String)
    → (clean_by by ≡ "local") ⊎ ((clean_by by ≡ kept_runes 64 by) × (kept_runes 64 by ≢ ""))
unfolding clean_by
clean_by-cases by = elim (Bool-cases (by == "")) [
  | inl e ↦ inl (rw e refl)
  | inr e ↦ elim (Bool-cases (kept_runes 64 by == "")) [
    | inl f ↦ inl (rw (e, f) refl)
    | inr f ↦ inr (rw (e, f) refl, λ g. cc ((eq_iff (kept_runes 64 by) "").1 g))
  ]
]

clean_by-same :
    (by : String) → by ≢ "" → each_by_rune by ≡ true → rune_count by ≤ 64 → clean_by by ≡ by
unfolding clean_by
clean_by-same by some each short =
    let same : kept_runes 64 by ≡ by = kept_runes-same 64 by each short in
    elim (Bool-cases (by == "")) [
      | inl e ↦ absurd (some ((eq_iff by "").0 e))
      | inr e ↦ rw (same, e) refl
    ]

-- An attribution is not empty, has at most 64 runes, each of them an ASCII letter, a digit or one of
-- ":_-@.", and cleaning it again changes nothing.
pub clean_by-Clean :
    (by : String)
    → (clean_by by ≢ "")
      × (rune_count (clean_by by) ≤ 64)
      × (each_by_rune (clean_by by) ≡ true)
      × (clean_by (clean_by by) ≡ clean_by by)
unfolding is_by_rune
clean_by-Clean by =
    let good : (t : String)
        → t ≢ ""
        → rune_count t ≤ 64
        → each_by_rune t ≡ true
        → (t ≢ "") × (rune_count t ≤ 64) × (each_by_rune t ≡ true) × (clean_by t ≡ t) =
      λ t some short each. (some, short, each, clean_by-same t some each short) in
    let at_case =
      λ (t : String). (t ≢ "") × (rune_count t ≤ 64) × (each_by_rune t ≡ true) × (clean_by t ≡ t) in
    elim (clean_by-cases by) [
      | inl e ↦ subst at_case (sym e) (good "local" (λ e. cc) (omega arith) refl)
      | inr (e, some) ↦
          subst at_case (sym e)
            (good (kept_runes 64 by) some (rune_count-kept_runes 64 by) (kept_runes-each 64 by))
    ]
