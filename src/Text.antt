-- ===== src/Text.antt =====
-- What the program uses of Go's strings package. A text is its list of characters.
use Prim.Native.Char.{code}
use Prim.Native.String.{String, slice, find}
use text.Mathlib.Text.{starts_with}
use mathlib.Core.List.{List, [], ◌∷◌}
pub use Prim.Native.String.{len, ◌++◌ as append_text}
use mathlib.Core.Bool.{Bool, false, ◌||◌, ◌&&◌}
use Prim.Native.Nat.{ℕ, zero, suc, ◌+◌, ◌/◌, ◌%◌}
use fado.Base.Tests.{leb, ltb, if◌then◌else◌, ◌==◌, nat_eq}

-- strings.ContainsRune.
unfoldable pub contains_rune : String → ℕ → Bool
contains_rune String.[] r = false
contains_rune (String.◌∷◌ c s) r = code c == r || contains_rune s r

-- unicode.IsSpace.
abbrev pub is_space : ℕ → Bool
is_space c =
    (leb 9 c && leb c 13)
    || c == 32
    || c == 0x85
    || c == 0xa0
    || c == 0x1680
    || (leb 0x2000 c && leb c 0x200a)
    || c == 0x2028
    || c == 0x2029
    || c == 0x202f
    || c == 0x205f
    || c == 0x3000

trim_left : String → String
trim_left String.[] = String.[]
trim_left (String.◌∷◌ c s) =
    let rest = trim_left s in if is_space (code c) then rest else String.◌∷◌ c s

blank : String → Bool
blank String.[] = Bool.true
blank (String.◌∷◌ c s) = is_space (code c) && blank s

-- Cut where only spaces are left.
trim_right : String → String
trim_right String.[] = String.[]
trim_right (String.◌∷◌ c s) =
    let rest = trim_right s in if blank (String.◌∷◌ c s) then String.[] else String.◌∷◌ c rest

-- strings.TrimSpace.
unfoldable pub trim_space : String → String
unfolding trim_left trim_right blank
trim_space s = trim_right (trim_left s)

-- `s[:n]`, in bytes; text has whole characters, so a character that the cut would split is left out.
abbrev pub take_bytes : ℕ → String → String
take_bytes n s = slice s 0 n

-- strings.HasPrefix and strings.Contains; `find` is past the text where there is no such part.
abbrev pub has_prefix : String → String → Bool
has_prefix s t = starts_with s t

abbrev pub contains : String → String → Bool
contains s t = leb (find s t) (len s)

-- strings.TrimPrefix.
abbrev pub trim_prefix : String → String → String
trim_prefix s t = if starts_with s t then slice s (len t) (len s) else s

-- strings.Fields.
first_field : String → String
first_field String.[] = ""
first_field (String.◌∷◌ c s) =
    let rest = first_field s in if is_space (code c) then "" else String.◌∷◌ c rest

-- The fields from here on; the flag says whether the character before is no space.
fields_from : Bool → String → List String
fields_from inside String.[] = []
fields_from inside (String.◌∷◌ c s) = elim (is_space (code c)) [
  | Bool.true ↦ fields_from false s
  | Bool.false ↦ elim inside [
    | Bool.true ↦ fields_from Bool.true s
    | Bool.false ↦ first_field (String.◌∷◌ c s) ∷ fields_from Bool.true s
  ]
]

unfoldable pub fields : String → List String
unfolding first_field fields_from
fields s = fields_from false s

-- strings.Join.
unfoldable pub join : String → List String → String
join sep [] = ""
join sep (x ∷ []) = x
join sep (x ∷ y ∷ ys) = append_text x (append_text sep (join sep (y ∷ ys)))

-- "%d" of a number below 10 ^ 20.
digits_of : ℕ → ℕ → String → String
digits_of zero n acc = acc
digits_of (suc room) n acc =
    let more =
      digits_of room (n / 10) (append_text (slice "0123456789" (n % 10) (n % 10 + 1)) acc) in
    if ltb n 10 then append_text (slice "0123456789" n (n + 1)) acc else more

unfoldable pub decimal : ℕ → String
unfolding digits_of
decimal n = digits_of 20 n ""
