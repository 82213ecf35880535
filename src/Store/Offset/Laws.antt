-- ===== src/Store/Offset/Laws.antt =====
-- The poll offset survives the file.
use native.Mathlib.Nat.{pow-suc}
use fado.Base.{
  nat_eq, ◌==◌, if◌then◌else◌, ◌∙◌, ltb, ◌%◌, Bool-cases, ◌-◌, sym, ◌∷◌, ap, ◌/◌, arith, ◌+◌, ◌≡◌,
  ◌^◌, ◌*◌, ◌<◌, zero, suc, [], inl, inr, ℕ, List, leb,
}
use fado.Store.{Store}
use fado.Store.Offset.{int64_mod, int64_min, digits_onto, itoa, read_digits, get_offset, set_offset}

read_digit :
    (v d : ℕ) (acc : List ℕ)
    → d < 10
    → v * 10 + d < int64_mod
    → read_digits v ((48 + d) ∷ acc) ≡ read_digits (v * 10 + d) acc
unfolding read_digits
read_digit v d acc small fits =
    let value : (v * 10 + ((48 + d) - 48)) % int64_mod ≡ v * 10 + d = omega arith in
    ground (arith, ap (λ x. read_digits x acc) value)

below_pow : (n room : ℕ) → n < 10 ^ suc room → n / 10 < 10 ^ room
below_pow n room h = omega (arith, pow-suc 10 room)

read-digits_onto :
    (room n : ℕ) (acc : List ℕ)
    → n < 10 ^ room
    → n < int64_mod
    → read_digits 0 (digits_onto room n acc) ≡ read_digits n acc
unfolding digits_onto
read-digits_onto zero n acc small fits =
    let none_left : n ≡ 0 = omega arith in ap (λ x. read_digits x acc) (sym none_left)
read-digits_onto (suc room) n acc small fits = elim (Bool-cases (ltb 0 n)) [
  | inl more ↦
      let whole : n / 10 * 10 + n % 10 ≡ n = omega arith in
      rw (more, digits_onto)
        (read-digits_onto room (n / 10) ((48 + n % 10) ∷ acc) (below_pow n room small) (omega arith)
          ∙ read_digit (n / 10) (n % 10) acc (omega arith) (omega arith)
          ∙ ap (λ x. read_digits x acc) whole)
  | inr done ↦
      let none_left : n ≡ 0 = ground (arith, done) in
      rw (done, digits_onto) (ap (λ x. read_digits x acc) (sym none_left))
]

-- GetOffset after SetOffset of a number that is not negative returns it; a negative one reads as 0.
pub get_offset-set_offset :
    (n : ℕ) (s : Store)
    → n < int64_mod
    → get_offset (set_offset n s) ≡ (if leb int64_min n then 0 else n)
unfolding get_offset set_offset itoa read_digits
get_offset-set_offset n s fits = elim (Bool-cases (n == 0)) [
  | inl e ↦ ground (arith, e, read_digit 0 0 [])
  | inr e ↦ ground (arith, e, read-digits_onto 20 n [])
]
