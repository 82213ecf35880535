-- ===== src/Store/Offset.antt =====
-- go/internal/store/store.go: GetOffset, SetOffset and itoa, over the bytes of tg_offset. An int64 is
-- its bit pattern below 2 ^ 64; the patterns from 2 ^ 63 on are the negative numbers.
pub mod Laws
use fado.Base.{
  ℕ, zero, suc, ◌+◌, ◌*◌, ◌-◌, ◌/◌, ◌%◌, ◌^◌, ◌<◌, ◌≡◌, Bool, ◌||◌, Option, none, some, List, [],
  ◌∷◌, ltb, leb, if◌then◌else◌, ◌==◌, nat_eq, arith,
}
use fado.Store.{Store}

abbrev pub int64_mod : ℕ
int64_mod = 18446744073709551616

abbrev pub int64_min : ℕ
int64_min = 9223372036854775808

-- The digits that the loop stores, last first; `room` is the part of the array that is left.
digits_onto : ℕ → ℕ → List ℕ → List ℕ
digits_onto zero n acc = acc
digits_onto (suc room) n acc =
    let rest = digits_onto room (n / 10) ((48 + n % 10) ∷ acc) in if ltb 0 n then rest else acc

unfoldable pub itoa : ℕ → List ℕ
unfolding digits_onto
itoa n = if n == 0 then 48 ∷ [] else if leb int64_min n then [] else digits_onto 20 n []

read_digits : ℕ → List ℕ → ℕ
read_digits n [] = n
read_digits n (ch ∷ rest) =
    let more = read_digits ((n * 10 + (ch - 48)) % int64_mod) rest in
    if ltb ch 48 || ltb 57 ch then 0 else more

unfoldable pub get_offset : Store → ℕ
unfolding read_digits
get_offset s = elim s.offset [ none ↦ 0 | some text ↦ read_digits 0 text ]

-- A write that works.
unfoldable pub set_offset : ℕ → Store → Store
set_offset n s = record s { offset = some (itoa n) }
