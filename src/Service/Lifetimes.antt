-- ===== src/Service/Lifetimes.antt =====
-- go/internal/service/notify.go and ask.go: how long a notice or a question lives, in nanoseconds. A
-- time.Duration is an int64, whose product wraps around.
use fado.Base.{
  signed, nat_eq, ◌==◌, ℕ, ◌+◌, ◌-◌, ◌*◌, ◌%◌, ◌^◌, ◌≤◌, ◌≡◌, ℤ, pos, negsuc, ltb, if◌then◌else◌,
  arith,
}

abbrev pub second : ℕ
second = 1000000000

-- `time.Duration(n) * time.Second`.
unfoldable pub seconds : ℤ → ℤ
seconds (pos n) = signed (n * second % 2 ^ 64)
seconds (negsuc n) = signed ((2 ^ 64 - (n + 1) * second % 2 ^ 64) % 2 ^ 64)

-- The default for 0, then the two bounds.
unfoldable pub clamp_ttl : ℕ → ℕ → ℕ → ℤ → ℕ
clamp_ttl default least most (negsuc n) = if ltb most least then most else least
clamp_ttl default least most (pos n) =
    let given = if n == 0 then default else n in
    let raised = if ltb given least then least else given in
    if ltb most raised then most else raised

-- A lifetime is within its bounds, whatever the request says; it is what the request says where that is
-- within them and not 0, and the default for 0.
pub clamp_ttl_bounds :
    (default least most : ℕ) (t : ℤ)
    → least ≤ default
    → default ≤ most
    → (least ≤ clamp_ttl default least most t)
      × (clamp_ttl default least most t ≤ most)
      × (clamp_ttl default least most (pos 0) ≡ default)
      × ((n : ℕ) → 1 ≤ n → least ≤ n → n ≤ most → clamp_ttl default least most (pos n) ≡ n)
unfolding clamp_ttl
clamp_ttl_bounds default least most (pos n) a b = (
  ground (arith, a, b),
  ground (arith, a, b),
  ground (arith, a, b),
  λ n one c d. ground (arith, one, c, d),
)
clamp_ttl_bounds default least most (negsuc n) a b = (
  ground (arith, a, b),
  ground (arith, a, b),
  ground (arith, a, b),
  λ n one c d. ground (arith, one, c, d),
)
