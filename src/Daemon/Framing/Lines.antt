-- ===== src/Daemon/Framing/Lines.antt =====
-- go/internal/daemon/daemon.go: which requests readRequestLine takes.
use fado.Base.{
  ℕ, zero, suc, ◌+◌, ◌-◌, ◌≡◌, ◌≤◌, ◌<◌, ◌↔◌, inl, inr, refl, ap, sym, ◌∙◌, Bool, true, false, List,
  [], ◌∷◌, ◌++◌, ◌==◌, nat_eq, length, take, drop, any, length-append, take-append-drop,
  append_assoc, Bool-cases, arith,
}
use fado.Daemon.Framing.{
  Conn, Framed, line, too_large, timed_out, malformed, read_bytes, read_request_line,
}

abbrev pub has_newline : List ℕ → Bool
has_newline bs = any (λ b. b == 10) bs

-- The bytes are the body, a newline and something more; the body has no newline.
abbrev pub Request : List ℕ → List ℕ → Type 0
Request body bytes = (rest : List ℕ) × (bytes ≡ body ++ 10 ∷ rest) × (has_newline body ≡ false)

read_bytes-found :
    (bs : List ℕ)
    → (read_bytes bs).1 ≡ true
    → (body : List ℕ) × ((read_bytes bs).0 ≡ body ++ 10 ∷ []) × Request body bs
unfolding read_bytes
read_bytes-found [] h = cc
read_bytes-found (b ∷ bs) h = elim (Bool-cases (b == 10)) [
  | inl e ↦
      let newline : b ≡ 10 = ground (arith, e) in
      rw (e, read_bytes) ([], ap (λ x. x ∷ []) newline, (bs, ap (λ x. x ∷ bs) newline, refl))
  | inr e ↦
      let (body, got, (rest, whole, none_in)) = read_bytes-found bs (rw (e, read_bytes) at h) in
      rw (e, read_bytes)
        (b ∷ body, ap (◌∷◌ b) got, (rest, ap (◌∷◌ b) whole, ground (arith, e, none_in)))
]

read_bytes-body :
    (body rest : List ℕ)
    → has_newline body ≡ false
    → read_bytes (body ++ 10 ∷ rest) ≡ (body ++ 10 ∷ [], true)
unfolding read_bytes
read_bytes-body [] rest h = refl
read_bytes-body (b ∷ body) rest h =
    let other : (b == 10) ≡ false = ground (arith, h) in
    let later : has_newline body ≡ false = ground (arith, h) in
    rw (other, read_bytes-body body rest later, read_bytes) refl

line_injective : (a b : List ℕ) → line a ≡ line b → a ≡ b
line_injective a b e =
    ap (λ (f : Framed). elim f [ line l ↦ l | too_large ↦ [] | timed_out ↦ [] | malformed ↦ [] ]) e

-- What a line that is read says of the limited bytes.
line-read :
    (limit : ℕ) (c : Conn) (got : List ℕ)
    → c.deadline ≡ true
    → read_request_line limit c ≡ line got
    → ((read_bytes (take (limit + 2) c.bytes)).1 ≡ true)
      × ((read_bytes (take (limit + 2) c.bytes)).0 ≡ got)
      × (length got ≤ limit + 1)
      × (1 < length got)
unfolding read_request_line
line-read limit c got ready h =
    let r = (read_bytes (take (limit + 2) c.bytes)).0 in
    let found : (read_bytes (take (limit + 2) c.bytes)).1 ≡ true = ground (arith, h, ready) in
    let same : r ≡ got = ground (arith, h, ready, line_injective r got) in
    let lengths = ap length same in
    (
      found,
      same,
      ground (arith, h, ready, found, lengths),
      ground (arith, h, ready, found, lengths),
    )

-- The limited bytes of a request that is short enough.
take-request :
    (n : ℕ) (body rest : List ℕ)
    → length body < n
    → take n (body ++ 10 ∷ rest) ≡ body ++ 10 ∷ take (n - suc (length body)) rest
take-request zero body rest h = absurd (omega arith)
take-request (suc n) [] rest h =
    ap (λ k. 10 ∷ take k rest) (let e : n ≡ suc n - 1 = omega arith in e)
take-request (suc n) (b ∷ body) rest h = ap (◌∷◌ b) (
    take-request n body rest (omega arith)
    ∙ ap (λ k. body ++ 10 ∷ take k rest)
        (let e : n - suc (length body) ≡ suc n - suc (suc (length body)) = omega arith in e))

line-accepted :
    (limit : ℕ) (c : Conn) (body rest : List ℕ)
    → c.deadline ≡ true
    → 0 < length body
    → length body ≤ limit
    → c.bytes ≡ body ++ 10 ∷ rest
    → has_newline body ≡ false
    → read_request_line limit c ≡ line (body ++ 10 ∷ [])
unfolding read_request_line
line-accepted limit c body rest ready some_bytes small bytes none_in =
    let shape = ap (take (limit + 2)) bytes ∙ take-request (limit + 2) body rest (omega arith) in
    let read =
      ap read_bytes shape
      ∙ read_bytes-body body (take (limit + 2 - suc (length body)) rest) none_in in
    let lengths = length-append body (10 ∷ []) in
    rw (ready, read, read_request_line) (ground (arith, lengths))

-- Where a read deadline can be set, readRequestLine answers a line exactly where the peer sent that line,
-- which ends at the first newline and has from 1 to the limit of bytes before it.
pub read_request_line-Request :
    (limit : ℕ) (c : Conn) (got : List ℕ)
    → c.deadline ≡ true
    → (read_request_line limit c ≡ line got)
      ↔ (body : List ℕ) × (got ≡ body ++ 10 ∷ [])
        × (0 < length body)
        × (length body ≤ limit)
        × Request body c.bytes
read_request_line-Request limit c got ready = (
  λ h.
      let (found, same, small, some_bytes) = line-read limit c got ready h in
      let (body, whole, (rest, bytes, none_in)) =
        read_bytes-found (take (limit + 2) c.bytes) found in
      let split : got ≡ body ++ 10 ∷ [] = sym same ∙ whole in
      let lengths = ap length split ∙ length-append body (10 ∷ []) in
      (
        body,
        split,
        omega (arith, lengths),
        omega (arith, lengths),
        (
          rest ++ drop (limit + 2) c.bytes,
          sym (take-append-drop (limit + 2) c.bytes)
              ∙ ap (λ x. x ++ drop (limit + 2) c.bytes) bytes
              ∙ append_assoc body (10 ∷ rest) (drop (limit + 2) c.bytes),
          none_in,
        ),
      ),
  λ (body, split, some_bytes, small, (rest, bytes, none_in)).
      line-accepted limit c body rest ready some_bytes small bytes none_in ∙ ap line (sym split),
)
