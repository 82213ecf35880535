-- ===== src/Service/Asks/Toggles.antt =====
-- go/internal/service/ask.go: toggleIdx ticks or unticks one index.
use fado.Base.{
  ℕ, ◌≡◌, ◌∙◌, refl, Bool, true, false, not, ◌||◌, ◌&&◌, List, [], ◌∷◌, ◌++◌, arith, leb,
  if◌then◌else◌, ◌==◌, nat_eq, keep_if, any-append, nat_beq_iff,
}
use fado.Service.Asks.{insert_int, sort_ints, ticked, toggle_idx}

ticked-insert_int : (j x : ℕ) (ys : List ℕ) → ticked j (insert_int x ys) ≡ ((x == j) || ticked j ys)
unfolding insert_int
ticked-insert_int j x [] = refl
ticked-insert_int j x (y ∷ ys) = ground (arith, ticked-insert_int j x ys)

ticked-sort_ints : (j : ℕ) (xs : List ℕ) → ticked j (sort_ints xs) ≡ ticked j xs
unfolding sort_ints
ticked-sort_ints j [] = refl
ticked-sort_ints j (x ∷ xs) =
    ground (arith, ticked-insert_int j x (sort_ints xs), ticked-sort_ints j xs)

ticked-keep_if :
    (j idx : ℕ) (set : List ℕ)
    → ticked j (keep_if (λ i. not (i == idx)) set) ≡ (if idx == j then false else ticked j set)
ticked-keep_if j idx [] = ground arith
ticked-keep_if j idx (x ∷ set) = ground (arith, ticked-keep_if j idx set)

abbrev pub ascending : List ℕ → Bool
ascending [] = true
ascending (x ∷ []) = true
ascending (x ∷ y ∷ ys) = leb x y && ascending (y ∷ ys)

insert_int-ascending :
    (x : ℕ) (ys : List ℕ) → ascending ys ≡ true → ascending (insert_int x ys) ≡ true
unfolding insert_int
insert_int-ascending x [] h = refl
insert_int-ascending x (y ∷ []) h = ground arith
insert_int-ascending x (y ∷ z ∷ zs) h = ground (arith, insert_int-ascending x (z ∷ zs))

sort_ints-ascending : (xs : List ℕ) → ascending (sort_ints xs) ≡ true
unfolding sort_ints
sort_ints-ascending [] = refl
sort_ints-ascending (x ∷ xs) = insert_int-ascending x (sort_ints xs) (sort_ints-ascending xs)

-- toggleIdx flips whether its index is in the set and leaves every other index as it was, and what it
-- returns is in ascending order.
pub toggle_idx_flips :
    (set : List ℕ) (idx : ℕ)
    → ((j : ℕ)
        → ticked j (toggle_idx set idx) ≡ (if idx == j then not (ticked j set) else ticked j set))
      × (ascending (toggle_idx set idx) ≡ true)
unfolding toggle_idx
toggle_idx_flips set idx =
    let out = keep_if (λ i. not (i == idx)) set in
    let flipped = if ticked idx set then out else out ++ idx ∷ [] in
    (
      λ j.
          ticked-sort_ints j flipped
          ∙ ground (
            arith,
            ticked-keep_if j idx set,
            nat_beq_iff idx j,
            any-append (λ k. k == j) out (idx ∷ []),
          ),
      sort_ints-ascending flipped,
    )
