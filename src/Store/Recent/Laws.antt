-- ===== src/Store/Recent/Laws.antt =====
-- go/internal/store/store.go: the rows of Recent.
use fado.Base.{
  ℕ, ◌≡◌, ◌≢◌, ◌≤◌, refl, ap, sym, subst, ◌∙◌, inl, inr, true, Option, none, some, List, [], ◌∷◌,
  String, ℤ, pos, negsuc, Option-cases, arith, get_elem?, length, take, length-take, zero, suc,
  some_injective,
}
use fado.Protocol.{RecentItem, PendingItem}
use fado.Store.{Store, load, verdict, ack_info, selection_info, cancel_info}
use fado.Store.Listing.{decided, list}
use fado.Store.Listing.Laws.{list-Agrees}
use fado.Store.Recent.{recent, recent_item, recent_items, recent_limit, newest_first, found}

-- The row is of that id, and the id is decided.
Of : Store → String → Option RecentItem → Type 0
Of s rid o = (item : RecentItem) → o ≡ some item → (item.id ≡ rid) × (decided rid s ≡ true)

row-Of :
    (s : Store) (rid : String) (row : RecentItem)
    → row.id ≡ rid
    → decided rid s ≡ true
    → Of s rid (some row)
unfolding Of
row-Of s rid row same ok item e =
    (ap (λ (r : RecentItem). r.id) (sym (some_injective e)) ∙ same, ok)

none-Of : (s : Store) (rid : String) → Of s rid none
unfolding Of
none-Of s rid item e = cc

recent_item-Of : (s : Store) (rid : String) → Of s rid (recent_item s rid)
unfolding recent_item decided
recent_item-Of s rid = elim (Option-cases (load rid s)) [
  | inl l ↦ rw (l, recent_item) (none-Of s rid)
  | inr (rec, l) ↦ elim (Option-cases (cancel_info rid s)) [
    | inr (c, e) ↦ rw (l, e, recent_item) (row-Of s rid _ refl (ground (arith, e)))
    | inl e ↦ elim (Option-cases (ack_info rid s)) [
      | inr (a, f) ↦ rw (l, e, f, recent_item) (row-Of s rid _ refl (ground (arith, f)))
      | inl f ↦ elim (Option-cases (verdict rid s)) [
        | inr (v, g) ↦ rw (l, e, f, g, recent_item) (row-Of s rid _ refl (ground (arith, g)))
        | inl g ↦ elim (Option-cases (selection_info rid s)) [
          | inl h ↦ rw (l, e, f, g, h, recent_item) (none-Of s rid)
          | inr (sel, h) ↦ rw (l, e, f, g, h, recent_item) (row-Of s rid _ refl (ground (arith, h)))
        ]
      ]
    ]
  ]
]

rows_cons :
    (s : Store) (first : RecentItem) (rows : List RecentItem)
    → decided first.id s ≡ true
    → ((i : ℕ) (item : RecentItem) → get_elem? rows i ≡ some item → decided item.id s ≡ true)
    → (i : ℕ) (item : RecentItem) → get_elem? (first ∷ rows) i ≡ some item
    → decided item.id s ≡ true
rows_cons s first rows ok others zero item here =
    subst (λ (r : RecentItem). decided r.id s ≡ true) (some_injective here) ok
rows_cons s first rows ok others (suc i) item here = others i item here

rows-decided :
    (s : Store) (es : List (String × ℕ)) (i : ℕ) (item : RecentItem)
    → get_elem? (recent_items s es) i ≡ some item
    → decided item.id s ≡ true
unfolding recent_items Of
rows-decided s [] i item here = cc
rows-decided s ((rid, t) ∷ es) i item here = elim (Option-cases (recent_item s rid)) [
  | inl e ↦ rows-decided s es i item (rw (e, recent_items) at here)
  | inr (row, e) ↦
      let (same, ok) = recent_item-Of s rid row e in
      rows_cons s row (recent_items s es) (subst (λ id. decided id s ≡ true) (sym same) ok)
        (λ j. rows-decided s es j) i item (rw (e, recent_items) at here)
]

rows-length : (s : Store) (es : List (String × ℕ)) → length (recent_items s es) ≤ length es
unfolding recent_items
rows-length s [] = omega arith
rows-length s ((rid, t) ∷ es) = elim (Option-cases (recent_item s rid)) [
  | inl e ↦ rw (e, recent_items) (omega (arith, rows-length s es))
  | inr (row, e) ↦ rw (e, recent_items) (omega (arith, rows-length s es))
]

limit_small : (limit : ℤ) → recent_limit limit ≤ 50
unfolding recent_limit
limit_small (negsuc n) = omega arith
limit_small (pos n) = ground arith

-- Recent has at most 50 rows, and none of them is of an id that List has a row of, at any time.
pub recent_apart :
    (limit : ℤ) (now : ℕ) (s : Store)
    → (length (recent limit s) ≤ 50)
      × ((i j : ℕ) (row : RecentItem) (item : PendingItem)
          → get_elem? (recent limit s) i ≡ some row
          → get_elem? (list now s) j ≡ some item
          → row.id ≢ item.id)
unfolding recent
recent_apart limit now s =
    let n = recent_limit limit in
    let rows = newest_first (found s.pending) in
    (
      omega (arith, rows-length s (take n rows), length-take n rows, limit_small limit),
      λ i j row item here there same. cc (
        sym (rows-decided s (take n rows) i row here),
        ap (λ id. decided id s) same ∙ (list-Agrees now s j item there).undecided,
      ),
    )
