-- ===== src/Service/Asks.antt =====
-- go/internal/service/ask.go: the options of a multi-select question that are ticked, and their
-- submission. The keyboard of the card is a message to Telegram, so it is left out.
pub mod Toggles
use fado.Base.{
  ℕ, Bool, true, false, not, ◌||◌, ◌&&◌, Option, none, some, List, [], ◌∷◌, ◌++◌, String, ℤ, pos,
  negsuc, leb, if◌then◌else◌, ◌==◌, nat_eq, string_eq, length, get_elem?, any, keep_if,
}
use fado.Text.{join}
use fado.Protocol.{PendingRecord}
use fado.Store.{Store, load, selection_info, cancel_info, set_selected_idxs, select_many}
use fado.Store.Files.{Fault}
use fado.Store.Listing.{is_some}

insert_int : ℕ → List ℕ → List ℕ
insert_int x [] = x ∷ []
insert_int x (y ∷ ys) = let rest = insert_int x ys in if leb x y then x ∷ y ∷ ys else y ∷ rest

-- sort.Ints.
sort_ints : List ℕ → List ℕ
sort_ints [] = []
sort_ints (x ∷ xs) = insert_int x (sort_ints xs)

abbrev pub ticked : ℕ → List ℕ → Bool
ticked i set = any (λ k. k == i) set

unfoldable pub toggle_idx : List ℕ → ℕ → List ℕ
unfolding sort_ints insert_int
toggle_idx set idx =
    let out = keep_if (λ i. not (i == idx)) set in
    sort_ints (if ticked idx set then out else out ++ idx ∷ [])

-- The options at the indices that are in range, and those indices.
unfoldable pub labels_of : List String → List ℕ → List String × List ℕ
labels_of options [] = ([], [])
labels_of options (i ∷ is) =
    let (labels, valid) = labels_of options is in
    elim (get_elem? options i) [ some label ↦ (label ∷ labels, i ∷ valid) | none ↦ (labels, valid) ]

module _ (fault : Fault) (now : ℕ) (rid : String) where
  unfoldable pub toggle_ask : ℤ → Store → Store
  toggle_ask idx s = elim (load rid s) [
    | none ↦ s
    | some rec ↦
        if not (rec.kind == "ask") || not rec.multi_select
        then s
        else if is_some (selection_info rid s) || is_some (cancel_info rid s)
        then s
        else elim idx [
          | negsuc n ↦ s
          | pos i ↦
              if leb (length rec.options) i
              then s
              else (set_selected_idxs fault now rid (toggle_idx rec.selected_idxs i) s).0
        ]
  ]

  unfoldable pub submit_ask : String → Store → Store
  unfolding labels_of
  submit_ask by s = elim (load rid s) [
    | none ↦ s
    | some rec ↦
        if not (rec.kind == "ask") || not rec.multi_select
        then s
        else let (labels, valid) = labels_of rec.options rec.selected_idxs in
          if length labels == 0
          then s
          else (select_many fault now rid (join ", " labels) valid by s).0
  ]
