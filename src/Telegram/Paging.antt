-- ===== src/Telegram/Paging.antt =====
-- go/internal/telegram/telegram.go: ListPages and PageSlice. A page number is one that a caller has
-- clamped, so its product with the page size is no overflow.
pub mod Cover
use fado.Base.{
  ℕ, zero, suc, ◌+◌, ◌-◌, ◌*◌, ◌/◌, List, [], ◌∷◌, String, ℤ, pos, negsuc, leb, ltb, if◌then◌else◌,
  ◌==◌, nat_eq, length, take, drop, concat,
}

abbrev pub paged_page_size : ℕ
paged_page_size = 5

unfoldable pub list_pages : ℕ → ℕ
list_pages n = if n == 0 then 1 else (n + paged_page_size - 1) / paged_page_size

unfoldable pub page_slice : List String → ℤ → List String
page_slice lines (negsuc n) = []
page_slice lines (pos page) =
    let start = page * paged_page_size in
    if leb (length lines) start
    then []
    else let end =
        if ltb (length lines) (start + paged_page_size)
        then length lines
        else start + paged_page_size in
      take (end - start) (drop start lines)

-- The pages from one on.
unfoldable pub pages_from : List String → ℕ → ℕ → List (List String)
pages_from lines page zero = []
pages_from lines page (suc n) = page_slice lines (pos page) ∷ pages_from lines (suc page) n
