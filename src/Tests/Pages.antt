-- ===== src/Tests/Pages.antt =====
-- A list of seven lines on two cards, and the data of buttons.
use fado.Telegram.Buttons.{split_verdict}
use fado.Base.{Option, ◌==◌, string_eq, if◌then◌else◌, some, none, pos, minus_one, ℤ, String, ◌≡◌}
use fado.Base.{refl, [], ◌∷◌, ℕ, pos, negsuc, List, String, ◌≡◌, ◌≤◌, length, concat}
use fado.Telegram.Paging.{list_pages, page_slice, pages_from}
use fado.Telegram.Paging.Cover.{pages_cover}

abbrev seven : List String
seven = "a" ∷ "b" ∷ "c" ∷ "d" ∷ "e" ∷ "f" ∷ "g" ∷ []

two_pages : list_pages 7 ≡ 2
unfolding list_pages
two_pages = refl

one_page_empty : list_pages 0 ≡ 1
unfolding list_pages
one_page_empty = refl

second_page : page_slice seven (pos 1) ≡ "f" ∷ "g" ∷ []
unfolding page_slice
second_page = refl

no_page_before : page_slice seven (negsuc 0) ≡ []
unfolding page_slice
no_page_before = refl

pages_cover_example :
    (concat (pages_from seven 0 (list_pages (length seven))) ≡ seven)
    × ((page : ℕ) → length (page_slice seven (pos page)) ≤ 5)
pages_cover_example = pages_cover seven

abbrev pub small_atoi : String → Option ℤ
small_atoi s = if s == "2" then some (pos 2) else if s == "-1" then some minus_one else none

toggles_two :
    split_verdict small_atoi "ask:ab12:t:2"
    ≡ some (record { kind = "asktoggle"; rid = "ab12"; idxs = 2 ∷ [] })
unfolding split_verdict
toggles_two = refl

turns_page :
    split_verdict small_atoi "page:ab12:2"
    ≡ some (record { kind = "page"; rid = "ab12"; idxs = 2 ∷ [] })
unfolding split_verdict
turns_page = refl

no_negative_page : split_verdict small_atoi "page:ab12:-1" ≡ none
unfolding split_verdict
no_negative_page = refl
