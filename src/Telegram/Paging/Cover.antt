-- ===== src/Telegram/Paging/Cover.antt =====
-- go/internal/telegram/telegram.go: the pages together are the list.
use fado.Base.{
  ℕ, zero, suc, ◌+◌, ◌-◌, ◌*◌, ◌≤◌, ◌<◌, ◌≡◌, ◌∙◌, sym, ap, refl, List, [], ◌∷◌, ◌++◌, String, pos,
  arith, length, take, drop, concat, take_all, length-drop, length-take,
}
use fado.Telegram.Paging.{list_pages, page_slice, pages_from}

module _ {ℓ} {A : Type ℓ} where
  take-empty : (n : ℕ) → take {A = A} n [] ≡ []
  take-empty zero = refl
  take-empty (suc n) = refl

  drop-empty : (n : ℕ) → drop {A = A} n [] ≡ []
  drop-empty zero = refl
  drop-empty (suc n) = refl

  take-add : (a b : ℕ) (xs : List A) → take (a + b) xs ≡ take a xs ++ take b (drop a xs)
  take-add zero b xs = ap (λ k. take k xs) (let e : 0 + b ≡ b = omega arith in e)
  take-add (suc a) b [] = take-empty (suc a + b) ∙ sym (take-empty b)
  take-add (suc a) b (x ∷ xs) =
      let e : suc a + b ≡ suc (a + b) = omega arith in
      ap (λ k. take k (x ∷ xs)) e ∙ ap (◌∷◌ x) (take-add a b xs)

  drop-add : (a b : ℕ) (xs : List A) → drop (a + b) xs ≡ drop b (drop a xs)
  drop-add zero b xs = ap (λ k. drop k xs) (let e : 0 + b ≡ b = omega arith in e)
  drop-add (suc a) b [] = drop-empty (suc a + b) ∙ sym (drop-empty b)
  drop-add (suc a) b (x ∷ xs) =
      let e : suc a + b ≡ suc (a + b) = omega arith in ap (λ k. drop k (x ∷ xs)) e ∙ drop-add a b xs

  drop_all : (n : ℕ) (xs : List A) → length xs ≤ n → drop n xs ≡ []
  drop_all zero [] h = refl
  drop_all zero (x ∷ xs) h = absurd (omega arith)
  drop_all (suc n) [] h = refl
  drop_all (suc n) (x ∷ xs) h = drop_all n xs (omega arith)

page_slice-take :
    (lines : List String) (page : ℕ) → page_slice lines (pos page) ≡ take 5 (drop (page * 5) lines)
unfolding page_slice
page_slice-take lines page =
    let rest = drop (page * 5) lines in
    let len : length rest ≡ length lines - page * 5 = length-drop (page * 5) lines in
    let past : length lines ≤ page * 5 → [] ≡ take 5 rest =
      λ le. rw (drop_all (page * 5) lines le) refl in
    let last : length lines < page * 5 + 5 → take (length lines - page * 5) rest ≡ take 5 rest =
      λ lt.
        take_all (length lines - page * 5) rest (omega (arith, len))
        ∙ sym (take_all 5 rest (omega (arith, len))) in
    let full : take (page * 5 + 5 - page * 5) rest ≡ take 5 rest =
      ap (λ k. take k rest) (let e : page * 5 + 5 - page * 5 ≡ 5 = omega arith in e) in
    ground (arith, past, last, full)

concat-pages_from :
    (lines : List String) (n page : ℕ)
    → concat (pages_from lines page n) ≡ take (n * 5) (drop (page * 5) lines)
unfolding pages_from
concat-pages_from lines zero page = refl
concat-pages_from lines (suc n) page =
    let rest = drop (page * 5) lines in
    let next : drop (suc page * 5) lines ≡ drop 5 rest =
      ap (λ k. drop k lines) (let e : suc page * 5 ≡ page * 5 + 5 = omega arith in e)
      ∙ drop-add (page * 5) 5 lines in
    let size : suc n * 5 ≡ 5 + n * 5 = omega arith in
    rw (page_slice-take lines page, concat-pages_from lines n (suc page), next, size)
      (sym (take-add 5 (n * 5) rest))

list_pages-enough : (n : ℕ) → n ≤ list_pages n * 5
unfolding list_pages
list_pages-enough n = ground arith

-- The pages that ListPages counts, one after the other, are the list, and each has at most five lines.
pub pages_cover :
    (lines : List String)
    → (concat (pages_from lines 0 (list_pages (length lines))) ≡ lines)
      × ((page : ℕ) → length (page_slice lines (pos page)) ≤ 5)
pages_cover lines = (
  concat-pages_from lines (list_pages (length lines)) 0
      ∙ take_all (list_pages (length lines) * 5) lines (list_pages-enough (length lines)),
  λ page. rw (page_slice-take lines page) (omega (arith, length-take 5 (drop (page * 5) lines))),
)
