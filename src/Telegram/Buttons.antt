-- ===== src/Telegram/Buttons.antt =====
-- go/internal/telegram/telegram.go: splitVerdict, which reads the data of a button that is pressed.
-- `atoi` is strconv.Atoi.
use Prim.Native.Char.{code}
use Prim.Native.String.{slice, find}
use fado.Base.{
  ℕ, ◌+◌, not, Option, none, some, List, [], ◌∷◌, String, ℤ, pos, negsuc, if◌then◌else◌, ◌==◌, ◌||◌,
  nat_eq, string_eq,
}
use fado.Text.{trim_space, has_prefix, contains, trim_prefix, len}
use fado.Config.{split}

-- What is asked for, the petition, and the indices.
pub record Pressed : Type 0 where
  pub kind : String
  pub rid : String
  pub idxs : List ℕ

-- What stands before and behind the last colon, if there is one.
unfoldable pub last_colon : String → Option (String × String)
last_colon String.[] = none
last_colon (String.◌∷◌ c s) = elim (last_colon s) [
  | some (before, behind) ↦ some (String.◌∷◌ c before, behind)
  | none ↦ if code c == 58 then some ("", s) else none
]

module _ (atoi : String → Option ℤ) where
  -- A number that is not negative.
  unfoldable pub index_of : String → Option ℕ
  index_of text = elim (atoi text) [
    | none ↦ none
    | some n ↦ elim n [ pos i ↦ some i | negsuc i ↦ none ]
  ]

  unfoldable pub indices : List String → Option (List ℕ)
  unfolding index_of
  indices [] = some []
  indices (p ∷ ps) = elim (index_of (trim_space p)) [
    | none ↦ none
    | some i ↦ elim (indices ps) [ none ↦ none | some is ↦ some (i ∷ is) ]
  ]

  unfoldable pub one_index : String → String → String → Option Pressed
  unfolding index_of
  one_index kind rid text = elim (index_of text) [
    | none ↦ none
    | some i ↦ some (record { kind = kind; rid = rid; idxs = i ∷ [] })
  ]

  -- The data of a question's button, behind "ask:".
  unfoldable pub split_ask : String → Option Pressed
  unfolding one_index indices
  split_ask rest =
      let sep = find rest ":" in
      if not (contains rest ":") || sep == 0
      then none
      else let rid = slice rest 0 sep in
        let tail = slice rest (sep + 1) (len rest) in
        if has_prefix tail "t:"
        then one_index "asktoggle" rid (trim_prefix tail "t:")
        else if has_prefix tail "s:"
        then one_index "asksubmit" rid (trim_prefix tail "s:")
        else elim (indices (split 44 tail)) [
          | none ↦ none
          | some idxs ↦ some (record { kind = "ask"; rid = rid; idxs = idxs })
        ]

  unfoldable pub split_page : String → Option Pressed
  unfolding one_index last_colon
  split_page rest = elim (last_colon rest) [
    | none ↦ none
    | some (rid, text) ↦ if rid == "" || text == "" then none else one_index "page" rid text
  ]

  unfoldable pub split_verdict : String → Option Pressed
  unfolding split_ask split_page
  split_verdict cb =
      if has_prefix cb "ask:"
      then split_ask (trim_prefix cb "ask:")
      else if has_prefix cb "page:"
      then split_page (trim_prefix cb "page:")
      else if has_prefix cb "approve:"
      then some (record { kind = "approve"; rid = trim_prefix cb "approve:"; idxs = [] })
      else if has_prefix cb "deny:"
      then some (record { kind = "deny"; rid = trim_prefix cb "deny:"; idxs = [] })
      else if has_prefix cb "ack:"
      then some (record { kind = "ack"; rid = trim_prefix cb "ack:"; idxs = [] })
      else none
