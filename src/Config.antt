-- ===== src/Config.antt =====
-- go/internal/config/config.go: the configuration that the daemon starts with. `OsEnv` is what the
-- operating system answers: the environment, the lines of the configuration file (none where it cannot
-- be opened), the user's file, and path/filepath.
pub mod Anchors
use Prim.Native.Char.{code}
use Prim.Native.String.{slice, find}
use fado.Base.{
  ℕ, ◌+◌, ◌-◌, ◌*◌, ◌%◌, ◌^◌, Bool, true, false, not, ◌||◌, ◌&&◌, Option, none, some, List, [], ◌∷◌,
  ◌++◌, map, String, ℤ, pos, negsuc, ltb, leb, lt_int, signed, if◌then◌else◌, ◌==◌, string_eq,
  nat_eq, keep_if, length,
}
use fado.Text.{trim_space, has_prefix, contains, append_text, len}

pub record UserConfig : Type 0 where
  pub bot_token : String
  pub chat_id : String
  pub approvers : List String
  pub notification_target : String

pub record OsEnv : Type 0 where
  pub getenv : String → String
  pub to_lower : String → String
  pub lines : List String
  pub user : UserConfig
  pub home : String
  pub path_join : String → String → String

pub record Conf : Type 0 where
  pub bot_token : String
  pub approvers : List String
  pub chat_id : String
  pub socket : String
  pub state_dir : String
  pub policy : String
  pub timeout : ℕ
  pub dry_run : Bool
  pub confirm_all : Bool
  pub pager : String
  pub notification_target : String
  pub allow_root_exec : Bool
  pub exec_timeout_secs : ℤ
  pub max_output_bytes : ℤ
  pub max_telegram_body_bytes : ℤ

-- strings.Split at a separator of one character, with its code.
until : ℕ → String → String
until k String.[] = ""
until k (String.◌∷◌ c s) = let rest = until k s in if code c == k then "" else String.◌∷◌ c rest

after_each : ℕ → String → List String
after_each k String.[] = []
after_each k (String.◌∷◌ c s) =
    let rest = after_each k s in if code c == k then until k s ∷ rest else rest

unfoldable pub split : ℕ → String → List String
unfolding until after_each
split k s = until k s ∷ after_each k s

-- strings.Trim with the double quote, whose code is 34.
drop_quotes : String → String
drop_quotes String.[] = ""
drop_quotes (String.◌∷◌ c s) =
    let rest = drop_quotes s in if code c == 34 then rest else String.◌∷◌ c s

all_quotes : String → Bool
all_quotes String.[] = true
all_quotes (String.◌∷◌ c s) = code c == 34 && all_quotes s

cut_quotes : String → String
cut_quotes String.[] = ""
cut_quotes (String.◌∷◌ c s) =
    let rest = cut_quotes s in if all_quotes (String.◌∷◌ c s) then "" else String.◌∷◌ c rest

unfoldable pub unquote : String → String
unfolding drop_quotes cut_quotes all_quotes
unquote s = cut_quotes (drop_quotes s)

-- The name and the value of a line, if it has them.
unfoldable pub setting : String → Option (String × String)
unfolding unquote
setting raw =
    let line = trim_space raw in
    if line == "" || has_prefix line "#"
    then none
    else if not (contains line "=")
    then none
    else let at = find line "=" in
      some (trim_space (slice line 0 at), unquote (trim_space (slice line (at + 1) (len line))))

-- The map that the lines fill: of two values of a name, the last.
unfoldable pub value_in : String → List String → Option String
unfolding setting
value_in k [] = none
value_in k (line ∷ lines) = elim (value_in k lines) [
  | some v ↦ some v
  | none ↦ elim (setting line) [ none ↦ none | some kv ↦ if kv.0 == k then some kv.1 else none ]
]

-- The text "0" to "9" of each character, folded in an int64 that wraps around.
add_char : ℕ → ℕ → ℕ
add_char u c = (u * 10 + (2 ^ 64 - 48 + c)) % 2 ^ 64

fold_chars : ℕ → String → ℕ
fold_chars u String.[] = u
fold_chars u (String.◌∷◌ c s) = fold_chars (add_char u (code c)) s

all_digits : String → Bool
all_digits String.[] = true
all_digits (String.◌∷◌ c s) = (leb 48 (code c) && leb (code c) 57) && all_digits s

-- The sum of a text's characters, digits or not, as Load reads TIMEOUT.
unfoldable pub loose_int : String → ℤ
unfolding fold_chars add_char
loose_int s = signed (fold_chars 0 s)

unfoldable pub parse_positive_int : String → ℤ
unfolding all_digits loose_int
parse_positive_int raw = if all_digits raw then loose_int raw else pos 0

module _ (os : OsEnv) where
  unfoldable pub get_env_with_fallback : String → List String → String
  get_env_with_fallback preferred [] = os.getenv preferred
  get_env_with_fallback preferred (fb ∷ fallbacks) =
      let rest = get_env_with_fallback fb fallbacks in
      if os.getenv preferred == "" then rest else os.getenv preferred

  unfoldable pub normalize_notification_target : String → String
  normalize_notification_target raw =
      let word = os.to_lower (trim_space raw) in
      if word == "telegram" || word == "paseo" || word == "both" then word else "both"

  unfoldable pub parse_allow_root : String → Bool
  parse_allow_root raw =
      let word = os.to_lower (trim_space raw) in word == "1" || word == "true" || word == "yes"

  -- The closure `get` of Load.
  unfoldable pub get : String → String → List String → String
  unfolding value_in
  get k default extra =
      let v = get_env_with_fallback (append_text "TWOFADO_" k) (append_text "FADO_" k ∷ extra) in
      if not (v == "") then v else elim (value_in k os.lines) [ none ↦ default | some w ↦ w ]

  -- A number above 0, or the default.
  unfoldable pub positive : ℤ → ℤ → ℤ
  positive default n = if lt_int (pos 0) n then n else default

  unfoldable pub natural : ℕ → ℤ → ℕ
  natural default (pos n) = if n == 0 then default else n
  natural default (negsuc n) = default

  -- The two paths are those of anchors.go.
  unfoldable pub load_conf : String → String → Conf
  unfolding get normalize_notification_target parse_positive_int loose_int
  load_conf socket state_dir =
      let token = get "BOT_TOKEN" "" ("BOT_TOKEN" ∷ []) in
      let chat = get "CHAT_ID" "" ("CHAT_ID" ∷ []) in
      let target = get "NOTIFICATION_TARGET" "" [] in
      let approvers =
        keep_if (λ a. not (a == "") && not (has_prefix a "__"))
          (map trim_space (split 44 (get "APPROVERS" "" ("APPROVERS" ∷ [])))) in
      let timeout = get "TIMEOUT" "" [] in
      record {
        bot_token =
            if (token == "" || has_prefix token "__") && not (os.user.bot_token == "")
            then os.user.bot_token
            else token;
        approvers = if length approvers == 0 then os.user.approvers else approvers;
        chat_id = if chat == "" then os.user.chat_id else chat;
        socket = get "SOCKET" socket [];
        state_dir = get "STATE_DIR" state_dir [];
        policy = get "POLICY" "/etc/2fado/policy.json" [];
        timeout = natural 300 (loose_int timeout);
        dry_run = get "DRY_RUN" "" [] == "true";
        confirm_all = get "CONFIRM_ALL" "" [] == "true";
        pager = get "PAGER" "" [];
        notification_target =
            normalize_notification_target
              (if target == "" then os.user.notification_target else target);
        allow_root_exec = false;
        exec_timeout_secs = positive (pos 120) (parse_positive_int (get "EXEC_TIMEOUT" "" []));
        max_output_bytes =
            positive (pos 262144) (parse_positive_int (get "MAX_OUTPUT_BYTES" "" []));
        max_telegram_body_bytes =
            positive (pos 1048576) (parse_positive_int (get "MAX_TELEGRAM_BODY_BYTES" "" []));
      }

-- The approvers, or the chat where there are none; a set as a list.
unfoldable pub approver_set : Conf → List String
approver_set c =
    let set = keep_if (λ a. not (a == "")) (map trim_space c.approvers) in
    if not (length set == 0)
    then set
    else let id = trim_space c.chat_id in if id == "" then [] else id ∷ []

unfoldable pub placeholder : Conf → Bool
placeholder c = c.pager == "stdout" || c.bot_token == "" || has_prefix c.bot_token "__"
