-- ===== src/Service/Bot/Restart.antt =====
-- go/internal/service/service.go and config/config.go: a daemon that starts with the file that
-- TelegramSetConfig saved.
use fado.Base.{
  nat_eq, ℕ, ◌≡◌, ◌≢◌, refl, ap, sym, subst, ◌∙◌, ◌⊎◌, inl, inr, true, false, not, ◌||◌, Option,
  none, some, List, [], ◌∷◌, String, ◌==◌, string_eq, eq_iff, Bool-cases, arith, some_injective,
  length,
}
use fado.Text.{trim_space, append_text}
use fado.Config.{
  Conf, OsEnv, UserConfig, load_conf, normalize_notification_target, approver_set, get,
  get_env_with_fallback, split,
}
use fado.Service.Decisions.{Env}
use fado.Service.Bot.{
  Client, Bot, BotEnv, DynamicState, TelegramSetConfigRequest, install, new_state, app_set,
  target_of, notify_target, unset, not_blank,
}
use fado.Service.Bot.Requests.{telegram_set_config, user_config, token_of}
use fado.Service.Bot.Outcomes.{Refused, Installed, telegram_set_config_ends}

pub IsTarget : String → Type 0
IsTarget w = (w ≡ "telegram") ⊎ (w ≡ "paseo") ⊎ (w ≡ "both")

-- strings.ToLower leaves the three words as they are.
abbrev pub KeepsTargets : OsEnv → Type 0
KeepsTargets os =
    (os.to_lower "telegram" ≡ "telegram")
    × (os.to_lower "paseo" ≡ "paseo")
    × (os.to_lower "both" ≡ "both")

-- The system at the restart: no setting in the environment or in the daemon's file, and the user's file.
unfoldable pub bare : OsEnv → UserConfig → OsEnv
bare os user = record os { getenv = λ k. ""; lines = []; user = user }

word-IsTarget : (w : String) → (w == "telegram" || w == "paseo" || w == "both") ≡ true → IsTarget w
unfolding IsTarget
word-IsTarget w h = elim (Bool-cases (w == "telegram")) [
  | inl t ↦ inl ((eq_iff w "telegram").0 t)
  | inr nt ↦ elim (Bool-cases (w == "paseo")) [
    | inl p ↦ inr (inl ((eq_iff w "paseo").0 p))
    | inr np ↦ inr (inr ((eq_iff w "both").0 (ground (arith, nt, np))))
  ]
]

normalize-IsTarget : (os : OsEnv) (raw : String) → IsTarget (normalize_notification_target os raw)
unfolding normalize_notification_target IsTarget
normalize-IsTarget os raw =
    let w = os.to_lower (trim_space raw) in
    elim (Bool-cases (w == "telegram" || w == "paseo" || w == "both")) [
      | inl is ↦ rw (is, normalize_notification_target) (word-IsTarget w is)
      | inr none_of ↦ rw (none_of, normalize_notification_target) (inr (inr refl))
    ]

normalize-target :
    (os : OsEnv) (w : String)
    → KeepsTargets os
    → IsTarget w
    → normalize_notification_target os w ≡ w
unfolding normalize_notification_target IsTarget trim_space
normalize-target os w (t, p, b) (inl e) = rw (e, t) refl
normalize-target os w (t, p, b) (inr (inl e)) =
    subst (λ x. normalize_notification_target os x ≡ x) (sym e) (rw p refl)
normalize-target os w (t, p, b) (inr (inr e)) =
    subst (λ x. normalize_notification_target os x ≡ x) (sym e) (rw b refl)

notify_target-IsTarget :
    (os : OsEnv) (c : Conf) (st : Option DynamicState) → IsTarget (notify_target os c st)
unfolding notify_target
notify_target-IsTarget os c none = normalize-IsTarget os c.notification_target
notify_target-IsTarget os c (some st) = elim (Bool-cases (not (st.notify_target == ""))) [
  | inl live ↦ rw (live, notify_target) (normalize-IsTarget os st.notify_target)
  | inr empty ↦ rw (empty, notify_target) (normalize-IsTarget os c.notification_target)
]

pub target_of-IsTarget :
    (os : OsEnv) (c : Conf) (st : Option DynamicState) (raw target : String)
    → target_of os c st raw ≡ some target
    → IsTarget target
unfolding target_of notify_target IsTarget
target_of-IsTarget os c st raw target e =
    let w = os.to_lower (trim_space raw) in
    elim (Bool-cases (not_blank (trim_space raw))) [
      | inr blank ↦
          subst IsTarget (some_injective (ground (arith, blank, e)))
            (notify_target-IsTarget os c st)
      | inl asks ↦ elim (Bool-cases (w == "telegram" || w == "paseo" || w == "both")) [
        | inl known ↦
            subst IsTarget (some_injective (ground (arith, asks, known, e))) (word-IsTarget w known)
        | inr other ↦ absurd (ground (arith, asks, other, e))
      ]
    ]

-- The two states have the same token, chat, approvers, set of approvers and target.
pub SameBot : DynamicState → DynamicState → Type 0
SameBot s t =
    (s.bot_token ≡ t.bot_token)
    × (s.chat_id ≡ t.chat_id)
    × (s.approvers ≡ t.approvers)
    × (s.approver_set ≡ t.approver_set)
    × (s.notify_target ≡ t.notify_target)

module _ (os : OsEnv) (user : UserConfig) where
  no_env : (k : String) (ks : List String) → get_env_with_fallback (bare os user) k ks ≡ ""
  unfolding get_env_with_fallback bare
  no_env k [] = refl
  no_env k (f ∷ ks) = no_env f ks

  no_setting : (k : String) (ks : List String) → get (bare os user) k "" ks ≡ ""
  unfolding get bare
  no_setting k ks = rw (no_env (append_text "TWOFADO_" k) (append_text "FADO_" k ∷ ks)) refl

  bare_token :
      (socket dir : String) → (load_conf (bare os user) socket dir).bot_token ≡ user.bot_token
  unfolding load_conf bare
  bare_token socket dir = elim (Bool-cases (user.bot_token == "")) [
    | inl e ↦
        rw (no_setting "BOT_TOKEN" ("BOT_TOKEN" ∷ []), e) (sym ((eq_iff user.bot_token "").0 e))
    | inr e ↦ rw (no_setting "BOT_TOKEN" ("BOT_TOKEN" ∷ []), e) refl
  ]

  bare_chat : (socket dir : String) → (load_conf (bare os user) socket dir).chat_id ≡ user.chat_id
  unfolding load_conf bare
  bare_chat socket dir = rw (no_setting "CHAT_ID" ("CHAT_ID" ∷ [])) refl

  bare_approvers :
      (socket dir : String) → (load_conf (bare os user) socket dir).approvers ≡ user.approvers
  unfolding load_conf bare split trim_space
  bare_approvers socket dir = rw (no_setting "APPROVERS" ("APPROVERS" ∷ [])) refl

  bare_target :
      (socket dir : String)
      → (load_conf (bare os user) socket dir).notification_target
        ≡ normalize_notification_target os user.notification_target
  unfolding load_conf bare normalize_notification_target
  bare_target socket dir = rw (no_setting "NOTIFICATION_TARGET" []) refl

set_of :
    (c : Conf) (approvers : List String)
    → c.approvers ≡ approvers
    → length (app_set approvers) ≢ 0
    → approver_set c ≡ app_set approvers
unfolding approver_set app_set not_blank
set_of c approvers e some_set =
    let here : length (app_set c.approvers) ≢ 0 =
      subst (λ l. length (app_set l) ≢ 0) (sym e) some_set in
    let full : (length (app_set c.approvers) == 0) ≡ false = ground (arith, here) in
    rw full (ap app_set e)

-- The state is the one that the file says.
AsSaved : UserConfig → DynamicState → Type 0
AsSaved user s =
    (s.bot_token ≡ user.bot_token)
    × (s.chat_id ≡ user.chat_id)
    × (s.approvers ≡ user.approvers)
    × (s.approver_set ≡ app_set user.approvers)
    × (s.notify_target ≡ user.notification_target)

install-AsSaved :
    (user : UserConfig) (client : Client) (name : String) (st : DynamicState) (b : Bot)
    → ((install user client name st b).user_file ≡ some user)
      × (after : DynamicState) × ((install user client name st b).state ≡ some after)
      × AsSaved user after
unfolding install AsSaved
install-AsSaved user client name st b = elim (Bool-cases (unset user.bot_token)) [
  | inl u ↦ rw (u, install) (refl, _, refl, (refl, refl, refl, refl, refl))
  | inr u ↦ rw (u, install) (refl, _, refl, (refl, refl, refl, refl, refl))
]

saved-SameBot :
    (os : OsEnv) (socket dir : String) (user : UserConfig) (s : DynamicState)
    → KeepsTargets os
    → IsTarget user.notification_target
    → AsSaved user s
    → length s.approver_set ≢ 0
    → SameBot s (new_state os (load_conf (bare os user) socket dir))
unfolding SameBot AsSaved new_state
saved-SameBot os socket dir user s keeps is (token, chat, list, set, target) some_set =
    let start = load_conf (bare os user) socket dir in
    let same_list = bare_approvers os user socket dir in
    let same_target = normalize-target os user.notification_target keeps is in
    let full : length (app_set user.approvers) ≢ 0 = subst (λ l. length l ≢ 0) set some_set in
    (
      token ∙ sym (bare_token os user socket dir),
      chat ∙ sym (bare_chat os user socket dir),
      list ∙ sym same_list,
      set ∙ sym (set_of start user.approvers same_list full),
      target
          ∙ sym (
              ap (normalize_notification_target os) (bare_target os user socket dir ∙ same_target)
              ∙ same_target),
    )

-- After a TelegramSetConfig that succeeds with an approver that is not blank, a daemon that starts with
-- the file that it saved, no setting elsewhere, and lower-casing that leaves the three targets' words as
-- they are, has the token, the chat, the approvers and the target of the running one.
pub telegram_set_config_restarts :
    (os : OsEnv) (c : Conf) (first : Client) (env : Env) (net : BotEnv)
    (req : TelegramSetConfigRequest) (caller : ℕ) (b : Bot) (socket dir : String)
    (after : DynamicState)
    → KeepsTargets os
    → (telegram_set_config os c first env net req caller b).1.success ≡ true
    → (telegram_set_config os c first env net req caller b).0.state ≡ some after
    → length after.approver_set ≢ 0
    → (user : UserConfig) × ((telegram_set_config os c first env net req caller b).0.user_file
        ≡ some user)
      × SameBot after (new_state os (load_conf (bare os user) socket dir))
unfolding Refused Installed user_config
telegram_set_config_restarts os c first env net req caller b socket dir after keeps ok now
      some_set =
    elim (telegram_set_config_ends os c first env net req caller b) [
      | inl (failed, _, _, _) ↦ cc
      | inr (admin, st, e, installed) ↦
          let (target, t, client, met, (saved, end, _)) = installed in
          let user =
            user_config os c first env net req (token_of os c first env net req.bot_token st)
              target in
          let name = (telegram_set_config os c first env net req caller b).1.bot_username in
          let (file, s, state, as_saved) = install-AsSaved user client name st b in
          let same : s ≡ after =
            some_injective (sym state ∙ (ap (λ (x : Bot). x.state) (sym end) ∙ now)) in
          (
            user,
            ap (λ (x : Bot). x.user_file) end ∙ file,
            saved-SameBot os socket dir user after keeps
                (target_of-IsTarget os c b.state req.notification_target target t)
                (subst (AsSaved user) same as_saved) some_set,
          )
    ]
