-- ===== src/Tests/Configs.antt =====
-- The configuration at concrete environments, files and directories.
use fado.Base.{
  ℕ, refl, none, some, [], ◌∷◌, true, false, pos, List, String, ◌≡◌, ◌==◌, if◌then◌else◌, string_eq,
}
use fado.Text.{append_text}
use fado.Config.{OsEnv, Conf, load_conf, loose_int, parse_positive_int, approver_set}
use fado.Config.Anchors.{permissive, validate_anchor_dir, discover_from, default_socket_path}

abbrev plain : OsEnv
plain = record {
  getenv = λ k. if k == "TWOFADO_TIMEOUT" then "45" else "";
  to_lower = λ s. s;
  lines = "# pages" ∷ " CHAT_ID = \"77\" " ∷ "APPROVERS=5, 6,,__x" ∷ "EXEC_TIMEOUT=0" ∷ [];
  user = record { bot_token = ""; chat_id = ""; approvers = []; notification_target = "paseo" };
  home = "/h";
  path_join = λ a b. append_text a (append_text "/" b);
}

loaded : load_conf plain "/k" "/s" ≡ record {
  bot_token = "";
  approvers = "5" ∷ "6" ∷ [];
  chat_id = "77";
  socket = "/k";
  state_dir = "/s";
  policy = "/etc/2fado/policy.json";
  timeout = 45;
  dry_run = false;
  confirm_all = false;
  pager = "";
  notification_target = "paseo";
  exec_timeout_secs = pos 120;
  max_output_bytes = pos 262144;
  max_telegram_body_bytes = pos 1048576;
  allow_root_exec = false;
}
unfolding load_conf fado.Config.get_env_with_fallback fado.Config.natural fado.Config.positive
    fado.Text.trim_space fado.Config.split fado.Base.Int.signed
loaded = refl

minutes : loose_int "5m" ≡ pos 111
unfolding loose_int fado.Base.Int.signed
minutes = refl

no_minutes : parse_positive_int "5m" ≡ pos 0
unfolding parse_positive_int
no_minutes = refl

open_to_all :
    validate_anchor_dir 900
      (some (record { is_link = false; is_dir = true; mode = 511; owner = some 900 }))
    ≡ some permissive
unfolding validate_anchor_dir
open_to_all = refl

second_lives : discover_from (λ p. p == "/b") ("/a" ∷ "/b" ∷ []) ≡ some "/b"
unfolding discover_from
second_lives = refl

fallback_socket : default_socket_path plain ≡ "/tmp/2fado.sock"
unfolding default_socket_path fado.Config.get_env_with_fallback
fallback_socket = refl
