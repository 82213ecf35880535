-- ===== src/Config/Anchors.antt =====
-- go/internal/config/anchors.go: where the socket, the state and the process id are, and the checks of
-- the directories that the daemon trusts.
use fado.Base.{
  ℕ, ◌/◌, ◌%◌, Bool, not, ◌||◌, Option, none, some, List, [], ◌∷◌, ◌++◌, String, if◌then◌else◌,
  ◌==◌, string_eq, nat_eq, any,
}
use fado.Config.{OsEnv, get_env_with_fallback}

-- os.Lstat: `mode` is the permission bits; the owner is `none` where the system has none.
pub record Entry : Type 0 where
  pub is_link : Bool
  pub is_dir : Bool
  pub mode : ℕ
  pub owner : Option ℕ

-- Why a directory is refused.
pub data AnchorFault : Type 0 where
  missing linked no_directory permissive foreign : AnchorFault

module _ (os : OsEnv) where
  unfoldable pub default_state_dir : String
  default_state_dir =
      if not (os.getenv "XDG_STATE_HOME" == "")
      then os.path_join (os.getenv "XDG_STATE_HOME") "2fado"
      else if not (os.home == "")
      then os.path_join (os.path_join (os.path_join os.home ".local") "state") "2fado"
      else "/var/lib/2fado"

  unfoldable pub run_dir : String
  run_dir = get_env_with_fallback os "TWOFADO_RUN_DIR" ("FADO_RUN_DIR" ∷ [])

  unfoldable pub default_socket_path : String
  unfolding run_dir
  default_socket_path =
      let given = get_env_with_fallback os "TWOFADO_SOCKET" ("FADO_SOCKET" ∷ []) in
      if not (given == "")
      then given
      else if not (run_dir == "")
      then os.path_join run_dir "2fado.sock"
      else if not (os.getenv "XDG_RUNTIME_DIR" == "")
      then os.path_join (os.path_join (os.getenv "XDG_RUNTIME_DIR") "2fado") "2fado.sock"
      else "/tmp/2fado.sock"

  unfoldable pub default_pid_file : String → String
  unfolding run_dir default_state_dir
  default_pid_file state_dir =
      let given = get_env_with_fallback os "TWOFADO_PID_FILE" ("FADO_PID_FILE" ∷ []) in
      if not (given == "")
      then given
      else if not (run_dir == "")
      then os.path_join run_dir "2fado.pid"
      else os.path_join (if state_dir == "" then default_state_dir else state_dir) "2fado.pid"

  -- The closure `add`: no text that is empty or there already.
  unfoldable pub add_candidate : String → List String → List String
  add_candidate p out = if p == "" || any (λ q. q == p) out then out else out ++ p ∷ []

  plugin_socket : String → String
  plugin_socket publisher =
      os.path_join os.home
        (os.path_join ".paseo/plugin-data" (os.path_join publisher "twofado/run/2fado.sock"))

  unfoldable pub socket_candidates : List String
  unfolding run_dir add_candidate plugin_socket
  socket_candidates =
      let given =
        add_candidate (get_env_with_fallback os "TWOFADO_SOCKET" ("FADO_SOCKET" ∷ [])) [] in
      let moved =
        if run_dir == "" then given else add_candidate (os.path_join run_dir "2fado.sock") given in
      let plugged =
        if os.home == ""
        then moved
        else add_candidate (plugin_socket "xpufx-org")
            (add_candidate (plugin_socket "xpufx") moved) in
      let xdg = os.getenv "XDG_RUNTIME_DIR" in
      add_candidate "/tmp/2fado.sock" (
        if xdg == ""
        then plugged
        else add_candidate (os.path_join (os.path_join xdg "2fado") "2fado.sock") plugged)

-- The first candidate that is live.
unfoldable pub discover_from : (String → Bool) → List String → Option String
discover_from probe_live [] = none
discover_from probe_live (p ∷ ps) =
    let rest = discover_from probe_live ps in if probe_live p then some p else rest

-- `mode & 0022 != 0`: the group's or the others' write bit is set.
abbrev writable_by_others : ℕ → Bool
writable_by_others mode = not (mode / 2 % 2 == 0) || not (mode / 16 % 2 == 0)

unfoldable pub validate_anchor_dir : ℕ → Option Entry → Option AnchorFault
validate_anchor_dir euid none = some missing
validate_anchor_dir euid (some e) =
    if e.is_link
    then some linked
    else if not e.is_dir
    then some no_directory
    else if writable_by_others e.mode
    then some permissive
    else elim e.owner [ none ↦ none | some uid ↦ if not (uid == euid) then some foreign else none ]

-- The state directory, then the socket's, of which less is asked.
unfoldable pub validate_anchors : ℕ → Option Entry → Option Entry → Option AnchorFault
unfolding validate_anchor_dir
validate_anchors euid state socket = elim (validate_anchor_dir euid state) [
  | some fault ↦ some fault
  | none ↦ elim socket [
    | none ↦ none
    | some e ↦ if e.is_link then some linked else elim e.owner [
      | none ↦ none
      | some uid ↦ if not (uid == euid) then some foreign else none
    ]
  ]
]
