-- ===== src/Service/Runs.antt =====
-- go/internal/service/service.go: the state of a request that runs a command, the environment that
-- the command gets, and its identity in the default build (escalation_off.go).
pub mod Exec
pub mod Suspend
pub mod Approved
pub mod Requests
pub mod Starts
pub mod Checked
pub mod Verdicts
pub mod Granted
pub mod Permitted
pub mod Environment
pub mod Answered
pub mod Resumed
use fado.Base.{
  ℕ, ◌-◌, ◌%◌, ◌^◌, Bool, true, false, not, ◌||◌, ◌&&◌, Option, none, some, List, [], ◌∷◌, ◌++◌,
  String, ℤ, pos, negsuc, if◌then◌else◌, ◌==◌, string_eq, nat_eq, any, keep_if, map,
}
pub use fado.Config.{Conf}
use fado.Text.{has_prefix, append_text}
use fado.Protocol.{AuditEvent, zero_event}
use fado.Policy.{Policy, Exe}
use fado.Service.Decisions.{World, Env, append}
use fado.Service.Host.{Host, Spawn}
use fado.Service.Pins.Entry.{safe_path}

pub record Service : Type 0 where
  pub conf : Conf
  pub policy : Policy
  pub exe : Exe
  -- the SHA-256 of a text's bytes, in hex
  pub hash_text : String → String

pub record RunRequest : Type 0 where
  pub argv : List String
  pub cwd : String
  pub env : List (String × String)
  pub detach : Bool

pub record RunResult : Type 0 where
  pub status : String
  pub id : String
  pub exit : ℤ
  pub output : String
  pub reason : String

abbrev pub denied : String → RunResult
denied reason = record { status = "denied"; id = ""; exit = pos 0; output = ""; reason = reason }

abbrev pub allowed : ℤ → String → RunResult
allowed exit output = record {
  status = "allowed";
  id = "";
  exit = exit;
  output = output;
  reason = "";
}

-- The daemon's state, the process groups that it stopped and the commands that it started, the last
-- ones first.
pub record Machine : Type 0 where
  pub world : World
  pub stopped : List ℤ
  pub spawned : List Spawn

abbrev pub audit : Host → AuditEvent → Machine → Machine
audit os ev m = record m { world = append os.env ev m.world }

abbrev deny_prefixes : List String
deny_prefixes =
    "LD_" ∷ "GLIBC_" ∷ "GCONV_" ∷ "DYLD_" ∷ "IFS" ∷ "BASH_FUNC_" ∷ "BASHOPTS" ∷ "SHELLOPTS"
    ∷ "HOSTALIASES" ∷ "PYTHON" ∷ "PERL" ∷ "RUBYOPT" ∷ "NODE_" ∷ "BASH_ENV" ∷ "ENV=" ∷ "CDPATH=" ∷ []

-- envDeny matches the name with "=" after it.
unfoldable pub env_denied : String → Bool
env_denied k = any (λ p. has_prefix (append_text k "=") p) deny_prefixes

unfoldable pub env_kept : Policy → String → Bool
unfolding env_denied
env_kept p k =
    any (λ w. w == k) ("TERM" ∷ "LANG" ∷ "LC_ALL" ∷ "LC_MESSAGES" ∷ "TZ" ∷ p.env_keep)
    && not (env_denied k)

-- The map `env` is a list with each name once, and so is the result.
unfoldable pub scrub_env : Policy → List (String × String) → List (String × String) × List String
scrub_env p env = (
  ("PATH", safe_path) ∷ keep_if (λ e. env_kept p e.0 && not (e.0 == "PATH")) env,
  map (λ e. e.0) (keep_if (λ e. not (env_kept p e.0)) env),
)

-- `uint32(n)`.
unfoldable pub to_uint32 : ℤ → ℕ
to_uint32 (pos n) = n % 2 ^ 32
to_uint32 (negsuc n) = 2 ^ 32 - 1 - n % 2 ^ 32

pub data Target : Type 0 where
  uid : ℕ → Target
  bad_user : String → Target

unfoldable pub target_uid : Policy → Host → Target
unfolding to_uint32
target_uid p os =
    if p.target == ""
    then uid (if os.euid == 0 then 0 else os.env.uid)
    else elim (os.atoi p.target) [
      | some n ↦ uid (to_uint32 n)
      | none ↦ elim (os.lookup_uid p.target) [
        | none ↦ bad_user (os.lookup_error p.target)
        | some text ↦ uid (elim (os.atoi text) [ none ↦ 0 | some n ↦ to_uint32 n ])
      ]
    ]

-- The user to run as, and the refusal, if there is one.
unfoldable pub exec_identity :
    Policy → Host → List String → String → Machine → Machine × (ℕ × Option String)
unfolding target_uid
exec_identity p os argv cwd m = elim (target_uid p os) [
  | bad_user err ↦ (m, (os.euid, some (append_text "2fadod: bad target_user: " err)))
  | uid target ↦
      if target == 0 || not (target == os.euid)
      then (
        audit os
            (record zero_event {
              ev = "escalation_disabled";
              uid = os.euid;
              argv = argv;
              cwd = cwd;
              as_uid = target;
            })
            m,
        (
          os.euid,
          some
              "2fadod: refusing execution as another user (escalation is not in this release; runs as the daemon user only)",
        ),
      )
      else (m, (os.euid, none))
]
