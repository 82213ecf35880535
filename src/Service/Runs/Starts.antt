-- ===== src/Service/Runs/Starts.antt =====
-- go/internal/service: which command a request starts, and on what grounds.
use fado.Base.{
  ℕ, ◌≡◌, ◌≢◌, ◌⊎◌, inl, inr, refl, false, Option, none, some, List, [], ◌∷◌, String, arith,
  Bool-cases, Option-cases, nat_eq, nat_beq_iff,
}
use fado.Protocol.{FdPin}
use fado.Policy.{Policy}
use fado.Service.Host.{Host, Spawn}
use fado.Service.Pins.Entry.{open_verified, pinned_cmd}
use fado.Service.Runs.{Service, Machine, Target, uid, bad_user, target_uid, exec_identity}
use fado.Service.Runs.Exec.{plain_cmd, run_cmd_bounded, run_pinned, execute}

-- From `m` to `n` no command starts, or one, of which `P` holds.
abbrev pub Starts : (Spawn → Type 0) → Machine → Machine → Type 0
Starts P m n = (n.spawned ≡ m.spawned) ⊎ ((cmd : Spawn) × (n.spawned ≡ cmd ∷ m.spawned) × P cmd)

pub Starts-map :
    {P Q : Spawn → Type 0} (m n : Machine)
    → ((cmd : Spawn) → P cmd → Q cmd)
    → Starts P m n
    → Starts Q m n
Starts-map m n f (inl e) = inl e
Starts-map m n f (inr (cmd, e, p)) = inr (cmd, e, f cmd p)

-- The daemon's own user is the target, and it is not root.
abbrev pub RunsAsSelf : Policy → Host → Type 0
RunsAsSelf p os = (target_uid p os ≡ uid os.euid) × (os.euid ≢ 0)

-- The command that is made of a program, its arguments and the pin of its file.
abbrev pub MadeOf :
    Host → String → List String → String → List (String × String) → Option FdPin → Spawn → Type 0
MadeOf os name args cwd env none cmd = cmd ≡ plain_cmd name args cwd env
MadeOf os name args cwd env (some p) cmd =
    (open_verified os p ≡ none) × (cmd ≡ pinned_cmd os (name ∷ args) cwd env p)

exec_identity-spawned :
    (p : Policy) (os : Host) (argv : List String) (cwd : String) (m : Machine)
    → (exec_identity p os argv cwd m).0.spawned ≡ m.spawned
unfolding exec_identity
exec_identity-spawned p os argv cwd m = ground arith

Target-cases : (t : Target) → ((n : ℕ) × (t ≡ uid n)) ⊎ ((err : String) × (t ≡ bad_user err))
Target-cases (uid n) = inl (n, refl)
Target-cases (bad_user err) = inr (err, refl)

exec_identity-RunsAsSelf :
    (p : Policy) (os : Host) (argv : List String) (cwd : String) (m : Machine)
    → (exec_identity p os argv cwd m).1.1 ≡ none
    → RunsAsSelf p os
unfolding exec_identity
exec_identity-RunsAsSelf p os argv cwd m h = elim (Target-cases (target_uid p os)) [
  | inr (err, e) ↦ absurd (ground (arith, e))
  | inl (n, e) ↦
      (ground (arith, e, nat_beq_iff n os.euid), λ z. ground (arith, e, nat_beq_iff n os.euid))
]

run_cmd_bounded-spawned :
    (svc : Service) (os : Host) (listener : Option String) (cmd : Spawn) (u : ℕ) (m : Machine)
    → (run_cmd_bounded svc.conf os listener cmd u m).0.spawned ≡ cmd ∷ m.spawned
unfolding run_cmd_bounded
run_cmd_bounded-spawned svc os listener cmd u m = ground arith

module _ (svc : Service) (os : Host) where
  -- The command is made of what was passed, the daemon's own user runs it, and this is no dry run.
  abbrev pub Pinned :
      String → List String → String → List (String × String) → Option FdPin → Spawn → Type 0
  Pinned name args cwd env pin cmd =
      MadeOf os name args cwd env pin cmd × RunsAsSelf svc.policy os × (svc.conf.dry_run ≡ false)

  pub run_pinned-Starts :
      (rid name : String) (args : List String) (cwd : String) (env : List (String × String))
      (pin : Option FdPin) (m : Machine)
      → Starts (Pinned name args cwd env pin) m (run_pinned svc os rid name args cwd env pin m).0
  unfolding run_pinned
  run_pinned-Starts rid name args cwd env none m =
      let id = exec_identity svc.policy os (name ∷ args) cwd m in
      let cmd = plain_cmd name args cwd env in
      let kept : id.0.spawned ≡ m.spawned =
        exec_identity-spawned svc.policy os (name ∷ args) cwd m in
      let ran = run_cmd_bounded-spawned svc os (some rid) cmd id.1.0 id.0 in
      elim (Bool-cases svc.conf.dry_run) [
        | inl dry ↦ inl (ground (arith, dry))
        | inr wet ↦ elim (Option-cases id.1.1) [
          | inr (msg, e) ↦ inl (ground (arith, wet, e, kept))
          | inl e ↦ inr (
            cmd,
            ground (arith, wet, e, kept, ran),
            (refl, exec_identity-RunsAsSelf svc.policy os (name ∷ args) cwd m e, wet),
          )
        ]
      ]
  run_pinned-Starts rid name args cwd env (some p) m =
      let id = exec_identity svc.policy os (name ∷ args) cwd m in
      let cmd = pinned_cmd os (name ∷ args) cwd env p in
      let kept : id.0.spawned ≡ m.spawned =
        exec_identity-spawned svc.policy os (name ∷ args) cwd m in
      let ran = run_cmd_bounded-spawned svc os (some rid) cmd id.1.0 id.0 in
      elim (Bool-cases svc.conf.dry_run) [
        | inl dry ↦ inl (ground (arith, dry))
        | inr wet ↦ elim (Option-cases id.1.1) [
          | inr (msg, e) ↦ inl (ground (arith, wet, e, kept))
          | inl e ↦ elim (Option-cases (open_verified os p)) [
            | inr (d, f) ↦ inl (ground (arith, wet, e, kept, f))
            | inl f ↦ inr (
              cmd,
              ground (arith, wet, e, kept, ran, f),
              ((f, refl), exec_identity-RunsAsSelf svc.policy os (name ∷ args) cwd m e, wet),
            )
          ]
        ]
      ]

  -- The command is the argv itself.
  abbrev pub Plainly : List String → String → List (String × String) → Spawn → Type 0
  Plainly argv cwd env cmd =
      (name : String) × (args : List String) × (argv ≡ name ∷ args)
      × (cmd ≡ plain_cmd name args cwd env)
      × RunsAsSelf svc.policy os
      × (svc.conf.dry_run ≡ false)

  pub execute-Starts :
      (argv : List String) (cwd : String) (env : List (String × String)) (m : Machine)
      → Starts (Plainly argv cwd env) m (execute svc os argv cwd env m).0
  unfolding execute
  execute-Starts [] cwd env m = inl (ground (arith, exec_identity-spawned svc.policy os [] cwd m))
  execute-Starts (name ∷ args) cwd env m =
      let id = exec_identity svc.policy os (name ∷ args) cwd m in
      let cmd = plain_cmd name args cwd env in
      let kept : id.0.spawned ≡ m.spawned =
        exec_identity-spawned svc.policy os (name ∷ args) cwd m in
      let ran = run_cmd_bounded-spawned svc os none cmd id.1.0 id.0 in
      elim (Bool-cases svc.conf.dry_run) [
        | inl dry ↦ inl (ground (arith, dry))
        | inr wet ↦ elim (Option-cases id.1.1) [
          | inr (msg, e) ↦ inl (ground (arith, wet, e, kept))
          | inl e ↦ inr (
            cmd,
            ground (arith, wet, e, kept, ran),
            (
              name,
              args,
              refl,
              refl,
              exec_identity-RunsAsSelf svc.policy os (name ∷ args) cwd m e,
              wet,
            ),
          )
        ]
      ]
