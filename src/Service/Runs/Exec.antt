-- ===== src/Service/Runs/Exec.antt =====
-- go/internal/service/service.go and fdpin.go: starting a command in the default build, plain or by
-- its verified file. A dry run starts nothing.
use fado.Base.{
  ℕ, ◌&&◌, Option, none, some, List, [], ◌∷◌, String, ℤ, pos, if◌then◌else◌, string_eq, nat_eq,
}
use fado.Text.{append_text, join}
use fado.Protocol.{FdPin}
use fado.Store.{set_auth_url}
use fado.Store.Listing.{is_some}
use fado.Service.Output.{new_capped_writer, write_all, captured, cap_bytes, exec_timeout}
use fado.Service.Host.{Host, Spawn, Outcome, exited, broken}
use fado.Service.Pins.Entry.{open_verified, pinned_cmd}
use fado.Service.Runs.{Conf, Service, Machine, exec_identity}

-- The exit code, the output and the user that ran it.
pub record Report : Type 0 where
  pub code : ℤ
  pub out : String
  pub as_uid : ℕ

unfoldable pub report_of : Conf → Host → ℕ → Outcome → Report
report_of conf os uid o =
    let text =
      os.text_of
        (captured (write_all o.writes (new_capped_writer (cap_bytes conf.max_output_bytes)))) in
    if o.timed_out && is_some (exec_timeout conf.exec_timeout_secs)
    then record {
      code = pos 124;
      out = append_text text "\n2fadod: execution timeout";
      as_uid = uid;
    }
    else elim o.failure [
      | none ↦ record { code = pos 0; out = text; as_uid = uid }
      | some failure ↦ elim failure [
        | exited code ↦ record { code = code; out = text; as_uid = uid }
        | broken err ↦ record { code = pos 1; out = append_text text err; as_uid = uid }
      ]
    ]

-- A command runs to its end. The scanner reports its first challenge link for `rid`; with no `rid`
-- nobody listens.
unfoldable pub run_cmd_bounded :
    Conf → Host → Option String → Spawn → ℕ → Machine → Machine × Report
unfolding report_of
run_cmd_bounded conf os listener cmd uid m =
    let o = os.exec cmd in
    let m1 = record m { spawned = cmd ∷ m.spawned } in
    (
      elim listener [
        | none ↦ m1
        | some rid ↦ elim o.auth_url [
          | none ↦ m1
          | some url ↦ record m1 {
            world = record m1.world {
              store = set_auth_url (os.env.fault 9) os.env.now rid url m1.world.store;
            };
          }
        ]
      ],
      report_of conf os uid o,
    )

unfoldable pub plain_cmd : String → List String → String → List (String × String) → Spawn
plain_cmd name args cwd env = record { name = name; args = args; dir = cwd; env = env; fd = none }

abbrev pub dry_report : Host → List String → Report
dry_report os argv = record {
  code = pos 0;
  out = append_text "would have run: " (join " " argv);
  as_uid = os.euid;
}

abbrev pub refused_report : ℕ → String → Report
refused_report uid msg = record { code = pos 1; out = msg; as_uid = uid }

module _ (svc : Service) (os : Host) where
  -- `none` is the panic of `argv[0]` on an empty argv.
  unfoldable pub execute :
      List String → String → List (String × String) → Machine → Machine × Option Report
  unfolding plain_cmd
  execute argv cwd env m =
      if svc.conf.dry_run
      then (m, some (dry_report os argv))
      else let (m1, (uid, refusal)) = exec_identity svc.policy os argv cwd m in
        elim refusal [
          | some msg ↦ (m1, some (refused_report uid msg))
          | none ↦ elim argv [
            | [] ↦ (m1, none)
            | name ∷ args ↦
                let (m2, report) =
                  run_cmd_bounded svc.conf os none (plain_cmd name args cwd env) uid m1 in
                (m2, some report)
          ]
        ]

  -- `name ∷ args` is the argv.
  unfoldable pub run_pinned :
      String
      → String
      → List String
      → String
      → List (String × String)
      → Option FdPin
      → Machine
      → Machine × Report
  unfolding plain_cmd
  run_pinned rid name args cwd env pin m =
      if svc.conf.dry_run
      then (m, dry_report os (name ∷ args))
      else let (m1, (uid, refusal)) = exec_identity svc.policy os (name ∷ args) cwd m in
        elim refusal [
          | some msg ↦ (m1, refused_report uid msg)
          | none ↦ elim pin [
            | none ↦ run_cmd_bounded svc.conf os (some rid) (plain_cmd name args cwd env) uid m1
            | some p ↦ elim (open_verified os p) [
              | some drift ↦ (m1, refused_report uid (append_text "fd-drift: " drift.reason))
              | none ↦
                  run_cmd_bounded svc.conf os (some rid) (pinned_cmd os (name ∷ args) cwd env p) uid
                    m1
            ]
          ]
        ]
