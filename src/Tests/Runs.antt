-- ===== src/Tests/Runs.antt =====
-- A request that is asked for, approved and run, with its file sealed and its caller stopped.
use fado.Base.{
  ℕ, refl, none, some, [], ◌∷◌, true, false, pos, List, String, ◌==◌, string_eq, ◌≡◌, ◌≢◌, ℤ,
}
use fado.Policy.{Policy}
use fado.Policy.Rules.{load_defaults}
use fado.Store.{Store, load, verdict}
use fado.Store.Files.{works, no_files, present}
use fado.Store.Writes.{consumes}
use fado.Service.Pins.{git_drift}
use fado.Service.Pins.Entry.{open_verified}
use fado.Service.Pins.Seals.{first_drift}
use fado.Service.Waiting.{Round}
use fado.Service.Runs.{Conf, Service, RunRequest, RunResult, Machine, allowed, scrub_env}
use fado.Service.Runs.Requests.Confirm.{Hosts, replies, waits}
use fado.Service.Runs.Requests.{run, run_waiting}
use fado.Service.Runs.Starts.{Starts}
use fado.Service.Runs.Permitted.{Permitted, run-Starts}
use fado.Base.{◌⊎◌, ◌<◌, arith, ◌&&◌, not, lt_int, if◌then◌else◌}
use fado.Service.Pins.{check_git_drift, snapshot_git}
use fado.Service.Pins.Entry.{snapshot_entry, check_fd_drift, safe_path}
use fado.Service.Pins.Seals.{check_seal_drift}
use fado.Service.Pins.Frozen.{Copy, snapshot_seal, materialize_seal, distinct}
use fado.Service.Runs.{denied, env_kept, env_denied}
use fado.Service.Runs.Environment.{value_of, scrub_env-value_of}
use fado.Service.Runs.Answered.{run_answers}
use fado.Service.Runs.Resumed.{run_waiting_resumes}
use fado.Service.Runs.Suspend.{snapshot_suspend, same_int}
use fado.Service.Runs.Approved.{run_approved}
use fado.Service.Runs.Checked.{Approved, run_approved-Starts}
use fado.Service.Runs.Requests.Confirm.{deadline}
use fado.Tests.Policies.{host}
use fado.Tests.Machines.{quiet}
use fado.Tests.Pins.{filed_store}

abbrev conf : Conf
conf = record {
  bot_token = "";
  approvers = [];
  chat_id = "";
  socket = "/run/2fado.sock";
  state_dir = "/s";
  policy = "/etc/2fado/policy.json";
  timeout = 300;
  dry_run = false;
  confirm_all = false;
  pager = "";
  notification_target = "both";
  exec_timeout_secs = pos 0;
  max_output_bytes = pos 0;
  max_telegram_body_bytes = pos 1048576;
  allow_root_exec = false;
}

abbrev pub svc : Service
svc = record { conf = conf; policy = load_defaults; exe = host; hash_text = λ s. "d1" }

abbrev pub at : Hosts
at = record { made = quiet; decided = quiet; confirmed = quiet; started = quiet; returned = quiet }

abbrev build : RunRequest
build = record {
  argv = "make" ∷ "in.txt" ∷ [];
  cwd = "/w";
  env = ("TERM", "xterm") ∷ ("LD_PRELOAD", "x.so") ∷ [];
  detach = false;
}

abbrev fresh : Machine
fresh = record {
  world = record { store = record { pending = []; audit = []; offset = none }; resumed = [] };
  stopped = [];
  spawned = [];
}

abbrev yes : Round
yes = record {
  writes = (works, 70, consumes "q1" "approve" "bob") ∷ [];
  between = [];
  now = 70000000000;
  aborted = false;
}

runs_once : (run svc at build 900 (pos 50) (yes ∷ []) fresh).1 ≡ replies (allowed (pos 3) "ok")
unfolding fado.Text.trim_space fado.Policy.needs_confirm fado.Policy.tier fado.Store.save
    fado.Store.load fado.Store.verdict fado.Store.attach_pager fado.Store.consume
    fado.Store.append_event fado.Store.Files.create_excl fado.Store.Files.write_no_follow
    fado.Store.Files.files fado.Store.Files.put fado.Store.Writes.perform_all
    fado.Service.Decisions.append fado.Service.Waiting.await fado.Service.Pins.check_git_drift
    fado.Service.Pins.Entry.split_list fado.Service.Pins.Entry.path_of
    fado.Service.Pins.Entry.snapshot_entry fado.Service.Pins.Entry.open_verified
    fado.Service.Pins.Entry.check_fd_drift fado.Service.Pins.Seals.seal_candidates
    fado.Service.Pins.Seals.seal_blobs fado.Service.Pins.Seals.first_drift
    fado.Service.Pins.Seals.check_seal_drift fado.Service.Pins.Frozen.wanted
    fado.Service.Pins.Frozen.distinct fado.Service.Pins.Frozen.snapshot_seal
    fado.Service.Pins.Frozen.take_out fado.Service.Pins.Frozen.take_all_out
    fado.Service.Pins.Frozen.materialize_seal fado.Service.Runs.exec_identity
    fado.Service.Runs.Exec.run_cmd_bounded fado.Service.Runs.Exec.run_pinned
    fado.Service.Runs.Suspend.resolve_suspend_pgid fado.Service.Runs.Suspend.stop_pgid
    fado.Service.Runs.Suspend.snapshot_suspend fado.Service.Runs.Approved.drifts
    fado.Service.Runs.Approved.start fado.Service.Runs.Approved.check_and_start
    fado.Service.Runs.Approved.sealed_files fado.Service.Runs.Approved.frozen_plan
    fado.Service.Runs.Approved.run_approved fado.Service.Runs.Requests.go_ahead
    fado.Service.Runs.Requests.run
runs_once = refl

run-Starts_example :
    Starts
      (Permitted svc at build 900 (pos 50) (yes ∷ []) fresh)
      fresh
      (run svc at build 900 (pos 50) (yes ∷ []) fresh).0
run-Starts_example = run-Starts svc at build 900 (pos 50) (yes ∷ []) fresh

abbrev approved : Machine
approved = record fresh { world = record { store = filed_store; resumed = [] } }

run_approved-Starts_example :
    Starts
      (Approved svc quiet quiet "q1" [] filed_store)
      approved
      (run_approved svc quiet quiet "q1" build [] approved).0
run_approved-Starts_example = run_approved-Starts svc quiet quiet "q1" build [] approved

scrub_env-value_of_example : value_of "LD_PRELOAD" (scrub_env load_defaults build.env).0 ≡ (
    if ◌==◌ {A = String} "LD_PRELOAD" "PATH"
    then some safe_path
    else if env_kept load_defaults "LD_PRELOAD" && not (env_denied "LD_PRELOAD")
    then value_of "LD_PRELOAD" build.env
    else none)
scrub_env-value_of_example = scrub_env-value_of load_defaults build.env "LD_PRELOAD"

preload_dropped : value_of "LD_PRELOAD" (scrub_env load_defaults build.env).0 ≡ none
unfolding value_of scrub_env env_kept
preload_dropped = refl

abbrev idle : ℕ → Round
idle now = record { writes = []; between = []; now = now; aborted = false }

made_before : deadline svc quiet < 400000000000
unfolding deadline
made_before = omega arith

later : deadline svc quiet < 500000000000
unfolding deadline
later = omega arith

run_answers_example :
    (run svc at build 900 (pos 50) (yes ∷ idle 400000000000 ∷ idle 500000000000 ∷ []) fresh).1
    ≢ waits
run_answers_example =
    run_answers svc at build 900 (pos 50) (yes ∷ []) (idle 400000000000) [] (idle 500000000000) []
      fresh made_before later

timed_out :
    (run_waiting svc at "q1" build 900 (pos 50) [] (idle 400000000000 ∷ []) approved).1
    ≡ replies (denied "timeout")
unfolding run_waiting fado.Service.Waiting.await verdict fado.Store.Files.files
    fado.Store.Writes.perform_all snapshot_suspend fado.Service.Runs.Suspend.resolve_suspend_pgid
    fado.Text.trim_space fado.Service.Runs.Suspend.stop_pgid load fado.Service.Decisions.append
    fado.Store.append_event fado.Store.save fado.Store.Files.put fado.Store.cancel_info deadline
timed_out = refl

replied :
    (run_waiting svc at "q1" build 900 (pos 50) [] (idle 400000000000 ∷ []) approved).1 ≢ waits
replied e = cc (timed_out, e)

run_waiting_resumes_example :
    ((snapshot_suspend quiet "q1" (pos 50) 900 approved).0.stopped ≡ [])
    ⊎ ((pgid : ℤ) × (before : List ℤ) × ((snapshot_suspend quiet "q1"
            (pos 50)
            900
            approved).0.stopped
          ≡ pgid ∷ [])
        × (lt_int (pos 1) pgid ≡ true)
        × (same_int pgid quiet.own_group ≡ false)
        × ((run_waiting svc at "q1" build 900
              (pos 50)
              []
              (idle 400000000000 ∷ [])
              approved).0.world.resumed
            ≡ pgid ∷ before))
run_waiting_resumes_example =
    run_waiting_resumes svc at "q1" build 900 (pos 50) [] (idle 400000000000 ∷ []) approved replied
