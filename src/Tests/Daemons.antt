-- ===== src/Tests/Daemons.antt =====
-- A connection to the daemon: the bytes of a request, a stranger's messages and the answers.
use fado.Base.{
  map, ℕ, ◌≡◌, ◌≢◌, ◌≤◌, ◌<◌, ◌↔◌, refl, true, false, none, some, List, [], ◌∷◌, ◌++◌, pos, length,
  get_elem?,
}
use fado.Protocol.{RecentItem, PendingItem}
use fado.Store.{load}
use fado.Store.Listing.{list}
use fado.Store.Recent.{recent}
use fado.Store.Recent.Laws.{recent_apart}
use fado.Service.Pins.{check_git_drift}
use fado.Service.Pins.Entry.{check_fd_drift}
use fado.Service.Pins.Seals.{check_seal_drift}
use fado.Service.Views.{item_view, status_view}
use fado.Service.Views.Checks.{views_show_checks}
use fado.Service.Decisions.{VerdictSubmit}
use fado.Daemon.{Daemon, Moment, handle, handle_message}
use fado.Daemon.Framing.{
  Conn, stalls, ends, line, too_large, timed_out, malformed, read_request_line, connected, failed,
  closed, sleeps, handles, returns, serve_loop,
}
use fado.Daemon.Framing.Lines.{Request, read_request_line-Request}
use fado.Daemon.Messages.{ClientMessage, VersionResponse, describe, verdict_ack}
use fado.Daemon.Guarded.{Guarded, handle_message-Guarded}
use fado.Tests.Bots.{plain_os, internet, none_yet, bot0}
use fado.Tests.Machines.{quiet}
use fado.Tests.Pins.{filed, filed_store, filed_loads}
use fado.Tests.Runs.{svc, at}
use fado.Policy.Rules.{load_defaults}
use fado.Tests.Stores.{stocked}

abbrev typed : Conn
typed = record { bytes = 123 ∷ 125 ∷ 10 ∷ 65 ∷ []; ending = ends; deadline = true }

takes_line : read_request_line 4 typed ≡ line (123 ∷ 125 ∷ 10 ∷ [])
unfolding read_request_line
takes_line = refl

too_long : read_request_line 1 typed ≡ too_large
unfolding read_request_line
too_long = refl

never_ends :
    read_request_line 4 (record { bytes = 65 ∷ []; ending = stalls; deadline = true }) ≡ timed_out
unfolding read_request_line
never_ends = refl

empty_line :
    read_request_line 4 (record { bytes = 10 ∷ []; ending = ends; deadline = true }) ≡ malformed
unfolding read_request_line
empty_line = refl

backs_off :
    serve_loop (failed ∷ failed ∷ connected typed ∷ failed ∷ closed ∷ []) 10
    ≡ sleeps 10 ∷ sleeps 20 ∷ handles typed ∷ sleeps 10 ∷ returns ∷ []
unfolding serve_loop
backs_off = refl

read_request_line-Request_example :
    (read_request_line 4 typed ≡ line (123 ∷ 125 ∷ 10 ∷ []))
    ↔ (body : List ℕ) × (123 ∷ 125 ∷ 10 ∷ [] ≡ body ++ 10 ∷ [])
      × (0 < length body)
      × (length body ≤ 4)
      × Request body (123 ∷ 125 ∷ 10 ∷ 65 ∷ [])
read_request_line-Request_example = read_request_line-Request 4 typed (123 ∷ 125 ∷ 10 ∷ []) refl

abbrev nothing_asked : ClientMessage
nothing_asked = record {
  run = none;
  verdict = none;
  notify = none;
  ask = none;
  select = none;
  ack = none;
  cancel = none;
  list = false;
  recent = none;
  audit = none;
  status = none;
  telegram_info = false;
  telegram_set_config = none;
  policy_add_rule = none;
  version = false;
  help = none;
}

abbrev approve_q1 : ClientMessage
approve_q1 = record nothing_asked {
  verdict = some (record { id = "q1"; decision = "approve"; by = "eve" });
}

abbrev stranger : Moment
stranger = record {
  peer_pid = pos 50;
  uid = 1001;
  at = at;
  rounds = [];
  late_writes = [];
  late_ts = "t";
  net = internet;
  saves_policy = true;
  parse_time = λ s. none;
  atoi = λ s. none;
  itoa = λ n. "";
}

abbrev running : Daemon
running = record {
  machine = record {
    world = record { store = filed_store; resumed = [] };
    stopped = [];
    spawned = [];
  };
  bot = bot0;
  policy = load_defaults;
  policy_file = none;
}

abbrev built : VersionResponse
built = record {
  version = "0.1.0";
  git_commit = "c";
  build_time = "b";
  binary_sha256 = "d1";
  pid = pos 40;
}

refuses_stranger :
    (handle plain_os svc none_yet built stranger (λ bytes. some approve_q1) typed running).1
    ≡ verdict_ack (record { recorded = false; error = "unauthorized" })
unfolding handle read_request_line fado.Service.Decisions.submit fado.Service.Decisions.is_admin_uid
refuses_stranger = refl

knows_no_op : describe "sudo" ≡ none
unfolding describe
knows_no_op = refl

handle_message-Guarded_example :
    Guarded running (handle_message plain_os svc none_yet built stranger approve_q1 running).0
unfolding fado.Service.Decisions.is_admin_uid
handle_message-Guarded_example =
    handle_message-Guarded plain_os svc none_yet built stranger refl approve_q1 running refl refl

unfoldable row : PendingItem
unfolding fado.Store.Listing.pending_item
row = fado.Store.Listing.pending_item "q1" 60 filed

views_show_checks_example :
    (((item_view quiet load_defaults filed_store row).git_drift
        ≡ check_git_drift quiet load_defaults "q1" "/w" filed_store)
      × ((item_view quiet load_defaults filed_store row).fd_drift
          ≡ check_fd_drift quiet "q1" filed_store)
      × ((item_view quiet load_defaults filed_store row).seal_drift
          ≡ check_seal_drift quiet "q1" filed_store))
    × (((status_view quiet load_defaults "q1" filed_store).git_drift
          ≡ check_git_drift quiet load_defaults "q1" "/w" filed_store)
        × ((status_view quiet load_defaults "q1" filed_store).fd_drift
            ≡ check_fd_drift quiet "q1" filed_store)
        × ((status_view quiet load_defaults "q1" filed_store).seal_drift
            ≡ check_seal_drift quiet "q1" filed_store))
unfolding row
views_show_checks_example = views_show_checks quiet load_defaults filed_store row filed filed_loads

recent_apart_example :
    (length (recent (pos 5) stocked) ≤ 50)
    × ((i j : ℕ) (r : RecentItem) (item : PendingItem)
        → get_elem? (recent (pos 5) stocked) i ≡ some r
        → get_elem? (list 60 stocked) j ≡ some item
        → r.id ≢ item.id)
recent_apart_example = recent_apart (pos 5) 60 stocked

recent_ids : map (λ (r : RecentItem). r.id) (recent (pos 5) stocked) ≡ "r2" ∷ []
unfolding recent load fado.Store.Files.files fado.Store.cancel_info
recent_ids = refl
