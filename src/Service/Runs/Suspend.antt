-- ===== src/Service/Runs/Suspend.antt =====
-- go/internal/service/suspend.go: stopping the caller's process group while its petition waits.
use fado.Base.{
  ℕ, Bool, true, false, not, ◌||◌, ◌&&◌, Option, none, some, ◌∷◌, String, ℤ, pos, lt_int,
  if◌then◌else◌, ◌==◌, string_eq, nat_eq,
}
use fado.Text.{trim_space}
use fado.Protocol.{SuspendPin, zero_event}
use fado.Store.{load, save}
use fado.Service.Decisions.{resume_suspend}
use fado.Service.Host.{Host}
use fado.Service.Runs.{Machine, audit}

abbrev pub same_int : ℤ → ℤ → Bool
same_int a b = not (lt_int a b) && not (lt_int b a)

-- `pgid <= 1`.
abbrev pub le_one : ℤ → Bool
le_one n = not (lt_int (pos 1) n)

unfoldable pub suspend_enabled : Host → Bool
suspend_enabled os =
    let word = os.to_lower (trim_space (os.getenv "TWOFADO_SUSPEND")) in
    not (
      word == "0"
      || word == "false"
      || word == "off"
      || word == "no"
      || word == "disable"
      || word == "disabled")

unfoldable pub resolve_suspend_pgid : Host → ℤ → ℕ → Option ℤ
unfolding suspend_enabled
resolve_suspend_pgid os peer uid =
    if not (lt_int (pos 0) peer) || same_int peer os.pid
    then none
    else if not (suspend_enabled os)
    then none
    else if not (os.euid == 0) && not (uid == os.euid)
    then none
    else elim (os.group_of peer) [
      | none ↦ none
      | some pgid ↦ if le_one pgid || same_int pgid os.own_group then none else some pgid
    ]

-- The error's text, "" for none.
unfoldable pub stop_pgid : Host → ℤ → String
stop_pgid os pgid =
    if le_one pgid || same_int pgid os.own_group then "invalid argument" else os.stop_error pgid

unfoldable pub snapshot_suspend : Host → String → ℤ → ℕ → Machine → Machine × Option SuspendPin
snapshot_suspend os rid peer uid m = elim (resolve_suspend_pgid os peer uid) [
  | none ↦ (m, none)
  | some pgid ↦
      let err = stop_pgid os pgid in
      if not (err == "")
      then (
        audit os
            (record zero_event {
              ev = "suspend";
              uid = uid;
              rid = rid;
              decision = "skip";
              summary = err;
            })
            m,
        some (record { pid = peer; pgid = pgid; suspended = false }),
      )
      else let pin : SuspendPin = record { pid = peer; pgid = pgid; suspended = true } in
        let m1 =
          audit os (record zero_event { ev = "suspend"; uid = uid; rid = rid })
            (record m { stopped = pgid ∷ m.stopped }) in
        (
          elim (load rid m1.world.store) [
            | none ↦ m1
            | some rec ↦ record m1 {
              world = record m1.world {
                store =
                    (save (os.env.fault 8) os.env.now (record rec { suspend = some pin }) rid
                      m1.world.store).0;
              };
            }
          ],
          some pin,
        )
]

unfoldable pub resume : Host → String → Option SuspendPin → Machine → Machine
resume os rid pin m = record m { world = resume_suspend os.env rid pin m.world }
