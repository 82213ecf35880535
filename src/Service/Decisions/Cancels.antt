-- ===== src/Service/Decisions/Cancels.antt =====
-- go/internal/service/service.go: Cancel.
use fado.Base.{
  ℕ, ◌+◌, Bool, false, not, ◌||◌, ◌&&◌, Option, none, some, String, minus_one, leb, if◌then◌else◌,
  ◌==◌, string_eq, nat_eq,
}
use fado.Text.{trim_space}
use fado.Protocol.{PendingRecord, VerdictRecord, AuditEvent, zero_event}
use fado.Store.{
  Store, load, verdict, consume, ack_info, selection_info, cancel, cancel_info, save_result,
  find_confirmation,
}
use fado.Store.Listing.{is_some}
use fado.Service.Decisions.Attribution.{clean_by}
use fado.Service.Decisions.{
  World, Env, CancelRequest, CancelResponse, accepted, rejected, is_admin_uid, append,
  resume_stored,
}

unfoldable pub verdict_is : String → Option VerdictRecord → Bool
verdict_is word none = false
verdict_is word (some v) = v.decision == word

unfoldable pub child_cancelled : Option (String × PendingRecord) → Store → Bool
child_cancelled none s = false
child_cancelled (some (child, rec)) s = not (child == "") && is_some (cancel_info child s)

-- One of the four tests that answer success at once.
unfoldable pub already_cancelled : PendingRecord → String → Store → Bool
already_cancelled rec rid s =
    is_some (cancel_info rid s)
    || verdict_is "cancelled" (verdict rid s)
    || (rec.step == "confirm"
        && not (rec.confirm_of == "")
        && is_some (cancel_info rec.confirm_of s))
    || (rec.step == "initial" && child_cancelled (find_confirmation rid s) s)

unfoldable pub cancelled_event :
    String → String → String → String → String → PendingRecord → AuditEvent
cancelled_event step confirm_of rid by reason rec = record zero_event {
  ev = "cancelled";
  rid = rid;
  step = step;
  confirm_of = confirm_of;
  by = by;
  reason = reason;
  uid = rec.uid;
  argv = rec.argv;
}

module _ (env : Env) where
  -- The calls that close an exec petition, from the nth write on, and its audit event.
  unfoldable pub close_exec : ℕ → String → String → String → AuditEvent → World → World
  close_exec n rid by reason ev w =
      let s1 = (cancel (env.fault n) env.now rid by reason w.store).0 in
      let s2 = (consume (env.fault (n + 1)) env.now rid "cancelled" by s1).0 in
      let s3 = save_result (env.fault (n + 2)) env.now rid minus_one "cancelled" s2 in
      append env ev (resume_stored env rid (record w { store = s3 }))

  unfoldable pub cancel_ask :
      PendingRecord → String → String → String → World → World × CancelResponse
  cancel_ask rec rid by reason w =
      if is_some (selection_info rid w.store)
      then (w, rejected "already decided")
      else if leb rec.expires env.now_unix
      then (w, rejected "already expired")
      else (
        append env
            (record zero_event {
              ev = "cancelled";
              rid = rid;
              step = "initial";
              by = by;
              reason = reason;
              uid = rec.uid;
              question = rec.question;
            })
            (record w { store = (cancel (env.fault 0) env.now rid by reason w.store).0 }),
        accepted,
      )

  unfoldable pub cancel_notify :
      PendingRecord → String → String → String → World → World × CancelResponse
  cancel_notify rec rid by reason w =
      if is_some (ack_info rid w.store)
      then (w, rejected "already acknowledged")
      else if leb rec.expires env.now_unix
      then (w, rejected "already expired")
      else (
        append env
            (record zero_event {
              ev = "cancelled";
              rid = rid;
              step = "initial";
              by = by;
              reason = reason;
              uid = rec.uid;
              link = rec.link;
              summary = rec.summary;
            })
            (record w { store = (cancel (env.fault 0) env.now rid by reason w.store).0 }),
        accepted,
      )

  unfoldable pub cancel_confirm :
      PendingRecord → String → String → String → World → World × CancelResponse
  unfolding cancelled_event
  cancel_confirm rec rid by reason w =
      if is_some (verdict rid w.store) && not (verdict_is "cancelled" (verdict rid w.store))
      then (w, rejected "already decided")
      else if leb rec.expires env.now_unix
      then (w, rejected "already expired")
      else let w1 =
          close_exec 0 rid by reason (cancelled_event "confirm" rec.confirm_of rid by reason rec)
            w in
        if rec.confirm_of == "" then (w1, accepted) else (
          close_exec 3 rec.confirm_of by reason
              (cancelled_event "initial" "" rec.confirm_of by reason rec) w1,
          accepted,
        )

  -- From the nth write on.
  unfoldable pub close_initial : ℕ → PendingRecord → String → String → String → World → World
  unfolding cancelled_event
  close_initial n rec rid by reason w =
      close_exec n rid by reason (cancelled_event "initial" "" rid by reason rec) w

  -- A petition that is approved: it can be cancelled while its confirmation waits.
  unfoldable pub cancel_approved :
      PendingRecord → String → String → String → World → World × CancelResponse
  unfolding cancelled_event close_initial
  cancel_approved rec rid by reason w = elim (find_confirmation rid w.store) [
    | none ↦ (w, rejected "already executed")
    | some (child_rid, child) ↦
        if is_some (verdict child_rid w.store)
          && not (verdict_is "cancelled" (verdict child_rid w.store))
        then (w, rejected "already decided")
        else if leb child.expires env.now_unix
        then (w, rejected "already expired")
        else let w1 =
            close_exec 0 child_rid by reason
              (cancelled_event "confirm" rid child_rid by reason child) w in
          (close_initial 3 rec rid by reason w1, accepted)
  ]

  unfoldable pub cancel_initial :
      PendingRecord → String → String → String → World → World × CancelResponse
  unfolding cancel_approved close_initial
  cancel_initial rec rid by reason w =
      if verdict_is "deny" (verdict rid w.store)
      then (w, rejected "already denied")
      else if verdict_is "approve" (verdict rid w.store)
      then cancel_approved rec rid by reason w
      else if not (is_some (verdict rid w.store)) && leb rec.expires env.now_unix
      then (w, rejected "already expired")
      else (close_initial 0 rec rid by reason w, accepted)

  unfoldable pub cancel_petition : CancelRequest → ℕ → World → World × CancelResponse
  unfolding is_admin_uid append already_cancelled cancel_ask cancel_notify cancel_confirm
      cancel_initial
  cancel_petition req caller w =
      let rid = trim_space req.id in
      let by = clean_by req.by in
      let reason = trim_space req.reason in
      if rid == "" then (w, rejected "missing id") else elim (load rid w.store) [
        | none ↦ (w, rejected "not found")
        | some rec ↦
            if not (is_admin_uid env caller) && not (caller == rec.uid)
            then (
              append env
                  (record zero_event {
                    ev = "cancel_unauthorized";
                    by = by;
                    rid = rid;
                    reason = reason;
                    uid = caller;
                  })
                  w,
              rejected "unauthorized",
            )
            else if already_cancelled rec rid w.store
            then (w, accepted)
            else if rec.kind == "ask"
            then cancel_ask rec rid by reason w
            else if rec.kind == "notify"
            then cancel_notify rec rid by reason w
            else if rec.step == "confirm"
            then cancel_confirm rec rid by reason w
            else cancel_initial rec rid by reason w
      ]
