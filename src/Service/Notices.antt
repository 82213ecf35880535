-- ===== src/Service/Notices.antt =====
-- go/internal/service/notify.go and paging.go: Notify, the saving of a list and its first page. A card
-- is a message to Telegram; `os.posted` is the chat and the number of it where one is posted.
use fado.Base.{
  ℕ, ◌+◌, ◌/◌, Bool, not, ◌||◌, ◌&&◌, Option, none, some, List, String, ℤ, ltb, if◌then◌else◌, ◌==◌,
  string_eq,
}
use fado.Text.{trim_space, has_prefix, len}
use fado.Protocol.{zero_record, zero_event}
use fado.Store.{Store, load, save, attach_pager, set_page_list}
use fado.Service.Decisions.{World, append}
use fado.Service.Host.{Host}
use fado.Service.Runs.{RunResult, denied}
use fado.Service.Lifetimes.{second, seconds, clamp_ttl}

pub record NotifyRequest : Type 0 where
  pub link : String
  pub summary : String
  pub ttl_seconds : ℤ

-- 24 hours, between 5 minutes and 7 days.
abbrev pub default_notify_ttl : ℕ
default_notify_ttl = 86400000000000

abbrev pub min_notify_ttl : ℕ
min_notify_ttl = 300000000000

abbrev pub max_notify_ttl : ℕ
max_notify_ttl = 604800000000000

-- The chat and the message of a card that was posted, at the nth write.
unfoldable pub attached : Host → ℕ → String → Store → Store
attached os n rid s = elim os.posted [
  | none ↦ s
  | some (chat, msg) ↦ attach_pager (os.env.fault n) os.env.now rid chat msg s
]

unfoldable pub notify : Host → NotifyRequest → ℕ → World → World × RunResult
unfolding attached seconds clamp_ttl
notify os req uid w =
    let link = trim_space req.link in
    let summary = trim_space req.summary in
    if link == "" || summary == ""
    then (w, denied "link and summary required")
    else if ltb 2000 (len link) || ltb 2000 (len summary)
    then (w, denied "link or summary too long")
    else if not (has_prefix link "http://") && not (has_prefix link "https://")
    then (w, denied "link must be http(s) URL")
    else let ttl =
        clamp_ttl default_notify_ttl min_notify_ttl max_notify_ttl (seconds req.ttl_seconds) in
      let rid = os.new_rid in
      let s =
        (save (os.env.fault 0) os.env.now
          (record zero_record {
            uid = uid;
            expires = (os.env.now + ttl) / second;
            step = "initial";
            kind = "notify";
            link = link;
            summary = summary;
          })
          rid w.store).0 in
      let w1 =
        append os.env
          (record zero_event {
            ev = "notify";
            uid = uid;
            rid = rid;
            step = "initial";
            link = link;
            summary = summary;
          })
          (record w { store = s }) in
      (
        record w1 { store = attached os 1 rid w1.store },
        record (denied "") { status = "pending"; id = rid },
      )

-- The number of the message, 0 where Telegram is off (`pages` is false), `none` for an error.
unfoldable pub send_list : Host → Bool → String → String → List String → Store → Store × Option ℕ
send_list os pages rid title lines s = elim (load rid s) [
  | none ↦ (s, none)
  | some rec ↦
      let s1 = set_page_list (os.env.fault 0) os.env.now rid title lines s in
      if not pages then (s1, some 0) else elim os.posted [
        | none ↦ (s1, none)
        | some (chat, msg) ↦ (attach_pager (os.env.fault 1) os.env.now rid chat msg s1, some msg)
      ]
]
