-- ===== src/Tests/Polls.antt =====
-- Two turns of the poll: an approver's buttons, a stranger's, and a Submit of nothing.
use fado.Base.{◌≡◌, refl, Bool, true, some, List, [], ◌∷◌, ◌++◌, String, pos, ◌==◌, string_eq}
use fado.Service.Decisions.{World}
use fado.Service.Pump.{Press}
use fado.Telegram.Poll.{Update, Turn, failed, batch, asked, answered, delivered, saved, poll}
use fado.Telegram.Poll.Delivered.{presses, meant_turns, undisturbed, poll-delivers_meant}
use fado.Telegram.Poll.Pumped.{pump, pump_survives_poll}
use fado.Tests.Pages.{small_atoi}
use fado.Tests.Decisions.{desk, office}

abbrev insider : String → Bool
insider by = by == "7"

abbrev press_deny : Update
press_deny = record { id = 4; callback_id = "c1"; from = pos 7; data_text = "deny:ab12" }

abbrev stranger_approves : Update
stranger_approves = record { id = 5; callback_id = "c2"; from = pos 8; data_text = "approve:ab12" }

abbrev turns_page_two : Update
turns_page_two = record { id = 6; callback_id = "c3"; from = pos 7; data_text = "page:ab12:2" }

abbrev two_turns : List Turn
two_turns =
    batch (press_deny ∷ stranger_approves ∷ []) (λ id. true)
    ∷ failed
    ∷ batch (turns_page_two ∷ []) (λ id. true)
    ∷ []

abbrev denied : Press
denied = record { rid = "ab12"; decision = "deny"; by = "7"; idxs = [] }

abbrev paged : Press
paged = record { rid = "ab12"; decision = "page"; by = "7"; idxs = pos 2 ∷ [] }

polls_two :
    poll small_atoi insider two_turns 0
    ≡ asked 0
      ∷ delivered denied
      ∷ answered "c1" "denied"
      ∷ answered "c2" "not authorized"
      ∷ saved 6
      ∷ asked 6
      ∷ asked 6
      ∷ delivered paged
      ∷ answered "c3" "page 3"
      ∷ saved 7
      ∷ []
unfolding poll fado.Telegram.Poll.format_int fado.Text.decimal fado.Telegram.Buttons.split_verdict
    fado.Telegram.Poll.answer_to
polls_two = refl

poll-delivers_meant_example :
    (rest : List Press) × (presses (poll small_atoi insider two_turns 0) ++ rest
      ≡ meant_turns small_atoi insider two_turns)
    × (undisturbed two_turns ≡ true → rest ≡ [])
poll-delivers_meant_example = poll-delivers_meant small_atoi insider two_turns 0

pump_survives_poll_example :
    (last : World) × (pump (λ n. desk) (presses (poll small_atoi insider two_turns 0)) office
      ≡ some last)
pump_survives_poll_example = pump_survives_poll small_atoi insider (λ n. desk) two_turns 0 office
