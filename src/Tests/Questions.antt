-- ===== src/Tests/Questions.antt =====
-- A question that is answered on Telegram, and the petitions that an earlier daemon left.
use fado.Base.{refl, none, some, [], ◌∷◌, false, pos, negsuc, String, ◌≡◌, ◌⊎◌, map, ◌+◌}
use fado.Text.{trim_space}
use fado.Store.{Store}
use fado.Store.Files.{works}
use fado.Store.Listing.{list}
use fado.Store.Writes.{selects}
use fado.Service.Waiting.{Round}
use fado.Service.Questions.{AskRequest, AskResult, ask, ask_ttl, fault_of, refusal}
use fado.Service.Questions.Replies.{Answered, ask-Answered}
use fado.Service.Adoption.{adopt_orphans, adopt_orphans-list}
use fado.Service.Lifetimes.{seconds}
use fado.Service.Notices.{NotifyRequest, notify}
use fado.Service.Pump.{press}
use fado.Service.Runs.{denied}
use fado.Tests.Decisions.{office, desk}
use fado.Tests.Machines.{quiet}
use fado.Tests.Pins.{empty}

abbrev colour : AskRequest
colour = record {
  question = " Which? ";
  options = "red" ∷ " " ∷ "blue" ∷ [];
  link = "";
  ttl_seconds = pos 0;
  multi_select = false;
  allow_write_in = false;
  recommended_index = pos 0;
}

abbrev picked_blue : Round
picked_blue = record {
  writes = (works, 70, selects "q1" "blue" (pos 1) [] "bob") ∷ [];
  between = [];
  now = 70000000000;
  aborted = false;
}

abbrev blue : AskResult
blue = record {
  status = "selected";
  id = "q1";
  question = "Which?";
  selection = "blue";
  selection_idx = pos 1;
  selection_idxs = [];
  by = "bob";
  reason = "";
}

answers_blue : (ask quiet false colour 900 (picked_blue ∷ []) "t" [] empty).1 ≡ some blue
unfolding ask trim_space fado.Service.Questions.close_question fado.Service.Waiting.await_selection
    fado.Store.selection_info fado.Store.Files.files fado.Store.Writes.perform_all
    fado.Store.select_record fado.Store.load fado.Store.attach_pager fado.Store.append_event
    fado.Store.save fado.Store.Files.put fado.Store.Files.write_no_follow
    fado.Store.Files.create_excl
answers_blue = refl

ask-Answered_example :
    ((reason : String) × (fault_of colour ≡ some reason)
      × (blue ≡ refusal reason)
      × ((ask quiet false colour 900 (picked_blue ∷ []) "t" [] empty).0 ≡ empty))
    ⊎ ((fault_of colour ≡ none)
        × Answered "q1"
            (trim_space " Which? ")
            (quiet.env.now + ask_ttl false (pos 0))
            (picked_blue ∷ [])
            (ask quiet false colour 900 (picked_blue ∷ []) "t" [] empty).0
            blue)
ask-Answered_example =
    ask-Answered quiet false colour 900 (picked_blue ∷ []) "t" [] empty blue answers_blue

adopt_orphans-list_example :
    ((adopt_orphans desk office).0 ≡ office)
    × (map (λ p. p.0) (adopt_orphans desk office).1
        ≡ map (λ i. i.id) (list desk.now_unix office.store))
adopt_orphans-list_example = adopt_orphans-list desk office

-- 2 ^ 34 seconds are more nanoseconds than an int64 holds.
wraps : seconds (pos 17179869184) ≡ negsuc 1266874889709551615
unfolding seconds fado.Base.Int.signed
wraps = refl

abbrev notice : NotifyRequest
notice = record { link = "ftp://x"; summary = "s"; ttl_seconds = pos 0 }

refuses_ftp : (notify quiet notice 900 office).1 ≡ denied "link must be http(s) URL"
unfolding notify trim_space
refuses_ftp = refl

page_without_index :
    press desk (record { rid = "r1"; decision = "page"; by = "5"; idxs = [] }) office ≡ none
unfolding press
page_without_index = refl
