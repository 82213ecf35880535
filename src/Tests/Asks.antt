-- ===== src/Tests/Asks.antt =====
-- Ticking and submitting the options of a question.
use fado.Base.{refl, none, some, [], ◌∷◌, true, not, ℕ, pos, ◌≡◌, if◌then◌else◌, ◌==◌, nat_eq}
use fado.Protocol.{PendingRecord, zero_record}
use fado.Store.{Store, selection_info}
use fado.Store.Files.{works, present, no_files, files, create_excl}
use fado.Service.Asks.{ticked, toggle_idx, toggle_ask, submit_ask}
use fado.Service.Asks.Toggles.{ascending, toggle_idx_flips}

abbrev question : PendingRecord
question = record zero_record {
  kind = "ask";
  options = "a" ∷ "b" ∷ "c" ∷ [];
  multi_select = true;
  expires = 500;
}

abbrev poll : Store
poll = record {
  pending = ("q1", record no_files { json = present 10 (some question) }) ∷ [];
  audit = [];
  offset = none;
}

ticks_in_order : toggle_idx (1 ∷ 3 ∷ []) 2 ≡ 1 ∷ 2 ∷ 3 ∷ []
unfolding toggle_idx
ticks_in_order = refl

unticks : toggle_idx (1 ∷ 2 ∷ 3 ∷ []) 2 ≡ 1 ∷ 3 ∷ []
unfolding toggle_idx
unticks = refl

submits_ticked :
    selection_info "q1" (
      submit_ask works 40 "q1" "al"
        (toggle_ask works 30 "q1" (pos 0) (toggle_ask works 20 "q1" (pos 2) poll)))
    ≡ some (record {
      selection = "a, c";
      selection_idx = pos 0;
      selection_idxs = 0 ∷ 2 ∷ [];
      by = "al";
      unix_nano = 40;
    })
unfolding selection_info files submit_ask fado.Store.load toggle_ask fado.Store.cancel_info
    fado.Store.set_selected_idxs fado.Store.save fado.Store.Files.put
    fado.Store.Files.write_no_follow toggle_idx fado.Store.select_many create_excl fado.Text.join
submits_ticked = refl

toggle_idx_flips_example :
    ((j : ℕ)
      → ticked j (toggle_idx (1 ∷ 3 ∷ []) 2)
        ≡ (if 2 == j then not (ticked j (1 ∷ 3 ∷ [])) else ticked j (1 ∷ 3 ∷ [])))
    × (ascending (toggle_idx (1 ∷ 3 ∷ []) 2) ≡ true)
toggle_idx_flips_example = toggle_idx_flips (1 ∷ 3 ∷ []) 2
