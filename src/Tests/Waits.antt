-- ===== src/Tests/Waits.antt =====
-- await over a schedule in which another goroutine approves the run.
use fado.Base.{refl, none, some, [], ◌∷◌, false, ℕ, ◌≡◌}
use fado.Store.{Store, verdict}
use fado.Store.Files.{Fault, works, files, create_excl}
use fado.Store.Writes.{perform_all}
use fado.Service.Waiting.{Round, answered, await}
use fado.Service.Waiting.Answers.{Sound, await-Sound}
use fado.Tests.Decisions.{office, race}

abbrev idle : ℕ → Round
idle now = record { writes = []; between = []; now = now; aborted = false }

abbrev approval : Round
approval = record { writes = race; between = []; now = 30; aborted = false }

abbrev approved : Store
approved = perform_all race office.store

mallory_answers :
    await "r1" 50 (idle 10 ∷ approval ∷ idle 90 ∷ []) office.store
    ≡ answered (some (record { decision = "approve"; by = "mallory" })) approved (idle 90 ∷ [])
unfolding await verdict files perform_all fado.Store.cancel_info fado.Store.save_result
    fado.Store.Files.put fado.Store.consume create_excl
mallory_answers = refl

late_answer : await "r1" 50 (idle 10 ∷ idle 90 ∷ []) office.store ≡ answered none office.store []
unfolding await verdict files perform_all fado.Store.cancel_info
late_answer = refl

await-Sound_example :
    Sound "r1" 50 (idle 10 ∷ approval ∷ []) (await "r1" 50 (idle 10 ∷ approval ∷ []) office.store)
await-Sound_example = await-Sound "r1" 50 (idle 10 ∷ approval ∷ []) office.store
