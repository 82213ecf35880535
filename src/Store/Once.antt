-- ===== src/Store/Once.antt =====
-- Which writes the store lets happen once: verdicts, acknowledgements, selections, cancellations.
use fado.Base.{
  ap, ℕ, ◌≡◌, refl, true, false, Option, some, List, String, arith, eq_iff, string_eq, ◌∙◌,
}
use fado.Protocol.{CancelRecord, SelectionRecord, VerdictRecord}
use fado.Store.{cancel_info, selection_info, Store, at, verdict, consume}
use fado.Store.Files.{File, absent, present, Fault, exists, contents, create_excl, files-put}
use fado.Store.Writes.{Write, perform_all}
use fado.Store.Kept.{perform_all-Kept}

pub consume-at :
    (fault : Fault) (now : ℕ) (rid decision by : String) (s : Store)
    → (consume fault now rid decision by s).1 ≡ true
    → (at (consume fault now rid decision by s).0 rid).verdict
      ≡ present now (some (record { decision = decision; by = by; unix_nano = now }))
unfolding consume create_excl
consume-at fault now rid decision by s h = rw (files-put rid rid) (ground (arith, eq_iff rid rid))

pub verdict_of_file :
    (s : Store) (rid : String) {t : ℕ} (v : VerdictRecord)
    → (at s rid).verdict ≡ present t (some v)
    → verdict rid s ≡ some v
unfolding verdict
verdict_of_file s rid v e = ap contents e

consume_again :
    (fault : Fault) (now : ℕ) (rid decision by : String) (s : Store) (t : ℕ)
    (c : Option VerdictRecord)
    → (at s rid).verdict ≡ present t c
    → (consume fault now rid decision by s).1 ≡ false
unfolding consume create_excl
consume_again fault now rid decision by s t c e = ground arith

-- Where Consume reports success, its verdict is what every later read finds, whatever was written in
-- between, and every later Consume of that id reports failure.
pub consume_wins :
    (fault : Fault) (now : ℕ) (rid decision by : String) (s : Store) (ws : List (Fault × ℕ × Write))
    → (consume fault now rid decision by s).1 ≡ true
    → let after = perform_all ws (consume fault now rid decision by s).0 in
      (verdict rid after ≡ some (record { decision = decision; by = by; unix_nano = now }))
      × ((fault' : Fault) (later : ℕ) (decision' by' : String)
          → (consume fault' later rid decision' by' after).1 ≡ false)
consume_wins fault now rid decision by s ws h =
    let first = consume fault now rid decision by s in
    let wrote = consume-at fault now rid decision by s h in
    let stays : (at (perform_all ws first.0) rid).verdict ≡ (at first.0 rid).verdict =
      (perform_all-Kept ws first.0 rid).verdict (rw wrote) in
    (
      verdict_of_file (perform_all ws first.0) rid _ (stays ∙ wrote),
      λ fault' later decision' by'.
          consume_again fault' later rid decision' by' (perform_all ws first.0) now _
            (stays ∙ wrote),
    )

pub contents-exists {ℓ} : {A : Type ℓ} (f : File A) {a : A} → contents f ≡ some a → exists f ≡ true
contents-exists absent h = cc
contents-exists (present t c) h = refl

-- A cancellation that is recorded is what every later read finds, over any sequence of the store's
-- writes but Purge and Prune, each with any fault.
pub cancel_info_stays :
    (ws : List (Fault × ℕ × Write)) (s : Store) (rid : String) (c : CancelRecord)
    → cancel_info rid s ≡ some c
    → cancel_info rid (perform_all ws s) ≡ some c
unfolding cancel_info
cancel_info_stays ws s rid c h =
    ap contents ((perform_all-Kept ws s rid).cancel (contents-exists (at s rid).cancel h)) ∙ h

-- The first selection that is recorded wins in the same way.
pub selection_info_stays :
    (ws : List (Fault × ℕ × Write)) (s : Store) (rid : String) (sel : SelectionRecord)
    → selection_info rid s ≡ some sel
    → selection_info rid (perform_all ws s) ≡ some sel
unfolding selection_info
selection_info_stays ws s rid sel h =
    ap contents ((perform_all-Kept ws s rid).selection (contents-exists (at s rid).selection h)) ∙ h
