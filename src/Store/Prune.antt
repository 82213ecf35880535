-- ===== src/Store/Prune.antt =====
-- go/internal/store/store.go: Prune. The times are in nanoseconds but for the records' Expires, which
-- is compared with `now_unix`, the seconds of the same instant.
pub mod Laws
use fado.Base.{
  ℕ, ◌+◌, ◌-◌, Bool, true, false, not, ◌&&◌, ◌||◌, Option, none, some, List, [], ◌∷◌, String, ltb,
  if◌then◌else◌,
}
use fado.Store.{Store, at, load, purge}
use fado.Store.Files.{File, absent, present, exists, Artifacts, Dir}
use fado.Store.Listing.{decided}

-- The file names that Prune reads an id from.
abbrev any_file : Artifacts → Bool
any_file f =
    exists f.json
    || exists f.verdict
    || exists f.result
    || exists f.ack
    || exists f.selection
    || exists f.cancel

-- Each id once, whichever of its files comes first.
abbrev pub all_ids : Dir → List String
all_ids [] = []
all_ids ((k, f) ∷ d) = let rest = all_ids d in if any_file f then k ∷ rest else rest

-- A record that parses, with nothing decided, before its time.
unfoldable pub is_live : ℕ → Store → String → Bool
is_live now_unix s rid = elim (load rid s) [
  | none ↦ false
  | some rec ↦ not (decided rid s) && ltb now_unix rec.expires
]

abbrev older {ℓ} : {A : Type ℓ} → File A → ℕ → ℕ
older absent oldest = oldest
older (present t c) oldest = if ltb t oldest then t else oldest

unfoldable pub oldest_of : ℕ → Artifacts → ℕ
oldest_of now f =
    older f.cancel
      (older f.selection (older f.ack (older f.result (older f.verdict (older f.json now)))))

-- One round of the loop: the store, and what is added to the count. `fails` says of an id which of
-- Purge's calls fail; their errors do not change the count.
unfoldable pub prune_one : (String → ℕ → Bool) → ℕ → ℕ → ℕ → Store → String → Store × ℕ
prune_one fails older_than now now_unix s rid =
    if is_live now_unix s rid
    then (s, 0)
    else if ltb older_than (now - oldest_of now (at s rid))
    then (purge (fails rid) rid s, 1)
    else (s, 0)

unfoldable pub prune_ids : (String → ℕ → Bool) → ℕ → ℕ → ℕ → List String → Store → Store × ℕ
prune_ids fails older_than now now_unix [] s = (s, 0)
prune_ids fails older_than now now_unix (rid ∷ rids) s =
    let (s', k) = prune_one fails older_than now now_unix s rid in
    let (s'', n) = prune_ids fails older_than now now_unix rids s' in (s'', k + n)

unfoldable pub prune : (String → ℕ → Bool) → ℕ → ℕ → ℕ → Store → Store × ℕ
prune fails older_than now now_unix s =
    prune_ids fails older_than now now_unix (all_ids s.pending) s
