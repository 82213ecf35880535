-- ===== src/Service/Waiting/Reached.antt =====
-- go/internal/service/service.go: the store that a wait leaves is its first one after the writes of a
-- part of the schedule.
use fado.Base.{
  ℕ, ◌≡◌, ◌⊎◌, inl, inr, refl, ap, sym, subst, Option, none, some, List, [], ◌∷◌, ◌++◌, String,
  arith, ltb, Bool-cases, Option-cases,
}
use fado.Store.{Store, verdict, cancel_info}
use fado.Store.Writes.{perform_all}
use fado.Service.Waiting.{Round, Answer, Waited, waiting, answered, await}
use fado.Service.Waiting.Answers.{gone, await-next}

-- The store after all the writes of these rounds.
abbrev pub passed : List Round → Store → Store
passed [] s = s
passed (r ∷ rs) s = passed rs (perform_all r.between (perform_all r.writes s))

-- From `s`, the writes of the first rounds lead to `t`, which is read in the round after them, before
-- or behind the writes between its two reads; `left` are the rounds behind that one.
abbrev pub Reached : List Round → Store → Store → List Round → Type 0
Reached rs s t left =
    (past : List Round) × (r : Round) × (rs ≡ past ++ r ∷ left)
    × ((t ≡ perform_all r.writes (passed past s))
        ⊎ (t ≡ perform_all r.between (perform_all r.writes (passed past s))))

Leaves : List Round → Store → Waited → Type 0
Leaves rs s (waiting t) = Unit
Leaves rs s (answered a t left) = Reached rs s t left

Leaves-later :
    (r : Round) (rs : List Round) (s : Store) (w : Waited)
    → Leaves rs (perform_all r.between (perform_all r.writes s)) w
    → Leaves (r ∷ rs) s w
unfolding Leaves
Leaves-later r rs s (waiting t) h = h
Leaves-later r rs s (answered a t left) (past, q, e, h) = (r ∷ past, q, ap (◌∷◌ r) e, h)

await-Leaves :
    (rid : String) (expires : ℕ) (rs : List Round) (s : Store)
    → Leaves rs s (await rid expires rs s)
unfolding await Leaves
await-Leaves rid expires [] s = tt
await-Leaves rid expires (r ∷ rs) s =
    let t = perform_all r.writes s in
    let u = perform_all r.between t in
    let so : (x : Waited)
        → await rid expires (r ∷ rs) s ≡ x
        → Leaves (r ∷ rs) s x
        → Leaves (r ∷ rs) s (await rid expires (r ∷ rs) s) =
      λ x e h. subst (Leaves (r ∷ rs) s) (sym e) h in
    elim (Option-cases (verdict rid t)) [
      | inr (v, e) ↦
          so (answered (some (record { decision = v.decision; by = v.by })) t rs)
            (ground (arith, e)) ([], r, refl, inl refl)
      | inl e ↦ elim (Option-cases (cancel_info rid u)) [
        | inr (c, f) ↦
            so (answered (some (record { decision = "cancelled"; by = c.by })) u rs)
              (ground (arith, e, f)) ([], r, refl, inr refl)
        | inl f ↦ elim (Bool-cases (ltb expires r.now)) [
          | inl g ↦ so (answered none u rs) (ground (arith, e, f, g)) ([], r, refl, inr refl)
          | inr g ↦ elim (Bool-cases r.aborted) [
            | inl h ↦
                so (answered (some gone) u rs) (ground (arith, e, f, g, h)) ([], r, refl, inr refl)
            | inr h ↦
                so (await rid expires rs u) (await-next rid expires r rs s e f g h)
                  (Leaves-later r rs s (await rid expires rs u) (await-Leaves rid expires rs u))
          ]
        ]
      ]
    ]

pub await-Reached :
    (rid : String) (expires : ℕ) (rs left : List Round) (s t : Store) (a : Option Answer)
    → await rid expires rs s ≡ answered a t left
    → Reached rs s t left
unfolding Leaves
await-Reached rid expires rs left s t a e = subst (Leaves rs s) e (await-Leaves rid expires rs s)
