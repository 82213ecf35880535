-- ===== src/Service/Waiting/Answers.antt =====
-- go/internal/service/service.go: what await answers, and that it answers.
use fado.Base.{
  ℕ, zero, suc, ◌<◌, ◌≤◌, subst, ◌≡◌, ◌⊎◌, inl, inr, refl, ap, sym, ◌∙◌, true, false, Option, none,
  some, List, [], ◌∷◌, String, arith, ltb, ltb→lt, Bool-cases, Option-cases, get_elem?,
  some_injective,
}
use fado.Protocol.{VerdictRecord, CancelRecord}
use fado.Store.{Store, at, verdict, cancel_info}
use fado.Store.Files.{Fault, contents}
use fado.Store.Writes.{Write, perform_all}
use fado.Store.Kept.{perform_all-Kept}
use fado.Store.Once.{contents-exists}
use fado.Service.Waiting.{Round, Answer, Waited, waiting, answered, await}

ltb-false : (a b : ℕ) → ltb a b ≡ false → b ≤ a
ltb-false a b h = ground arith

abbrev pub gone : Answer
gone = record { decision = "client_aborted"; by = "client" }

-- The four grounds of an answer, at the store that it leaves: a verdict, a cancellation, a round after
-- the deadline, a round whose caller is gone.
abbrev pub Grounds : String → ℕ → List Round → Option Answer → Store → Type 0
Grounds rid expires rs a t =
    ((v : VerdictRecord) × (verdict rid t ≡ some v)
      × (a ≡ some (record { decision = v.decision; by = v.by })))
    ⊎ ((c : CancelRecord) × (cancel_info rid t ≡ some c)
        × (a ≡ some (record { decision = "cancelled"; by = c.by })))
    ⊎ ((i : ℕ) × (r : Round) × (get_elem? rs i ≡ some r) × (expires < r.now) × (a ≡ none))
    ⊎ ((i : ℕ) × (r : Round) × (get_elem? rs i ≡ some r) × (r.aborted ≡ true) × (a ≡ some gone))

Grounds-later :
    (rid : String) (expires : ℕ) (r : Round) (rs : List Round) (a : Option Answer) (t : Store)
    → Grounds rid expires rs a t
    → Grounds rid expires (r ∷ rs) a t
Grounds-later rid expires r rs a t (inl g) = inl g
Grounds-later rid expires r rs a t (inr (inl g)) = inr (inl g)
Grounds-later rid expires r rs a t (inr (inr (inl (i, q, here, g, e)))) =
    inr (inr (inl (suc i, q, here, g, e)))
Grounds-later rid expires r rs a t (inr (inr (inr (i, q, here, g, e)))) =
    inr (inr (inr (suc i, q, here, g, e)))

-- What a wait came to. One that has no answer met no round after the deadline, and none whose caller
-- is gone.
abbrev pub Sound : String → ℕ → List Round → Waited → Type 0
Sound rid expires rs (waiting s) =
    (i : ℕ) (r : Round) → get_elem? rs i ≡ some r → (r.now ≤ expires) × (r.aborted ≡ false)
Sound rid expires rs (answered a t left) = Grounds rid expires rs a t

all_later :
    (P : Round → Type 0) (r : Round) (rs : List Round)
    → P r
    → ((i : ℕ) (q : Round) → get_elem? rs i ≡ some q → P q)
    → (i : ℕ) (q : Round) → get_elem? (r ∷ rs) i ≡ some q
    → P q
all_later P r rs first others zero q here = subst P (some_injective here) first
all_later P r rs first others (suc i) q here = others i q here

Sound-later :
    (rid : String) (expires : ℕ) (r : Round) (rs : List Round) (x : Waited)
    → r.now ≤ expires
    → r.aborted ≡ false
    → Sound rid expires rs x
    → Sound rid expires (r ∷ rs) x
Sound-later rid expires r rs (waiting s) le there h =
    all_later (λ q. (q.now ≤ expires) × (q.aborted ≡ false)) r rs (le, there) h
Sound-later rid expires r rs (answered a t left) le there h = Grounds-later rid expires r rs a t h

pub await-next :
    (rid : String) (expires : ℕ) (r : Round) (rs : List Round) (s : Store)
    → verdict rid (perform_all r.writes s) ≡ none
    → cancel_info rid (perform_all r.between (perform_all r.writes s)) ≡ none
    → ltb expires r.now ≡ false
    → r.aborted ≡ false
    → await rid expires (r ∷ rs) s
      ≡ await rid expires rs (perform_all r.between (perform_all r.writes s))
unfolding await
await-next rid expires r rs s e f g h = ground (arith, e, f, g, h)

-- Where await answers, the answer is the verdict or a cancellation that is in the store, or a timeout
-- after the deadline, or its caller was gone. It answers at the latest in the first round that is
-- after the deadline or whose caller is gone: a schedule without an answer has no such round.
pub await-Sound :
    (rid : String) (expires : ℕ) (rs : List Round) (s : Store)
    → Sound rid expires rs (await rid expires rs s)
unfolding await
await-Sound rid expires [] s = λ i r here. cc
await-Sound rid expires (r ∷ rs) s =
    let t = perform_all r.writes s in
    let u = perform_all r.between t in
    let so : (x : Waited)
        → await rid expires (r ∷ rs) s ≡ x
        → Sound rid expires (r ∷ rs) x
        → Sound rid expires (r ∷ rs) (await rid expires (r ∷ rs) s) =
      λ x e h. subst (Sound rid expires (r ∷ rs)) (sym e) h in
    elim (Option-cases (verdict rid t)) [
      | inr (v, e) ↦
          so (answered (some (record { decision = v.decision; by = v.by })) t rs)
            (ground (arith, e)) (inl (v, e, refl))
      | inl e ↦ elim (Option-cases (cancel_info rid u)) [
        | inr (c, f) ↦
            so (answered (some (record { decision = "cancelled"; by = c.by })) u rs)
              (ground (arith, e, f)) (inr (inl (c, f, refl)))
        | inl f ↦ elim (Bool-cases (ltb expires r.now)) [
          | inl g ↦
              so (answered none u rs) (ground (arith, e, f, g))
                (inr (inr (inl (0, r, refl, ltb→lt expires r.now g, refl))))
          | inr g ↦ elim (Bool-cases r.aborted) [
            | inl h ↦
                so (answered (some gone) u rs) (ground (arith, e, f, g, h))
                  (inr (inr (inr (0, r, refl, h, refl))))
            | inr h ↦ so (await rid expires rs u) (await-next rid expires r rs s e f g h) (
                Sound-later rid expires r rs (await rid expires rs u) (ltb-false expires r.now g) h
                  (await-Sound rid expires rs u))
          ]
        ]
      ]
    ]

verdict_stays :
    (ws : List (Fault × ℕ × Write)) (s : Store) (rid : String) (v : VerdictRecord)
    → verdict rid s ≡ some v
    → verdict rid (perform_all ws s) ≡ some v
unfolding verdict
verdict_stays ws s rid v h =
    ap contents ((perform_all-Kept ws s rid).verdict (contents-exists (at s rid).verdict h)) ∙ h

-- Once a verdict is recorded, the next turn of the loop answers it, whatever is written before.
pub await_settled :
    (rid : String) (expires : ℕ) (r : Round) (rs : List Round) (s : Store) (v : VerdictRecord)
    → verdict rid s ≡ some v
    → await rid expires (r ∷ rs) s
      ≡ answered (some (record { decision = v.decision; by = v.by })) (perform_all r.writes s) rs
unfolding await
await_settled rid expires r rs s v h = ground (arith, verdict_stays r.writes s rid v h)
