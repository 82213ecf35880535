-- ===== src/Store/Prune/Laws.antt =====
-- What Prune deletes and what it leaves.
use fado.Base.{
  Bool-cases, ltb→lt, true, ap, ltb, ◌&&◌, ◌||◌, not, Bool, string_eq, subst, sym, ◌==◌, ◌∙◌, ◌∷◌,
  if◌then◌else◌, ◌-◌, ◌<◌, ◌⊎◌, eq_iff, arith, ◌≡◌, [], none, some, inl, inr, refl, false, ℕ, List,
  String,
}
use fado.Store.{
  contents, Artifacts, remaining, cancel_info, selection_info, ack_info, verdict, Store, at, load,
  purge,
}
use fado.Store.Files.{File, absent, files-put}
use fado.Store.Listing.{is_some, decided}
use fado.Store.Prune.{all_ids, is_live, oldest_of, prune_one, prune_ids, prune}

module _ (fails : String → ℕ → Bool) (older_than now now_unix : ℕ) where
  -- A file is gone, or its removal failed and it is as it was.
  abbrev pub Removed {ℓ} : {A : Type ℓ} → Bool → File A → File A → Type ℓ
  Removed failed f g = (failed ≡ true → g ≡ f) × (failed ≡ false → g ≡ absent)

  -- Of the two sealed artifacts, whether they are there.
  abbrev pub Cleared : Bool → Bool → Bool → Type 0
  Cleared failed f g = (failed ≡ true → g ≡ f) × (failed ≡ false → g ≡ false)

  abbrev pub AllRemoved : (ℕ → Bool) → Artifacts → Artifacts → Type 0
  AllRemoved failed f g =
      Removed (failed 0) f.json g.json
      × Removed (failed 1) f.verdict g.verdict
      × Removed (failed 2) f.result g.result
      × Removed (failed 3) f.ack g.ack
      × Removed (failed 4) f.selection g.selection
      × Removed (failed 5) f.cancel g.cancel
      × Cleared (failed 6) f.sealed_archive g.sealed_archive
      × Cleared (failed 7) f.sealed_dir g.sealed_dir

  -- The files of `rid` are as they were, or each is gone whose removal did not fail, and what was there
  -- was not live and had a file older than the limit.
  abbrev pub Swept : Store → Store → String → Type 0
  Swept s t rid =
      (at t rid ≡ at s rid)
      ⊎ (AllRemoved (fails rid) (at s rid) (at t rid)
          × (is_live now_unix s rid ≡ false)
          × (older_than < now - oldest_of now (at s rid)))

  remaining-AllRemoved :
      (failed : ℕ → Bool) (f : Artifacts) → AllRemoved failed f (remaining failed f)
  remaining-AllRemoved failed f = ground arith

  AllRemoved-again :
      (failed : ℕ → Bool) (f g h : Artifacts)
      → AllRemoved failed f g
      → AllRemoved failed g h
      → AllRemoved failed f h
  AllRemoved-again failed f g h a b = ground arith

  at-purge :
      (s : Store) (k rid : String)
      → at (purge (fails k) k s) rid ≡ (if k == rid then remaining (fails k) (at s k) else at s rid)
  unfolding purge
  at-purge s k rid = files-put k rid (remaining (fails k) (at s k)) s.pending

  is_live-at :
      (s t : Store) (rid : String)
      → at t rid ≡ at s rid
      → is_live now_unix t rid ≡ is_live now_unix s rid
  unfolding is_live load decided verdict ack_info selection_info cancel_info
  is_live-at s t rid e =
      let test : Artifacts → Bool = λ f. elim (contents f.json) [
        | none ↦ false
        | some rec ↦
            not (
              is_some (contents f.verdict)
              || is_some (contents f.ack)
              || is_some (contents f.selection)
              || is_some (contents f.cancel))
            && ltb now_unix rec.expires
      ] in
      ap test e

  purge-Swept :
      (s : Store) (k rid : String)
      → is_live now_unix s k ≡ false
      → older_than < now - oldest_of now (at s k)
      → Swept s (purge (fails k) k s) rid
  purge-Swept s k rid dead old = elim (Bool-cases (k == rid)) [
    | inr other ↦ inl (ground (arith, at-purge s k rid, other))
    | inl same ↦
        let e : k ≡ rid = (eq_iff k rid).0 same in
        let left : at (purge (fails k) k s) rid ≡ remaining (fails rid) (at s rid) =
          ground (arith, at-purge s k rid, same) ∙ ap (λ j. remaining (fails j) (at s j)) e in
        inr (
          subst (AllRemoved (fails rid) (at s rid)) (sym left)
              (remaining-AllRemoved (fails rid) (at s rid)),
          subst (λ j. is_live now_unix s j ≡ false) e dead,
          subst (λ j. older_than < now - oldest_of now (at s j)) e old,
        )
  ]

  prune_one-Swept :
      (s : Store) (k rid : String) → Swept s (prune_one fails older_than now now_unix s k).0 rid
  unfolding prune_one
  prune_one-Swept s k rid = elim (Bool-cases (is_live now_unix s k)) [
    | inl live ↦ rw (live, prune_one) (inl refl)
    | inr dead ↦ elim (Bool-cases (ltb older_than (now - oldest_of now (at s k)))) [
      | inr young ↦ rw (dead, young, prune_one) (inl refl)
      | inl old ↦ rw (dead, old, prune_one) (purge-Swept s k rid dead (ltb→lt older_than _ old))
    ]
  ]

  Swept-trans : (s t u : Store) (rid : String) → Swept s t rid → Swept t u rid → Swept s u rid
  Swept-trans s t u rid (inl e) (inl f) = inl (f ∙ e)
  Swept-trans s t u rid (inl e) (inr (gone, dead, old)) = inr (
    subst (λ f. AllRemoved (fails rid) f (at u rid)) e gone,
    sym (is_live-at s t rid e) ∙ dead,
    subst (λ f. older_than < now - oldest_of now f) e old,
  )
  Swept-trans s t u rid (inr (gone, dead, old)) (inl f) =
      inr (subst (AllRemoved (fails rid) (at s rid)) (sym f) gone, dead, old)
  Swept-trans s t u rid (inr (gone, dead, old)) (inr (again, _, _)) =
      inr (AllRemoved-again (fails rid) (at s rid) (at t rid) (at u rid) gone again, dead, old)

  prune_ids-Swept :
      (rids : List String) (s : Store) (rid : String)
      → Swept s (prune_ids fails older_than now now_unix rids s).0 rid
  unfolding prune_ids
  prune_ids-Swept [] s rid = inl refl
  prune_ids-Swept (k ∷ rids) s rid =
      Swept-trans s (prune_one fails older_than now now_unix s k).0
        (prune_ids fails older_than now now_unix rids
          (prune_one fails older_than now now_unix s k).0).0
        rid (prune_one-Swept s k rid)
        (prune_ids-Swept rids (prune_one fails older_than now now_unix s k).0 rid)

  -- Prune leaves the files of an id as they were, or deletes them, all but those whose removal fails;
  -- it deletes them only where the petition was not live (it was decided or expired, or its record was
  -- missing or did not parse) and one of its files was older than the limit.
  pub prune-Swept :
      (s : Store) (rid : String) → Swept s (prune fails older_than now now_unix s).0 rid
  unfolding prune
  prune-Swept s rid = prune_ids-Swept (all_ids s.pending) s rid
