-- ===== src/Service/Adoption.antt =====
-- go/internal/service/service.go: AdoptOrphans, which looks at the petitions that an earlier daemon
-- left. Its reads follow each other with no writes of other goroutines between.
use fado.Base.{
  ℕ, suc, ◌≡◌, inl, inr, refl, ap, ◌∙◌, true, false, none, some, List, [], ◌∷◌, map, String,
  minus_one, leb, arith, Option-cases, string_eq,
}
use fado.Protocol.{PendingRecord, PendingItem}
use fado.Store.{Store, load, verdict, save_result, json_ids}
use fado.Store.Listing.{list, list_ids, list_one, decided, pending_item}
use fado.Service.Decisions.{World, Env, resume_stored}

module _ (env : Env) where
  -- The result of a petition that timed out, the nth write.
  abbrev expire : ℕ → String → World → World
  expire n rid w =
      resume_stored env rid
        (record w { store = save_result (env.fault n) env.now rid minus_one "timeout" w.store })

  -- The petitions for which a waiter is started, with their records.
  unfoldable pub adopt_items : ℕ → List PendingItem → World → World × List (String × PendingRecord)
  adopt_items n [] w = (w, [])
  adopt_items n (item ∷ items) w = elim (load item.id w.store) [
    | none ↦ adopt_items n items w
    | some rec ↦ elim (verdict item.id w.store) [
      | some v ↦ adopt_items n items w
      | none ↦ elim (leb rec.expires env.now_unix) [
        | true ↦ adopt_items (suc n) items (expire n item.id w)
        | false ↦ let (w1, rest) = adopt_items n items w in (w1, (item.id, rec) ∷ rest)
      ]
    ]
  ]

  unfoldable pub adopt_orphans : World → World × List (String × PendingRecord)
  adopt_orphans w = adopt_items 0 (list env.now_unix w.store) w

  abbrev ids : List (String × PendingRecord) → List String
  ids ps = map (λ p. p.0) ps

  listed_is_open :
      (rid : String) (s : Store) (item : PendingItem)
      → list_one env.now_unix s rid ≡ some item
      → (rec : PendingRecord) × (load item.id s ≡ some rec)
        × (verdict item.id s ≡ none)
        × (leb rec.expires env.now_unix ≡ false)
  unfolding list_one decided pending_item
  listed_is_open rid s item h = elim (Option-cases (load rid s)) [
    | inl e ↦ absurd (ground (arith, h, e))
    | inr (rec, e) ↦
        let same : item.id ≡ rid = ground (arith, h, e) in
        (
          rec,
          ap (λ k. load k s) same ∙ e,
          ap (λ k. verdict k s) same ∙ ground (arith, h, e, Option-cases (verdict rid s)),
          ground (arith, h, e),
        )
  ]

  adopt_items-list_ids :
      (n : ℕ) (rids : List String) (w : World)
      → ((adopt_items n (list_ids env.now_unix w.store rids) w).0 ≡ w)
        × (ids (adopt_items n (list_ids env.now_unix w.store rids) w).1
            ≡ map (λ i. i.id) (list_ids env.now_unix w.store rids))
  unfolding list_ids adopt_items
  adopt_items-list_ids n [] w = (refl, refl)
  adopt_items-list_ids n (rid ∷ rids) w =
      let (same, rest) = adopt_items-list_ids n rids w in
      elim (Option-cases (list_one env.now_unix w.store rid)) [
        | inl e ↦ ground (arith, e, same, rest)
        | inr (item, e) ↦
            let (rec, l, v, live) = listed_is_open rid w.store item e in
            (ground (arith, e, l, v, live, same), ground (arith, e, l, v, live, rest))
      ]

  -- Where nothing else writes, AdoptOrphans changes nothing, and starts a waiter for exactly the rows of
  -- List, in their order.
  pub adopt_orphans-list :
      (w : World)
      → ((adopt_orphans w).0 ≡ w)
        × (ids (adopt_orphans w).1 ≡ map (λ i. i.id) (list env.now_unix w.store))
  unfolding adopt_orphans list
  adopt_orphans-list w = adopt_items-list_ids 0 (json_ids w.store.pending) w
