-- ===== src/Store/Audit/Pages.antt =====
-- The pages of an audit query, one after the other, are all the events that it asks for.
use fado.Base.{
  length-append, pos, eq_iff, subst, ◌==◌, nat_eq, negsuc, ◌≢◌, pos, ◌≤◌, ◌∙◌, arith, ltb, none,
  some, if◌then◌else◌, Bool-cases, Option-cases, inl, inr, refl, append-nil, append_assoc, sym, ap,
  ◌-◌, Bool-cases, inr, Option-cases, append-nil, inl, ◌⊎◌, ◌∷◌, ◌<◌, ◌++◌, ◌≡◌, length, Option, ℕ,
  zero, suc, List, [], String, ℤ,
}
use fado.Protocol.{AuditEvent, AuditQueryRequest}
use fado.Store.{blank, Store, Line}
use fado.Store.Audit.{
  audit_matches, Page, matched, scan, split_lines, cursor_start, clamp_start, clamp_limit,
  audit_query,
}

module _ (parse_time : String → Option ℤ) (req : AuditQueryRequest) (lines : List Line) where
  -- The matching events among the first `n` lines, newest first.
  unfoldable pub hits : ℕ → List AuditEvent
  hits zero = []
  hits (suc i) = elim (matched parse_time req lines i) [ none ↦ hits i | some ev ↦ ev ∷ hits i ]

-- What a page with limit `limit`, begun with `items` and `n` lines left, comes to.
abbrev pub Scanned :
    (String → Option ℤ)
    → (ℕ → String)
    → AuditQueryRequest
    → ℕ
    → List Line
    → ℕ
    → List AuditEvent
    → Page
    → Type 0
Scanned parse_time itoa req limit lines n items p =
    ((p.next_cursor ≡ "") × (items ++ hits parse_time req lines n ≡ p.items))
    ⊎ ((j : ℕ) × (suc j < n)
        × (p.next_cursor ≡ itoa j)
        × (length p.items ≡ limit)
        × (items ++ hits parse_time req lines n ≡ p.items ++ hits parse_time req lines (suc j)))

module _ (parse_time : String → Option ℤ) (itoa : ℕ → String) (req : AuditQueryRequest) (limit : ℕ)
    (lines : List Line) where
  step_hit :
      (i : ℕ) (ev : AuditEvent)
      → matched parse_time req lines i ≡ some ev
      → hits parse_time req lines (suc i) ≡ ev ∷ hits parse_time req lines i
  unfolding hits
  step_hit i ev e = rw (e, hits)

  step_miss :
      (i : ℕ)
      → matched parse_time req lines i ≡ none
      → hits parse_time req lines (suc i) ≡ hits parse_time req lines i
  unfolding hits
  step_miss i e = rw (e, hits)

  full-Scanned :
      (i : ℕ) (items : List AuditEvent) (ev : AuditEvent)
      → matched parse_time req lines i ≡ some ev
      → length (items ++ ev ∷ []) ≡ limit
      → Scanned parse_time itoa req limit lines
          (suc i)
          items
          (record { items = items ++ ev ∷ []; next_cursor = if ltb 0 i then itoa (i - 1) else "" })
  full-Scanned zero items ev e l = inl (refl, rw (step_hit 0 ev e) (unfold hits in refl))
  full-Scanned (suc k) items ev e l = inr (
    k,
    omega arith,
    (let e' : suc k - 1 ≡ k = omega arith in ground (arith, ap itoa e')),
    l,
    rw (step_hit (suc k) ev e)
        (sym (append_assoc items (ev ∷ []) (hits parse_time req lines (suc k)))),
  )

  extend :
      (i : ℕ) (items items' : List AuditEvent) (p : Page)
      → items' ++ hits parse_time req lines i ≡ items ++ hits parse_time req lines (suc i)
      → Scanned parse_time itoa req limit lines i items' p
      → Scanned parse_time itoa req limit lines (suc i) items p
  extend i items items' p h (inl (n, e)) = inl (n, sym h ∙ e)
  extend i items items' p h (inr (j, below, n, l, e)) = inr (j, omega arith, n, l, sym h ∙ e)

  scan-Scanned :
      (n : ℕ) (items : List AuditEvent)
      → length items < limit
      → Scanned parse_time itoa req limit lines n items
          (scan parse_time itoa req limit lines n items)
  unfolding scan
  scan-Scanned zero items l = inl (refl, unfold hits in append-nil items)
  scan-Scanned (suc i) items l = elim (Option-cases (matched parse_time req lines i)) [
    | inl e ↦
        rw (e, scan)
          (extend i items items _ (ap (λ v. items ++ v) (sym (step_miss i e)))
            (scan-Scanned i items l))
    | inr (ev, e) ↦ elim (Bool-cases (length (items ++ ev ∷ []) == limit)) [
      | inl full ↦ rw (e, scan, full) (full-Scanned i items ev e (ground (arith, full)))
      | inr more ↦
          rw (e, scan, more)
            (extend i items (items ++ ev ∷ []) _
              (append_assoc items (ev ∷ []) (hits parse_time req lines i)
                ∙ ap (λ v. items ++ v) (sym (step_hit i ev e)))
              (scan-Scanned i (items ++ ev ∷ [])
                (ground (arith, more, length-append items (ev ∷ [])))))
    ]
  ]

-- What strconv says of the cursors that the daemon hands out.
abbrev pub ReadsBack : (String → Option ℤ) → (ℕ → String) → Type 0
ReadsBack atoi itoa = (n : ℕ) → (atoi (itoa n) ≡ some (pos n)) × (itoa n ≢ "")

clamp_limit_bounds : (l : ℤ) → (0 < clamp_limit l) × (clamp_limit l ≤ 200)
unfolding clamp_limit
clamp_limit_bounds (pos n) = ground arith
clamp_limit_bounds (negsuc n) = omega arith

clamp_start-lt :
    (start : ℕ) (lines : List Line) → 0 < length lines → clamp_start start lines < length lines
unfolding clamp_start
clamp_start-lt start lines h = ground arith

clamp_start_below :
    (start : ℕ) (lines : List Line) → start < length lines → clamp_start start lines ≡ start
unfolding clamp_start
clamp_start_below start lines h = ground arith

hits_cursor :
    (parse_time : String → Option ℤ) (req : AuditQueryRequest) (cursor : String) (lines : List Line)
    (n : ℕ)
    → hits parse_time (record req { cursor = cursor }) lines n ≡ hits parse_time req lines n
unfolding hits matched audit_matches
hits_cursor parse_time req cursor lines zero = refl
hits_cursor parse_time req cursor lines (suc i) =
    elim (Option-cases (matched parse_time req lines i)) [
      | inl e ↦ rw (e, hits) (hits_cursor parse_time req cursor lines i)
      | inr (ev, e) ↦ rw (e, hits) (ap (λ v. ev ∷ v) (hits_cursor parse_time req cursor lines i))
    ]

module _ (parse_time : String → Option ℤ) (atoi : String → Option ℤ) (itoa : ℕ → String) where
  -- All that a query asks for, from its cursor back to the oldest line, newest first.
  unfoldable pub answers : AuditQueryRequest → Store → List AuditEvent
  answers req s = elim (cursor_start atoi req.cursor (split_lines s)) [
    | none ↦ []
    | some start ↦ hits parse_time req (split_lines s) (suc (clamp_start start (split_lines s)))
  ]

  answers-some :
      (req : AuditQueryRequest) (s : Store) (start : ℕ)
      → cursor_start atoi req.cursor (split_lines s) ≡ some start
      → answers req s
        ≡ hits parse_time req (split_lines s) (suc (clamp_start start (split_lines s)))
  unfolding answers
  answers-some req s start e = rw (e, answers)

  cursor_start-itoa :
      (s : Store) (j : ℕ)
      → ReadsBack atoi itoa
      → cursor_start atoi (itoa j) (split_lines s) ≡ some j
  unfolding cursor_start
  cursor_start-itoa s j back = ground (arith, (back j).0, (back j).1, eq_iff (itoa j) "")

  -- The query at a cursor that the daemon handed out, for a line of the log.
  answers-itoa :
      (req : AuditQueryRequest) (s : Store) (j : ℕ)
      → ReadsBack atoi itoa
      → j < length (split_lines s)
      → answers (record req { cursor = itoa j }) s ≡ hits parse_time req (split_lines s) (suc j)
  answers-itoa req s j back below =
      answers-some (record req { cursor = itoa j }) s j (cursor_start-itoa s j back)
      ∙ hits_cursor parse_time req (itoa j) (split_lines s) _
      ∙ ap (λ c. hits parse_time req (split_lines s) (suc c))
          (clamp_start_below j (split_lines s) below)

  abbrev pub Paged : AuditQueryRequest → Store → Page → Type 0
  Paged req s page =
      ((page.next_cursor ≡ "") × (answers req s ≡ page.items))
      ⊎ ((page.next_cursor ≢ "")
          × (length page.items ≡ clamp_limit req.limit)
          × (answers req s ≡ page.items ++ answers (record req { cursor = page.next_cursor }) s))

  Paged-Scanned :
      (req : AuditQueryRequest) (s : Store) (n : ℕ) (page : Page)
      → ReadsBack atoi itoa
      → n ≤ length (split_lines s)
      → answers req s ≡ hits parse_time req (split_lines s) n
      → Scanned parse_time itoa req (clamp_limit req.limit) (split_lines s) n [] page
      → Paged req s page
  Paged-Scanned req s n page back below all (inl (e, h)) = inl (e, all ∙ h)
  Paged-Scanned req s n page back below all (inr (j, jn, e, l, h)) = inr (
    subst (λ c. c ≢ "") (sym e) (back j).1,
    l,
    all
        ∙ h
        ∙ ap (λ v. page.items ++ v) (sym (answers-itoa req s j back (omega arith)))
        ∙ ap (λ c. page.items ++ answers (record req { cursor = c }) s) (sym e),
  )

  lines_nonempty : (s : Store) → 0 < length (split_lines s)
  lines_nonempty s = omega (arith, length-append s.audit (blank ∷ []))

  -- Where the cursor of a page is empty, the page is all that the query asks for. Else the page is as
  -- long as the limit, and what the query asks for is the page followed by what the same query asks for
  -- at that cursor.
  pub audit_query_pages :
      (req : AuditQueryRequest) (s : Store)
      → ReadsBack atoi itoa
      → Paged req s (audit_query parse_time atoi itoa req s)
  unfolding audit_query
  audit_query_pages req s back =
      elim (Option-cases (cursor_start atoi req.cursor (split_lines s))) [
        | inl e ↦ rw (e, audit_query) (inl (refl, unfold answers in rw (e, answers)))
        | inr (start, e) ↦
            rw (e, audit_query)
              (Paged-Scanned req s _ _ back
                (clamp_start-lt start (split_lines s) (lines_nonempty s))
                (answers-some req s start e)
                (scan-Scanned parse_time itoa req (clamp_limit req.limit) (split_lines s) _ []
                  (clamp_limit_bounds req.limit).0))
      ]
