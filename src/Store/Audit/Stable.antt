-- ===== src/Store/Audit/Stable.antt =====
-- A cursor means the same page after new events have been appended to the log.
use fado.Base.{
  sym, append_assoc, ap, ◌∙◌, nat_eq, length-append, eq_iff, ◌==◌, ◌∷◌, Bool-cases, arith,
  Option-cases, ◌≡◌, ◌≤◌, ◌++◌, ◌≢◌, ◌<◌, Option, zero, suc, [], some, inl, inr, refl, ℕ, List,
  String, ℤ, get_elem?, length, pos,
}
use fado.Protocol.{AuditEvent, AuditQueryRequest}
use fado.Store.{Store, Line, blank}
use fado.Store.Audit.{
  matched, scan, split_lines, cursor_start, clamp_start, clamp_limit, audit_query,
}

get_elem?-append {ℓ} :
    {A : Type ℓ} (xs ys zs : List A) (i : ℕ)
    → i < length xs
    → get_elem? (xs ++ ys) i ≡ get_elem? (xs ++ zs) i
get_elem?-append [] ys zs i h = absurd (omega arith)
get_elem?-append (x ∷ xs) ys zs zero h = refl
get_elem?-append (x ∷ xs) ys zs (suc i) h = get_elem?-append xs ys zs i (omega arith)

module _ (parse_time : String → Option ℤ) (itoa : ℕ → String) (req : AuditQueryRequest) (limit : ℕ)
    (log xs ys : List Line) where
  matched_prefix :
      (i : ℕ)
      → i < length log
      → matched parse_time req (log ++ xs) i ≡ matched parse_time req (log ++ ys) i
  unfolding matched
  matched_prefix i h = rw (get_elem?-append log xs ys i h, matched)

  scan_prefix :
      (n : ℕ) (items : List AuditEvent)
      → n ≤ length log
      → scan parse_time itoa req limit (log ++ xs) n items
        ≡ scan parse_time itoa req limit (log ++ ys) n items
  unfolding scan
  scan_prefix zero items h = refl
  scan_prefix (suc i) items h = elim (Option-cases (matched parse_time req (log ++ ys) i)) [
    | inl e ↦ rw (matched_prefix i h, e, scan) (scan_prefix i items (omega arith))
    | inr (ev, e) ↦ elim (Bool-cases (length (items ++ ev ∷ []) == limit)) [
      | inl full ↦ rw (matched_prefix i h, e, scan, full)
      | inr more ↦
          rw (matched_prefix i h, e, scan, more) (scan_prefix i (items ++ ev ∷ []) (omega arith))
    ]
  ]

audit_query_at :
    (parse_time atoi : String → Option ℤ) (itoa : ℕ → String) (req : AuditQueryRequest) (s : Store)
    (k : ℕ)
    → req.cursor ≢ ""
    → atoi req.cursor ≡ some (pos k)
    → k < length s.audit
    → audit_query parse_time atoi itoa req s
      ≡ scan parse_time itoa req (clamp_limit req.limit) (split_lines s) (suc k) []
unfolding audit_query
audit_query_at parse_time atoi itoa req s k ne read below =
    let start : cursor_start atoi req.cursor (split_lines s) ≡ some k =
      unfold cursor_start in ground (arith, read, eq_iff req.cursor "") in
    let stays : clamp_start k (split_lines s) ≡ k =
      unfold clamp_start in ground (arith, length-append s.audit (blank ∷ [])) in
    rw (start, audit_query, stays)

-- Where a query's cursor is the index of a line of the log, its page stays the same when lines are
-- appended to the log.
pub audit_query_stable :
    (parse_time atoi : String → Option ℤ) (itoa : ℕ → String) (req : AuditQueryRequest) (s : Store)
    (more : List Line) (k : ℕ)
    → req.cursor ≢ ""
    → atoi req.cursor ≡ some (pos k)
    → k < length s.audit
    → audit_query parse_time atoi itoa req (record s { audit = s.audit ++ more })
      ≡ audit_query parse_time atoi itoa req s
audit_query_stable parse_time atoi itoa req s more k ne read below =
    let longer = record s { audit = s.audit ++ more } in
    audit_query_at parse_time atoi itoa req longer k ne read
      (omega (arith, length-append s.audit more))
    ∙ ap (λ ls. scan parse_time itoa req (clamp_limit req.limit) ls (suc k) [])
        (append_assoc s.audit more (blank ∷ []))
    ∙ scan_prefix parse_time itoa req (clamp_limit req.limit) s.audit (more ++ blank ∷ [])
        (blank ∷ []) (suc k) [] below
    ∙ sym (audit_query_at parse_time atoi itoa req s k ne read below)
