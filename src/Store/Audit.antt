-- ===== src/Store/Audit.antt =====
-- go/internal/store/store.go: AuditQuery and auditMatches over the lines of audit.log. `parse_time` is
-- time.Parse in RFC3339 followed by Unix(); `atoi` and `itoa` are strconv's, `none` being an error.
pub mod Pages
pub mod Stable
use fado.Base.{
  ℕ, zero, suc, ◌+◌, ◌-◌, Bool, true, false, not, ◌&&◌, ◌||◌, Option, none, some, List, [], ◌∷◌,
  ◌++◌, String, ℤ, pos, negsuc, lt_int, is_zero, ltb, leb, if◌then◌else◌, ◌==◌, nat_eq, string_eq,
  length, get_elem?,
}
use fado.Protocol.{AuditEvent, AuditQueryRequest}
use fado.Store.{Store, Line, event, garbage, blank}

abbrev pub default_audit_limit : ℕ
default_audit_limit = 50

abbrev pub max_audit_limit : ℕ
max_audit_limit = 200

unfoldable pub clamp_limit : ℤ → ℕ
clamp_limit (pos n) =
    if n == 0 then default_audit_limit else if ltb max_audit_limit n then max_audit_limit else n
clamp_limit (negsuc n) = default_audit_limit

-- The lines of the log and the empty piece that bytes.SplitAfter gives behind the last newline.
abbrev pub split_lines : Store → List Line
split_lines s = s.audit ++ blank ∷ []

pub record Page : Type 0 where
  pub items : List AuditEvent
  pub next_cursor : String

module _ (parse_time : String → Option ℤ) where
  abbrev pub in_time : ℤ → ℤ → ℤ → Bool
  in_time since until sec =
      if not (is_zero since) && lt_int sec since
      then false
      else if not (is_zero until) && lt_int until sec
      then false
      else true

  unfoldable pub audit_matches : AuditEvent → AuditQueryRequest → Bool
  audit_matches ev req =
      if not (req.ev == "") && not (ev.ev == req.ev)
      then false
      else if not (req.id == "") && not (ev.rid == req.id)
      then false
      else if not (req.uid == 0) && not (ev.uid == req.uid)
      then false
      else if not (is_zero req.since) || not (is_zero req.until)
      then elim (parse_time ev.ts) [ none ↦ false | some sec ↦ in_time req.since req.until sec ]
      else true

  -- The event of line `i`, where it parses and matches.
  unfoldable pub matched : AuditQueryRequest → List Line → ℕ → Option AuditEvent
  matched req lines i = elim (get_elem? lines i) [
    | none ↦ none
    | some l ↦ elim l [
      | event ev ↦ if audit_matches ev req then some ev else none
      | garbage ↦ none
      | blank ↦ none
    ]
  ]

  module _ (itoa : ℕ → String) (req : AuditQueryRequest) (limit : ℕ) (lines : List Line) where
    -- The loop, with `n` lines left below.
    unfoldable pub scan : ℕ → List AuditEvent → Page
    scan zero items = record { items = items; next_cursor = "" }
    scan (suc i) items = elim (matched req lines i) [
      | none ↦ scan i items
      | some ev ↦ elim (length (items ++ ev ∷ []) == limit) [
        | true ↦ record {
          items = items ++ ev ∷ [];
          next_cursor = if ltb 0 i then itoa (i - 1) else "";
        }
        | false ↦ scan i (items ++ ev ∷ [])
      ]
    ]

-- The index at which the loop starts: `none` for a cursor that is refused.
unfoldable pub cursor_start : (String → Option ℤ) → String → List Line → Option ℕ
cursor_start atoi cursor lines =
    if cursor == ""
    then some (length lines - 1)
    else elim (atoi cursor) [ none ↦ none | some n ↦ elim n [ pos k ↦ some k | negsuc k ↦ none ] ]

unfoldable pub clamp_start : ℕ → List Line → ℕ
clamp_start start lines = if leb (length lines) start then length lines - 1 else start

unfoldable pub audit_query :
    (String → Option ℤ) → (String → Option ℤ) → (ℕ → String) → AuditQueryRequest → Store → Page
audit_query parse_time atoi itoa req s =
    let lines = split_lines s in
    elim (cursor_start atoi req.cursor lines) [
      | none ↦ record { items = []; next_cursor = "" }
      | some start ↦
          scan parse_time itoa req (clamp_limit req.limit) lines (suc (clamp_start start lines)) []
    ]
