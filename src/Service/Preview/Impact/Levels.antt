-- ===== src/Service/Preview/Impact/Levels.antt =====
-- go/internal/service/preview.go: PreviewImpact's level.
use fado.Base.{
  Bool, true, false, ◌||◌, ◌&&◌, Option, none, some, Option-cases, Bool-cases, List, [], ◌∷◌,
  String, ◌==◌, string_eq, any, ltb, arith, ◌≡◌, refl, ap, ◌∙◌, inl, inr,
}
use fado.Service.Host.{Host}
use fado.Service.Preview.Commands.{classify_command}
use fado.Service.Preview.Impact.{
  Gathered, nothing, affect, walked, counted, first, level_of, marked, is_critical_target,
  target_paths, gather_path, gather_paths, gather, or_dot, working_dir, preview_impact,
}

abbrev is_some {ℓ} : {A : Type ℓ} → Option A → Bool
is_some none = false
is_some (some a) = true

first-is_some : (old new : Option String) → is_some (first old new) ≡ (is_some old || is_some new)
first-is_some none new = refl
first-is_some (some old) new = refl

walked_critical :
    (visits : List (Option String)) (g : Gathered)
    → (walked visits g).critical_reason ≡ g.critical_reason
unfolding walked affect
walked_critical [] g = refl
walked_critical (none ∷ visits) g = walked_critical visits g
walked_critical (some p ∷ visits) g = let rest = walked_critical visits (affect p g) in ground arith

level_critical : (g : Gathered) → (level_of g == "critical") ≡ is_some g.critical_reason
unfolding level_of
level_critical g = elim (Option-cases g.critical_reason) [
  | inr (reason, e) ↦ rw (level_of, e) refl
  | inl e ↦ elim (Option-cases g.outside_path) [
    | inr (path, o) ↦ rw (level_of, e, o) refl
    | inl o ↦ elim (Bool-cases (ltb 10 g.affected_count)) [
      | inl b ↦ rw (level_of, e, o, b) refl
      | inr b ↦ rw (level_of, e, o, b) refl
    ]
  ]
]

module _ (os : Host) where
  counted_critical :
      (recursive : Bool) (p : String) (g : Gathered)
      → (counted os recursive p g).critical_reason ≡ g.critical_reason
  unfolding counted affect
  counted_critical recursive p g = let rest = walked_critical (os.walk p) g in ground arith

  -- Whether a target means a critical path.
  abbrev critical : String → String → Bool
  critical cwd raw =
      any (λ p. is_some (is_critical_target os (os.clean p))) (target_paths os cwd raw)

  path_critical :
      (cwd : String) (recursive : Bool) (p : String) (g : Gathered)
      → is_some (gather_path os cwd recursive p g).critical_reason
        ≡ (is_some g.critical_reason || is_some (is_critical_target os (os.clean p)))
  unfolding gather_path
  path_critical cwd recursive p g =
      ap is_some (counted_critical recursive (os.clean p) (marked os cwd (os.clean p) g))
      ∙ first-is_some g.critical_reason (is_critical_target os (os.clean p))

  paths_critical :
      (cwd : String) (recursive : Bool) (ps : List String) (g : Gathered)
      → is_some (gather_paths os cwd recursive ps g).critical_reason
        ≡ (is_some g.critical_reason || any (λ p. is_some (is_critical_target os (os.clean p))) ps)
  unfolding gather_paths
  paths_critical cwd recursive [] g = ground arith
  paths_critical cwd recursive (p ∷ ps) g =
      let rest = paths_critical cwd recursive ps (gather_path os cwd recursive p g) in
      let one = path_critical cwd recursive p g in ground arith

  gather-critical :
      (cwd : String) (recursive : Bool) (raws : List String) (g : Gathered)
      → is_some (gather os cwd recursive raws g).critical_reason
        ≡ (is_some g.critical_reason || any (critical cwd) raws)
  unfolding gather
  gather-critical cwd recursive [] g = ground arith
  gather-critical cwd recursive (raw ∷ raws) g =
      let next = gather_paths os cwd recursive (target_paths os cwd raw) g in
      let rest = gather-critical cwd recursive raws next in
      let one = paths_critical cwd recursive (target_paths os cwd raw) g in ground arith

  -- The level of a command is "critical" exactly where the command is destructive and one of the
  -- paths that its targets mean is critical, whatever the other paths are and however far the walks
  -- go; a destructive command without targets is taken to mean its working directory.
  pub preview_impact-critical :
      (bin : String) (args : List String) (cwd : String) (env : List String)
      → ((preview_impact os (bin ∷ args) cwd env).risk_level == "critical") ≡ (
          (classify_command os.base (os.base bin) (bin ∷ args)).is_destructive
          && any
              (critical (working_dir os cwd))
              (or_dot os (classify_command os.base (os.base bin) (bin ∷ args)).targets))
  unfolding preview_impact
  preview_impact-critical bin args cwd env =
      let c = classify_command os.base (os.base bin) (bin ∷ args) in
      let dir = working_dir os cwd in
      let g = gather os dir c.is_recursive (or_dot os c.targets) nothing in
      let level = level_critical g in
      let found = gather-critical dir c.is_recursive (or_dot os c.targets) nothing in
      elim (Bool-cases c.is_destructive) [ inl t ↦ rw t (level ∙ found) | inr f ↦ rw f refl ]
