-- ===== src/Service/Runs/Environment.antt =====
-- go/internal/service/service.go: the environment that a command gets from scrubEnv.
use fado.Base.{
  ◌≡◌, inl, inr, refl, sym, ap, Bool, true, false, not, ◌&&◌, Option, none, some, List, [], ◌∷◌,
  String, arith, Bool-cases, if◌then◌else◌, ◌==◌, eq_iff, string_eq, nat_eq, any, keep_if,
}
use fado.Policy.{Policy}
use fado.Service.Pins.Entry.{safe_path}
use fado.Service.Runs.{env_denied, env_kept, scrub_env}

-- A lookup in a list of names and values.
unfoldable pub value_of : String → List (String × String) → Option String
value_of k [] = none
value_of k ((n, v) ∷ env) = let rest = value_of k env in if n == k then some v else rest

absorb : (a b : Bool) → ((a && b) && b) ≡ (a && b)
absorb true true = refl
absorb true false = refl
absorb false b = refl

value_of-keep_if :
    (f : String → Bool) (k : String) (env : List (String × String))
    → value_of k (keep_if (λ e. f e.0) env) ≡ (if f k then value_of k env else none)
unfolding value_of
value_of-keep_if f k [] = ground arith
value_of-keep_if f k ((n, v) ∷ env) =
    let rest = value_of-keep_if f k env in
    elim (Bool-cases (n == k)) [
      | inl e ↦ let same : f n ≡ f k = ap f ((eq_iff n k).0 e) in ground (arith, rest, e, same)
      | inr e ↦ ground (arith, rest, e)
    ]

env_kept-env_denied :
    (p : Policy) (k : String) → (env_kept p k && not (env_denied k)) ≡ env_kept p k
unfolding env_kept
env_kept-env_denied p k =
    absorb (any (λ w. w == k) ("TERM" ∷ "LANG" ∷ "LC_ALL" ∷ "LC_MESSAGES" ∷ "TZ" ∷ p.env_keep))
      (not (env_denied k))

differs : (k : String) → (k == "PATH") ≡ false → ("PATH" == k) ≡ false
differs k e = elim (Bool-cases ("PATH" == k)) [
  | inl t ↦ absurd (cc (e, (eq_iff k "PATH").1 (sym ((eq_iff "PATH" k).0 t))))
  | inr f ↦ f
]

-- In the environment that a command gets, PATH is the safe path; any other name has its value in the
-- request if it is one that is kept and no denied one, and none else.
pub scrub_env-value_of :
    (p : Policy) (env : List (String × String)) (k : String)
    → value_of k (scrub_env p env).0 ≡ (
        if k == "PATH"
        then some safe_path
        else if env_kept p k && not (env_denied k)
        then value_of k env
        else none)
unfolding scrub_env value_of
scrub_env-value_of p env k =
    let kept = value_of-keep_if (λ n. env_kept p n && not (n == "PATH")) k env in
    elim (Bool-cases (k == "PATH")) [
      | inl e ↦ rw (e, (eq_iff "PATH" k).1 (sym ((eq_iff k "PATH").0 e))) refl
      | inr e ↦
          let other : ("PATH" == k) ≡ false = differs k e in
          rw (e, other, kept, env_kept-env_denied p k) (ground arith)
    ]
