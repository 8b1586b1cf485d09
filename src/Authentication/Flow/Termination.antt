-- ===== src/Authentication/Flow/Termination.antt =====
-- The loop of the executor ends, and runs the rest of the stages in order.
use x_auth_site.Base.{
  ℕ, zero, suc, ◌+◌, ◌≤◌, ◌⊎◌, ◌≡◌, refl, sym, ap, ◌∙◌, inl, inr, true, false, Option, none, some,
  List, [], ◌∷◌, length, All, arith, some_inj,
}
use mathlib.Core.Path.{subst}
use x_auth_site.Authentication.Flow.{
  StageResult, continue, respond, complete, deny, other, FlowExecution, Executed, Stage, Outcome,
  stage_at, advance, stopped, settled, round_of, run_flow,
}

module _ {W X : Type 0} where
  -- A stage that leaves the cursor alone, as `Stage` documents of every stage.
  abbrev pub KeepsCursor : Stage W X → Type 0
  KeepsCursor stage = (w : W) (e : FlowExecution X) → (stage w e).exec.cursor ≡ e.cursor

  abbrev ended : Executed W X → Outcome W X → Option StageResult → Outcome W X
  ended out later none = stopped out deny true
  ended out later (some continue) = later
  ended out later (some other) = later
  ended out later (some respond) = stopped out respond false
  ended out later (some complete) = stopped out complete false
  ended out later (some deny) = stopped out deny false

  settled-ended :
      (out : Executed W X) (later : W → FlowExecution X → Option (Outcome W X)) (rest : Outcome W X)
      (r : Option StageResult)
      → later out.world (advance out.exec) ≡ some rest
      → settled out later r ≡ some (ended out rest r)
  settled-ended out later rest none e = refl
  settled-ended out later rest (some continue) e = e
  settled-ended out later rest (some other) e = e
  settled-ended out later rest (some respond) e = refl
  settled-ended out later rest (some complete) e = refl
  settled-ended out later rest (some deny) e = refl

  -- The stages one after the other, until one answers, ends the flow or fails.
  abbrev pub follow : List (Stage W X) → W → FlowExecution X → Outcome W X
  follow [] w e = record { world = w; exec = e; result = complete; failed = false }
  follow (stage ∷ rest) w e =
      ended (stage w e) (follow rest (stage w e).world (advance (stage w e).exec))
        (stage w e).result

abbrev pub from : {A : Type 0} → ℕ → List A → List A
from zero xs = xs
from (suc n) [] = []
from (suc n) (x ∷ xs) = from n xs

-- The list from a place on: its head is what stands there, if anything does.
from_cases :
    {A : Type 0} (n : ℕ) (xs : List A)
    → ((stage_at xs n ≡ none) × (from n xs ≡ []) × (length xs ≤ n))
      ⊎ ((a : A) × (stage_at xs n ≡ some a)
          × (from n xs ≡ a ∷ from (suc n) xs)
          × (suc n ≤ length xs))
from_cases zero [] = inl (refl, refl, omega arith)
from_cases zero (x ∷ xs) = inr (x, refl, refl, omega arith)
from_cases (suc n) [] = inl (refl, refl, omega arith)
from_cases (suc n) (x ∷ xs) = elim (from_cases n xs) [
  | inl (e, f, le) ↦ inl (e, f, omega arith)
  | inr (a, e, f, lt) ↦ inr (a, e, f, omega arith)
]

All-stage_at :
    {A : Type 0} (P : A → Type 0) (n : ℕ) (xs : List A) (a : A)
    → All P xs
    → stage_at xs n ≡ some a
    → P a
All-stage_at P n [] a h e = absurd (cc e)
All-stage_at P zero (x ∷ xs) a h e = subst P (some_inj e) h.0
All-stage_at P (suc n) (x ∷ xs) a h e = All-stage_at P n xs a h.1 e

module _ {W X : Type 0} (stages : List (Stage W X)) (keep : All KeepsCursor stages) where
  -- When every stage leaves the cursor alone, the executor ends within one round more than the stages
  -- that are left, and does what these stages do one after the other: it stops at the first that
  -- answers, ends the flow or fails, and completes when none is left.
  pub run_flow-follow :
      (n : ℕ) (w : W) (e : FlowExecution X)
      → length stages ≤ e.cursor + n
      → run_flow stages (suc n) w e ≡ some (follow (from e.cursor stages) w e)
  unfolding run_flow
  run_flow-follow zero w e enough = elim (from_cases e.cursor stages) [
    | inl (none_left, rest, _) ↦
        ap (round_of w e (λ w' e'. run_flow stages zero w' e')) none_left
        ∙ ap (λ l. some (follow l w e)) (sym rest)
    | inr (_, _, _, lt) ↦ absurd (omega arith)
  ]
  run_flow-follow (suc n) w e enough = elim (from_cases e.cursor stages) [
    | inl (none_left, rest, _) ↦
        ap (round_of w e (λ w' e'. run_flow stages (suc n) w' e')) none_left
        ∙ ap (λ l. some (follow l w e)) (sym rest)
    | inr (stage, here, rest, lt) ↦
        let kept : (stage w e).exec.cursor ≡ e.cursor =
          All-stage_at KeepsCursor e.cursor stages stage keep here w e in
        let later = run_flow-follow n (stage w e).world (advance (stage w e).exec) (omega arith) in
        let on : from (suc (stage w e).exec.cursor) stages ≡ from (suc e.cursor) stages =
          ap (λ k. from (suc k) stages) kept in
        ap (round_of w e (λ w' e'. run_flow stages (suc n) w' e')) here
        ∙ settled-ended (stage w e) (λ w' e'. run_flow stages (suc n) w' e') _ (stage w e).result
            (later ∙ ap (λ l. some (follow l (stage w e).world (advance (stage w e).exec))) on)
        ∙ ap (λ l. some (follow l w e)) (sym rest)
  ]
