-- ===== src/Base/Lists.antt =====
-- Lists measured by native numbers, under the library's names, and predicates on their items.
use Prim.Native.Nat.{ℕ, zero, suc, ◌+◌, ◌≤◌, min}
use mathlib.Core.Path.{◌≡◌}
use mathlib.Core.Logic.{◌⊎◌, inl, inr}
use mathlib.Core.Bool.{Bool, true, false, ◌||◌}
use mathlib.Core.List.{List, [], ◌∷◌, ◌++◌}
use native.Mathlib.Omega.{arith}
use x_auth_site.Base.Tests.{if◌then◌else◌, Bool-cases}

module _ {ℓ} {A : Type ℓ} where
  abbrev pub length : List A → ℕ
  length [] = 0
  length (x ∷ xs) = suc (length xs)

  abbrev pub take : ℕ → List A → List A
  take zero xs = []
  take (suc n) [] = []
  take (suc n) (x ∷ xs) = x ∷ take n xs

  -- The items that pass a test, in order: a Go loop with `continue` and `append`.
  abbrev pub keep : (A → Bool) → List A → List A
  keep p [] = []
  keep p (x ∷ xs) = if p x then x ∷ keep p xs else keep p xs

  abbrev pub any : (A → Bool) → List A → Bool
  any p [] = false
  any p (x ∷ xs) = p x || any p xs

  abbrev pub All {κ} : (A → Type κ) → List A → Type κ
  All P [] = Unit
  All P (x ∷ xs) = P x × All P xs

  pub length-append : (xs ys : List A) → length (xs ++ ys) ≡ length xs + length ys
  length-append [] ys = omega arith
  length-append (x ∷ xs) ys = omega (arith, length-append xs ys)

  pub length-keep-le : (p : A → Bool) (xs : List A) → length (keep p xs) ≤ length xs
  length-keep-le p [] = omega arith
  length-keep-le p (x ∷ xs) = ground (arith, length-keep-le p xs)

  pub length-take : (n : ℕ) (xs : List A) → length (take n xs) ≡ min n (length xs)
  length-take zero xs = omega arith
  length-take (suc n) [] = omega arith
  length-take (suc n) (x ∷ xs) = omega (arith, length-take n xs)

-- Membership by recursion, which the tactics take apart.
abbrev pub Among : {A : Type 0} → A → List A → Type 0
Among a [] = ⊥
Among a (x ∷ xs) = (a ≡ x) ⊎ Among a xs

pub keep-Among :
    {A : Type 0} (p : A → Bool) (a : A) (xs : List A)
    → Among a (keep p xs)
    → Among a xs × (p a ≡ true)
keep-Among p a [] h = absurd h
keep-Among p a (x ∷ xs) h = elim (Bool-cases (p x)) [
  | inl pass ↦ elim (rw pass at h) [
    | inl here ↦ (inl here, rw here pass)
    | inr later ↦ let (m, t) = keep-Among p a xs later in (inr m, t)
  ]
  | inr fail ↦ let (m, t) = keep-Among p a xs (rw fail at h) in (inr m, t)
]

pub Among-keep :
    {A : Type 0} (p : A → Bool) (a : A) (xs : List A)
    → Among a xs
    → p a ≡ true
    → Among a (keep p xs)
Among-keep p a [] h t = absurd h
Among-keep p a (x ∷ xs) (inl e) t = let px : p x ≡ true = rw (← e) t in rw px (inl e)
Among-keep p a (x ∷ xs) (inr m) t = elim (Bool-cases (p x)) [
  | inl pass ↦ rw pass (inr (Among-keep p a xs m t))
  | inr fail ↦ rw fail (Among-keep p a xs m t)
]
