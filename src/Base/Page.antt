-- ===== src/Base/Page.antt =====
-- A page of a sorted list: the first items up to a limit, where a limit of 0 is none.
use Prim.Native.Nat.{ℕ, zero, suc, ◌≤◌, ◌<◌}
use mathlib.Core.Path.{◌≡◌}
use mathlib.Core.Logic.{◌⊎◌, inl, inr}
use mathlib.Core.Bool.{◌&&◌}
use mathlib.Core.List.{List, [], ◌∷◌}
use native.Mathlib.Omega.{arith}
use x_auth_site.Base.Tests.{if◌then◌else◌, ltb, Bool-cases}
use x_auth_site.Base.Lists.{length, take, length-take, All, Among}
use x_auth_site.Base.Sort.{IsSorted, take-All, take-IsSorted, All-Among}

abbrev pub page : {A : Type 0} → ℕ → List A → List A
page limit out = if ltb 0 limit && ltb limit (length out) then take limit out else out

pub page-All : {A : Type 0} (P : A → Type 0) (n : ℕ) (xs : List A) → All P xs → All P (page n xs)
page-All P n xs h = elim (Bool-cases (ltb 0 n && ltb n (length xs))) [
  | inl more ↦ rw more (take-All P n xs h)
  | inr whole ↦ rw whole h
]

pub page-IsSorted :
    {A : Type 0} (R : A → A → Type 0) (n : ℕ) (xs : List A) → IsSorted R xs → IsSorted R (page n xs)
page-IsSorted R n xs h = elim (Bool-cases (ltb 0 n && ltb n (length xs))) [
  | inl more ↦ rw more (take-IsSorted R n xs h)
  | inr whole ↦ rw whole h
]

pub length-page-le : {A : Type 0} (n : ℕ) (xs : List A) → 0 < n → length (page n xs) ≤ n
length-page-le n xs h = elim (Bool-cases (ltb 0 n && ltb n (length xs))) [
  | inl more ↦ rw more (omega (arith, length-take n xs))
  | inr whole ↦ rw whole (ground arith)
]

Among-take :
    {A : Type 0} (R : A → A → Type 0) (a : A) (n : ℕ) (xs : List A)
    → IsSorted R xs
    → Among a xs
    → Among a (take n xs) ⊎ All (λ b. R b a) (take n xs)
Among-take R a zero xs h m = inr tt
Among-take R a (suc n) [] h m = absurd m
Among-take R a (suc n) (x ∷ xs) h (inl e) = inl (inl e)
Among-take R a (suc n) (x ∷ xs) h (inr m) = elim (Among-take R a n xs h.1 m) [
  | inl there ↦ inl (inr there)
  | inr after ↦ inr (All-Among (R x) a xs h.0 m, after)
]

pub Among-page :
    {A : Type 0} (R : A → A → Type 0) (a : A) (n : ℕ) (xs : List A)
    → IsSorted R xs
    → Among a xs
    → Among a (page n xs) ⊎ All (λ b. R b a) (page n xs)
Among-page R a n xs h m = elim (Bool-cases (ltb 0 n && ltb n (length xs))) [
  | inl more ↦ rw more (Among-take R a n xs h m)
  | inr whole ↦ rw whole (inl m)
]

pub page_whole :
    {A : Type 0} (a : A) (n : ℕ) (xs : List A) → n ≡ 0 → Among a xs → Among a (page n xs)
page_whole a n xs z m = rw z m
