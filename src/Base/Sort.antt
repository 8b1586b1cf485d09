-- ===== src/Base/Sort.antt =====
-- Go's `sort.Slice` by insertion. An order that leaves no ties has one sorted list, so the
-- algorithm does not show.
use mathlib.Core.Path.{◌≡◌, refl, sym}
use mathlib.Core.Logic.{inl, inr}
use mathlib.Core.Bool.{Bool, true, false}
use mathlib.Core.List.{List, [], ◌∷◌}
use mathlib.Core.Path.{subst}
use x_auth_site.Base.Tests.{if◌then◌else◌, Bool-cases}
use x_auth_site.Base.Lists.{All, Among, take}
use Prim.Native.Nat.{ℕ, zero, suc}

module _ {A : Type 0} (less : A → A → Bool) where
  unfoldable pub insert_by : A → List A → List A
  insert_by x [] = x ∷ []
  insert_by x (y ∷ ys) = let rest = insert_by x ys in if less y x then y ∷ rest else x ∷ y ∷ ys

  unfoldable pub sort_by : List A → List A
  sort_by [] = []
  sort_by (x ∷ xs) = insert_by x (sort_by xs)

-- Each item stands in the relation to all later ones.
abbrev pub IsSorted : {A : Type 0} → (A → A → Type 0) → List A → Type 0
IsSorted R [] = Unit
IsSorted R (x ∷ xs) = All (R x) xs × IsSorted R xs

pub All_map :
    {A : Type 0} {P Q : A → Type 0} → ((a : A) → P a → Q a) → (xs : List A) → All P xs → All Q xs
All_map f [] h = tt
All_map f (x ∷ xs) h = (f x h.0, All_map f xs h.1)

pub All-Among : {A : Type 0} (P : A → Type 0) (a : A) (xs : List A) → All P xs → Among a xs → P a
All-Among P a [] h m = absurd m
All-Among P a (x ∷ xs) h (inl e) = subst P (sym e) h.0
All-Among P a (x ∷ xs) h (inr m) = All-Among P a xs h.1 m

pub take-All : {A : Type 0} (P : A → Type 0) (n : ℕ) (xs : List A) → All P xs → All P (take n xs)
take-All P zero xs h = tt
take-All P (suc n) [] h = tt
take-All P (suc n) (x ∷ xs) h = (h.0, take-All P n xs h.1)

pub take-IsSorted :
    {A : Type 0} (R : A → A → Type 0) (n : ℕ) (xs : List A) → IsSorted R xs → IsSorted R (take n xs)
take-IsSorted R zero xs h = tt
take-IsSorted R (suc n) [] h = tt
take-IsSorted R (suc n) (x ∷ xs) h = (take-All (R x) n xs h.0, take-IsSorted R n xs h.1)

module _ {A : Type 0} (less : A → A → Bool) where
  insert_by-All :
      (P : A → Type 0) (x : A) (xs : List A) → P x → All P xs → All P (insert_by less x xs)
  unfolding insert_by
  insert_by-All P x [] p h = (p, tt)
  insert_by-All P x (y ∷ ys) p h = elim (Bool-cases (less y x)) [
    | inl e ↦ rw e (h.0, insert_by-All P x ys p h.1)
    | inr e ↦ rw e (p, h)
  ]

  pub sort_by-All : (P : A → Type 0) (xs : List A) → All P xs → All P (sort_by less xs)
  unfolding sort_by
  sort_by-All P [] h = tt
  sort_by-All P (x ∷ xs) h = insert_by-All P x (sort_by less xs) h.0 (sort_by-All P xs h.1)

  insert_by-here : (x : A) (xs : List A) → Among x (insert_by less x xs)
  unfolding insert_by
  insert_by-here x [] = inl refl
  insert_by-here x (y ∷ ys) = elim (Bool-cases (less y x)) [
    | inl e ↦ rw e (inr (insert_by-here x ys))
    | inr e ↦ rw e (inl refl)
  ]

  insert_by-there : (a x : A) (xs : List A) → Among a xs → Among a (insert_by less x xs)
  unfolding insert_by
  insert_by-there a x [] m = absurd m
  insert_by-there a x (y ∷ ys) m = elim (Bool-cases (less y x)) [
    | inl e ↦ rw e (elim m [ inl here ↦ inl here | inr later ↦ inr (insert_by-there a x ys later) ])
    | inr e ↦ rw e (inr m)
  ]

  pub Among-sort_by : (a : A) (xs : List A) → Among a xs → Among a (sort_by less xs)
  unfolding sort_by
  Among-sort_by a [] m = absurd m
  Among-sort_by a (x ∷ xs) (inl e) =
      subst (λ b. Among b (insert_by less x (sort_by less xs))) (sym e)
        (insert_by-here x (sort_by less xs))
  Among-sort_by a (x ∷ xs) (inr m) = insert_by-there a x (sort_by less xs) (Among-sort_by a xs m)

  module _ {R : A → A → Type 0} (trans : (a b c : A) → R a b → R b c → R a c)
      (before : (a b : A) → less a b ≡ true → R a b)
      (not_before : (a b : A) → less a b ≡ false → R b a) where
    insert_by-IsSorted : (x : A) (xs : List A) → IsSorted R xs → IsSorted R (insert_by less x xs)
    unfolding insert_by
    insert_by-IsSorted x [] h = (tt, tt)
    insert_by-IsSorted x (y ∷ ys) h = elim (Bool-cases (less y x)) [
      | inl e ↦ rw e (insert_by-All (R y) x ys (before y x e) h.0, insert_by-IsSorted x ys h.1)
      | inr e ↦
          let xy = not_before y x e in rw e ((xy, All_map (λ z yz. trans x y z xy yz) ys h.0), h)
    ]

    pub sort_by-IsSorted : (xs : List A) → IsSorted R (sort_by less xs)
    unfolding sort_by
    sort_by-IsSorted [] = tt
    sort_by-IsSorted (x ∷ xs) = insert_by-IsSorted x (sort_by less xs) (sort_by-IsSorted xs)
