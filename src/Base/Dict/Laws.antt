-- ===== src/Base/Dict/Laws.antt =====
-- Laws of the maps of Base/Dict: each operation seen through `lookup`, and `IsDistinct` kept.
use Prim.Native.String.{String}
use mathlib.Core.Path.{◌≡◌, refl, sym}
use mathlib.Core.Logic.{inl, inr}
use mathlib.Core.Bool.{Bool, true}
use mathlib.Core.Option.{Option, none, some}
use mathlib.Core.List.{[], ◌∷◌}
use native.Mathlib.Omega.{arith}
use x_auth_site.Base.Tests.{if◌then◌else◌, str_eq, str_eq_iff, str_eq_refl, Bool-cases, some_inj}
use x_auth_site.Base.Lists.{All, Among}
use x_auth_site.Base.Dict.{Dict, lookup, insert, delete, keep_if, values_where, guarded, IsDistinct}

module _ {ℓ} {V : Type ℓ} where
  pub lookup-insert :
      (k j : String) (v : V) (m : Dict V)
      → lookup j (insert k v m) ≡ (if str_eq k j then some v else lookup j m)
  unfolding lookup insert
  lookup-insert k j v [] = refl
  lookup-insert k j v ((i, w) ∷ m) =
      ground (arith, str_eq_iff k j, str_eq_iff i k, str_eq_iff i j, lookup-insert k j v m)

  pub lookup-insert_self : (k : String) (v : V) (m : Dict V) → lookup k (insert k v m) ≡ some v
  lookup-insert_self k v m = simp (lookup-insert, str_eq_refl)

  pub lookup-delete :
      (k j : String) (m : Dict V)
      → lookup j (delete k m) ≡ (if str_eq k j then none else lookup j m)
  unfolding lookup delete
  lookup-delete k j [] = ground arith
  lookup-delete k j ((i, w) ∷ m) =
      ground (arith, str_eq_iff k j, str_eq_iff i k, str_eq_iff i j, lookup-delete k j m)

  pub lookup-keep_if-none :
      (p : V → Bool) (j : String) (m : Dict V) → lookup j m ≡ none → lookup j (keep_if p m) ≡ none
  unfolding lookup keep_if
  lookup-keep_if-none p j [] h = refl
  lookup-keep_if-none p j ((i, w) ∷ m) h = ground (arith, lookup-keep_if-none p j m)

  pub lookup-keep_if :
      (p : V → Bool) (j : String) (m : Dict V)
      → IsDistinct m
      → lookup j (keep_if p m) ≡ guarded p (lookup j m)
  unfolding lookup keep_if
  lookup-keep_if p j [] d = refl
  lookup-keep_if p j ((i, w) ∷ m) d =
      ground (arith, str_eq_iff i j, lookup-keep_if p j m d.1, lookup-keep_if-none p j m)

  pub insert-IsDistinct :
      (k : String) (v : V) (m : Dict V) → IsDistinct m → IsDistinct (insert k v m)
  unfolding lookup insert
  insert-IsDistinct k v [] d = (refl, tt)
  insert-IsDistinct k v ((i, w) ∷ m) d =
      ground
        (arith, str_eq_iff k i, str_eq_iff i k, lookup-insert k i v m, insert-IsDistinct k v m d.1)

  pub delete-IsDistinct : (k : String) (m : Dict V) → IsDistinct m → IsDistinct (delete k m)
  unfolding delete
  delete-IsDistinct k [] d = tt
  delete-IsDistinct k ((i, w) ∷ m) d =
      ground (arith, lookup-delete k i m, delete-IsDistinct k m d.1)

  pub keep_if-IsDistinct : (p : V → Bool) (m : Dict V) → IsDistinct m → IsDistinct (keep_if p m)
  unfolding keep_if
  keep_if-IsDistinct p [] d = tt
  keep_if-IsDistinct p ((i, w) ∷ m) d =
      ground (arith, lookup-keep_if-none p i m, keep_if-IsDistinct p m d.1)

  pub guarded-some : (p : V → Bool) (o : Option V) (v : V) → guarded p o ≡ some v → o ≡ some v
  guarded-some p o v e = ground arith

  pub values_where-All :
      (P : V → Type 0) (p : V → Bool) (m : Dict V)
      → IsDistinct m
      → ((k : String) (v : V) → lookup k m ≡ some v → p v ≡ true → P v)
      → All P (values_where p m)
  unfolding values_where lookup
  values_where-All P p [] d h = tt
  values_where-All P p ((k, w) ∷ m) (absent, d) h =
      let rest = values_where-All P p m d (λ j v e t. h j v (ground (arith, str_eq_iff k j)) t) in
      elim (Bool-cases (p w)) [
        | inl pass ↦ rw pass (h k w (rw (str_eq_refl k) refl) pass, rest)
        | inr fail ↦ rw fail rest
      ]

pub lookup-Among :
    {V : Type 0} (p : V → Bool) (k : String) (v : V) (m : Dict V)
    → lookup k m ≡ some v
    → p v ≡ true
    → Among v (values_where p m)
unfolding values_where lookup
lookup-Among p k v [] e t = ground arith
lookup-Among p k v ((j, w) ∷ m) e t = elim (Bool-cases (str_eq j k)) [
  | inl here ↦
      let same : w ≡ v = some_inj (rw here at e) in
      let pass : p w ≡ true = rw same t in rw pass (inl (sym same))
  | inr later ↦
      let rest = lookup-Among p k v m (rw later at e) t in
      elim (Bool-cases (p w)) [ inl pass ↦ rw pass (inr rest) | inr fail ↦ rw fail rest ]
]
