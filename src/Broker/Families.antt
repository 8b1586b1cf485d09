-- ===== src/Broker/Families.antt =====
-- The family of an install: the tokens that its code grant and the refresh grants after it have stored.
use x_auth_site.Base.{
  ℕ, ◌≡◌, refl, sym, ap, ◌∙◌, ◌≢◌, ◌⊎◌, inl, inr, String, Bool, true, false, Option, none, some,
  some_inj, is_some, arith, str_eq, str_eq_refl, str_eq_iff, Bool-cases, Option-cases, List, [],
  ◌∷◌, if◌then◌else◌,
}
use x_auth_site.Base.Dict.{IsDistinct, Dict, lookup, insert, delete, keep_if, values_where, guarded}
use x_auth_site.Base.Dict.Laws.{
  lookup-insert, lookup-delete, lookup-keep_if, guarded-some, insert-IsDistinct, delete-IsDistinct,
  keep_if-IsDistinct,
}
use x_auth_site.Broker.Store.{TokenRecord, MemStorage, first_of, get_token_by_refresh}
use x_auth_site.Broker.Runs.Tokens.{TokenChange, unchanged, dropped, deleted, first_issued, renewed}
pub mod Origin
pub mod Rotation

-- The tokens have distinct keys, each stored under its own access token.
pub record TokensFit (m : Dict TokenRecord) : Type 0 where
  pub distinct : IsDistinct m
  pub keyed : (k : String) (t : TokenRecord) → lookup k m ≡ some t → t.access_token ≡ k

-- An unrotated token.
pub record Live (m : Dict TokenRecord) (access : String) (t : TokenRecord) : Type 0 where
  pub stored : lookup access m ≡ some t
  pub unrotated : is_some t.rotated_at ≡ false

-- An install has one live token at most.
abbrev pub OneLive : Dict TokenRecord → Type 0
OneLive m =
    (a a' : String) (t t' : TokenRecord)
    → Live m a t
    → Live m a' t'
    → t.install_id ≡ t'.install_id
    → a ≡ a'

-- No token of the install is stored.
abbrev pub IsEnded : String → Dict TokenRecord → Type 0
IsEnded id m = (a : String) (t : TokenRecord) → lookup a m ≡ some t → t.install_id ≢ id

pub true_not_false : {b : Bool} → b ≡ true → b ≢ false
true_not_false yes_true yes_false = cc (yes_true, yes_false)

pub lookup_later :
    (k a : String) (v t : TokenRecord) (m : Dict TokenRecord)
    → lookup k m ≡ none
    → lookup a m ≡ some t
    → lookup a ((k, v) ∷ m) ≡ some t
unfolding lookup
lookup_later k a v t m absent e = elim (Bool-cases (str_eq k a)) [
  | inl same ↦ ground (arith, str_eq_iff k a)
  | inr other ↦ rw other e
]

pub first_of-lookup :
    (p : TokenRecord → Bool) (m : Dict TokenRecord) (t : TokenRecord)
    → IsDistinct m
    → first_of (values_where p m) ≡ some t
    → (k : String) × (lookup k m ≡ some t) × (p t ≡ true)
unfolding values_where lookup
first_of-lookup p [] t d e = ground arith
first_of-lookup p ((k, v) ∷ m) t d e = elim (Bool-cases (p v)) [
  | inl here ↦
      let now : some v ≡ some t = (rw here refl) ∙ e in
      (k, rw (str_eq_refl k) now, rw (sym (some_inj now)) here)
  | inr other ↦
      let later : first_of (values_where p m) ≡ some t = (rw other refl) ∙ e in
      let (a, stored, fits) = first_of-lookup p m t d.1 later in
      (a, lookup_later k a v t m d.0 stored, fits)
]

pub lookup-insert_cases :
    (k a : String) (v t : TokenRecord) (m : Dict TokenRecord)
    → lookup a (insert k v m) ≡ some t
    → ((a ≡ k) × (t ≡ v)) ⊎ ((a ≢ k) × (lookup a m ≡ some t))
lookup-insert_cases k a v t m e = elim (Bool-cases (str_eq k a)) [
  | inl same ↦ inl (
    sym ((str_eq_iff k a).0 same),
    sym (some_inj (sym (lookup-insert k a v m ∙ rw same refl) ∙ e)),
  )
  | inr other ↦
      inr (ground (arith, str_eq_iff k a), sym (lookup-insert k a v m ∙ rw other refl) ∙ e)
]

pub lookup-deleted :
    (k a : String) (t : TokenRecord) (m : Dict TokenRecord)
    → lookup a (delete k m) ≡ some t
    → lookup a m ≡ some t
lookup-deleted k a t m e = elim (Bool-cases (str_eq k a)) [
  | inl same ↦ ground (arith, lookup-delete k a m)
  | inr other ↦ ground (arith, lookup-delete k a m)
]
