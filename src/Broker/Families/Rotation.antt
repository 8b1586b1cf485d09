-- ===== src/Broker/Families/Rotation.antt =====
-- What a step keeps: tokens filed under their own access token, and one live token for an install.
use x_auth_site.Base.{ℕ, ◌≡◌, refl, sym, ap, ◌∙◌, ◌≢◌, ◌⊎◌, inl, inr, String, Option, some, is_some}
use x_auth_site.Base.Dict.{Dict, lookup, insert}
use x_auth_site.Base.Dict.Laws.{
  lookup-keep_if, guarded-some, insert-IsDistinct, delete-IsDistinct, keep_if-IsDistinct,
}
use x_auth_site.Broker.Store.{TokenRecord, MemStorage}
use x_auth_site.Broker.Runs.Tokens.{TokenChange, unchanged, dropped, deleted, first_issued, renewed}
use x_auth_site.Broker.Families.{
  TokensFit, Live, OneLive, IsEnded, true_not_false, lookup-insert_cases, lookup-deleted,
}
use x_auth_site.Broker.Families.Origin.{refreshed-stored}

module _ {M : Type 0} (fresh : Option String) (s : MemStorage M) where
  pub insert-TokensFit :
      (u : TokenRecord) (m : Dict TokenRecord) → TokensFit m → TokensFit (insert u.access_token u m)
  insert-TokensFit u m fit = record {
    distinct = insert-IsDistinct u.access_token u m fit.distinct;
    keyed = λ a t e. elim (lookup-insert_cases u.access_token a u t m e) [
      | inl (here, same) ↦ ap (λ x. x.access_token) same ∙ sym here
      | inr (_, kept) ↦ fit.keyed a t kept
    ];
  }

  pub change-TokensFit :
      (m : Dict TokenRecord) → TokensFit s.tokens → TokenChange fresh s m → TokensFit m
  change-TokensFit _ fit unchanged = fit
  change-TokensFit _ fit (dropped p) = record {
    distinct = keep_if-IsDistinct p s.tokens fit.distinct;
    keyed = λ a t e.
        fit.keyed a t (
          guarded-some p (lookup a s.tokens) t
            (sym (lookup-keep_if p a s.tokens fit.distinct) ∙ e));
  }
  change-TokensFit _ fit (deleted k) = record {
    distinct = delete-IsDistinct k s.tokens fit.distinct;
    keyed = λ a t e. fit.keyed a t (lookup-deleted k a t s.tokens e);
  }
  change-TokensFit _ fit (first_issued u new) = insert-TokensFit u s.tokens fit
  change-TokensFit _ fit (renewed presented old u now found live family) =
      insert-TokensFit u _ (insert-TokensFit (record old { rotated_at = some now }) s.tokens fit)

  renewed-Live :
      (old u t : TokenRecord) (now : ℕ) (a : String)
      → Live
          (insert u.access_token u
            (insert old.access_token (record old { rotated_at = some now }) s.tokens))
          a
          t
      → ((a ≡ u.access_token) × (t ≡ u)) ⊎ (Live s.tokens a t × (a ≢ old.access_token))
  renewed-Live old u t now a live = elim (lookup-insert_cases u.access_token a u t _ live.stored) [
    | inl here ↦ inl here
    | inr (_, kept) ↦ elim (lookup-insert_cases old.access_token a _ t s.tokens kept) [
      | inl (_, same) ↦
          absurd (true_not_false refl (sym (ap (λ t. is_some t.rotated_at) same) ∙ live.unrotated))
      | inr (elsewhere, older) ↦
          inr (record { stored = older; unrotated = live.unrotated }, elsewhere)
    ]
  ]

  renewed-OneLive :
      (old u : TokenRecord) (now : ℕ)
      → Live s.tokens old.access_token old
      → u.install_id ≡ old.install_id
      → OneLive s.tokens
      → OneLive (
          insert u.access_token u
            (insert old.access_token (record old { rotated_at = some now }) s.tokens))
  renewed-OneLive old u now live family one a a' t t' l l' same =
      elim (renewed-Live old u t now a l) [
        | inl (here, is_new) ↦ elim (renewed-Live old u t' now a' l') [
          | inl (here', _) ↦ here ∙ sym here'
          | inr (older, elsewhere) ↦ absurd (
              elsewhere (
                one a' old.access_token t' old older live
                  (sym same ∙ ap (λ x. x.install_id) is_new ∙ family)))
        ]
        | inr (older, elsewhere) ↦ elim (renewed-Live old u t' now a' l') [
          | inl (_, is_new) ↦ absurd (
              elsewhere (
                one a old.access_token t old older live
                  (same ∙ ap (λ x. x.install_id) is_new ∙ family)))
          | inr (older', _) ↦ one a a' t t' older older' same
        ]
      ]

  first-OneLive :
      (u : TokenRecord)
      → IsEnded u.install_id s.tokens
      → OneLive s.tokens
      → OneLive (insert u.access_token u s.tokens)
  first-OneLive u unused one a a' t t' l l' same =
      elim (lookup-insert_cases u.access_token a u t s.tokens l.stored) [
        | inl (here, is_new) ↦
            elim (lookup-insert_cases u.access_token a' u t' s.tokens l'.stored) [
              | inl (here', _) ↦ here ∙ sym here'
              | inr (_, older) ↦
                  absurd (unused a' t' older (sym same ∙ ap (λ x. x.install_id) is_new))
            ]
        | inr (_, older) ↦ elim (lookup-insert_cases u.access_token a' u t' s.tokens l'.stored) [
          | inl (_, is_new) ↦ absurd (unused a t older (same ∙ ap (λ x. x.install_id) is_new))
          | inr (_, older') ↦
              one a a' t t' (record { stored = older; unrotated = l.unrotated })
                (record { stored = older'; unrotated = l'.unrotated }) same
        ]
      ]

  kept-OneLive :
      (m : Dict TokenRecord)
      → ((a : String) (t : TokenRecord) → lookup a m ≡ some t → lookup a s.tokens ≡ some t)
      → OneLive s.tokens
      → OneLive m
  kept-OneLive m kept one a a' t t' l l' same =
      one a a' t t' (record { stored = kept a t l.stored; unrotated = l.unrotated })
        (record { stored = kept a' t' l'.stored; unrotated = l'.unrotated }) same

  pub change-OneLive :
      (m : Dict TokenRecord)
      → TokensFit s.tokens
      → ((id : String) → fresh ≡ some id → IsEnded id s.tokens)
      → TokenChange fresh s m
      → OneLive s.tokens
      → OneLive m
  change-OneLive _ fit unused unchanged one = one
  change-OneLive _ fit unused (dropped p) one =
      kept-OneLive _
        (λ a t e.
          guarded-some p (lookup a s.tokens) t (sym (lookup-keep_if p a s.tokens fit.distinct) ∙ e))
        one
  change-OneLive _ fit unused (deleted k) one =
      kept-OneLive _ (λ a t e. lookup-deleted k a t s.tokens e) one
  change-OneLive _ fit unused (first_issued u new) one =
      first-OneLive u (unused u.install_id new) one
  change-OneLive _ fit unused (renewed presented old u now found live family) one =
      renewed-OneLive old u now
        (record { stored = refreshed-stored fresh s presented old fit found; unrotated = live })
        family one
