-- ===== src/Authentication/Sessions/Lifecycle.antt =====
-- A session that was invalidated stays so (sessions.go).
use mathlib.Core.Path.{subst}
use x_auth_site.Base.{
  ℕ, ◌≡◌, refl, sym, ap, ◌∙◌, ◌≢◌, inl, inr, String, not, ◌&&◌, Option, none, some, some_inj,
  is_some, List, [], ◌∷◌, All, arith, str_eq, str_eq_iff, str_eq_ne, Bool-cases, Option-cases,
}
use Prim.Native.String.{◌++◌ as append}
use x_auth_site.Base.Dict.{lookup, insert}
use x_auth_site.Base.Dict.Laws.{lookup-insert}
use x_auth_site.Authentication.Sessions.{
  Session, MemStorage, CreateSessionRequest, UpgradeSessionRequest, owned_session, update_session,
  updated, create_session, get_session, get_user, valid_risk_level, risk_of, new_session, saved,
  closed, create_checked, refresh_found, invalidate_found, upgrade_found, handle_create,
  handle_refresh, handle_invalidate, handle_upgrade,
}

pub data Request : Type 0 where
  creating :
      (tenant : Option String) (body : Option CreateSessionRequest) (uuid : String) (now : ℕ)
      → Request
  refreshing invalidating : (tenant : Option String) (id : String) (now stored : ℕ) → Request
  upgrading :
      (tenant : Option String) (id : String) (body : Option UpgradeSessionRequest) (stored : ℕ)
      → Request

abbrev pub serve : MemStorage → Request → MemStorage
serve s (creating tenant body uuid now) = (handle_create s tenant body uuid now).0
serve s (refreshing tenant id now stored) = (handle_refresh s tenant id now stored).0
serve s (invalidating tenant id now stored) = (handle_invalidate s tenant id now stored).0
serve s (upgrading tenant id body stored) = (handle_upgrade s tenant id body stored).0

abbrev pub run : MemStorage → List Request → MemStorage
run s [] = s
run s (r ∷ rs) = run (serve s r) rs

-- A request that does not create a session under the id.
abbrev pub Avoids : String → Request → Type 0
Avoids id (creating _ _ uuid _) = append "ses_" uuid ≢ id
Avoids id _ = Unit

-- The session stored under the id is invalidated, and was so at `t`.
abbrev pub IsClosed : String → ℕ → MemStorage → Type 0
IsClosed id t s =
    (sess : Session) × (lookup id s.sessions ≡ some sess) × (sess.invalidated_at ≡ some t)

-- Sessions are stored under their ids.
abbrev pub IsFiled : MemStorage → Type 0
IsFiled s = (k : String) (x : Session) → lookup k s.sessions ≡ some x → x.id ≡ k

-- A step stores one session at most: a new one, or one that replaces an open one under its id.
pub data Change (s : MemStorage) (r : Request) : MemStorage → Type 0 where
  unchanged : Change s r s
  made :
      (x : Session)
      → ((id : String) → Avoids id r → x.id ≢ id)
      → Change s r (record s { sessions = insert x.id x s.sessions })
  replaced :
      (old x : Session)
      → lookup old.id s.sessions ≡ some old
      → old.invalidated_at ≡ none
      → x.id ≡ old.id
      → Change s r (record s { sessions = insert x.id x s.sessions })

update_branch :
    (s : MemStorage) (old x : Session) (now : ℕ)
    → lookup old.id s.sessions ≡ some old
    → x.id ≡ old.id
    → x.tenant_id ≡ old.tenant_id
    → update_session s x now ≡ updated s x now (some old)
unfolding update_session
update_branch s old x now stored same_id same_tenant =
    let mine : owned_session x.tenant_id (some old) ≡ some old =
      rw ((str_eq_iff old.tenant_id x.tenant_id).1 (sym same_tenant)) refl in
    ap (λ o. updated s x now (owned_session x.tenant_id o))
      (ap (λ k. lookup k s.sessions) same_id ∙ stored)
    ∙ ap (updated s x now) mine

module _ (s : MemStorage) (filed : IsFiled s) (r : Request) where
  owned-stored :
      (tenant id : String) (x : Session)
      → owned_session tenant (lookup id s.sessions) ≡ some x
      → lookup x.id s.sessions ≡ some x
  owned-stored tenant id x e =
      let stored : lookup id s.sessions ≡ some x = unowned (lookup id s.sessions) e in
      ap (λ k. lookup k s.sessions) (filed id x stored) ∙ stored
    where
      unowned : (o : Option Session) → owned_session tenant o ≡ some x → o ≡ some x
      unowned o e = ground arith

  saved-Change :
      (old x : Session) (now : ℕ)
      → lookup old.id s.sessions ≡ some old
      → old.invalidated_at ≡ none
      → x.id ≡ old.id
      → x.tenant_id ≡ old.tenant_id
      → Change s r (saved (update_session s x now)).0
        × Change s r (closed (update_session s x now)).0
  saved-Change old x now stored live same_id same_tenant =
      let branch = sym (update_branch s old x now stored same_id same_tenant) in
      let row : Session = record x { created_at = old.created_at; updated_at = now } in
      let change : Change s r (record s { sessions = insert x.id row s.sessions }) =
        replaced old row stored live same_id in
      (
        subst (λ u. Change s r (saved u).0) branch change,
        subst (λ u. Change s r (closed u).0) branch change,
      )

  refresh-Change :
      (tenant id : String) (now stored : ℕ) (o : Option Session)
      → owned_session tenant (lookup id s.sessions) ≡ o
      → Change s r (refresh_found s now stored o).0
  refresh-Change tenant id now stored none e = unchanged
  refresh-Change tenant id now stored (some x) e = elim (Option-cases x.invalidated_at) [
    | inl live ↦ rw live (saved-Change x _ stored (owned-stored tenant id x e) live refl refl).0
    | inr (t, done) ↦ rw done unchanged
  ]

  invalidate-Change :
      (tenant id : String) (now stored : ℕ) (o : Option Session)
      → owned_session tenant (lookup id s.sessions) ≡ o
      → Change s r (invalidate_found s now stored o).0
  invalidate-Change tenant id now stored none e = unchanged
  invalidate-Change tenant id now stored (some x) e = elim (Option-cases x.invalidated_at) [
    | inl live ↦ rw live (saved-Change x _ stored (owned-stored tenant id x e) live refl refl).1
    | inr (t, done) ↦ rw done unchanged
  ]

  upgrade-Change :
      (tenant id : String) (u : UpgradeSessionRequest) (stored : ℕ) (o : Option Session)
      → owned_session tenant (lookup id s.sessions) ≡ o
      → Change s r (upgrade_found s u stored o).0
  upgrade-Change tenant id u stored none e = unchanged
  upgrade-Change tenant id u stored (some x) e = elim (Option-cases x.invalidated_at) [
    | inl live ↦
        elim (Bool-cases (not (str_eq u.risk_level "") && not (valid_risk_level u.risk_level))) [
          | inl bad ↦ rw (live, bad) unchanged
          | inr good ↦
              rw (live, good)
                (saved-Change x _ stored (owned-stored tenant id x e) live refl refl).0
        ]
    | inr (t, done) ↦ rw done unchanged
  ]

create-Change :
    (s : MemStorage) (tenant uuid : String) (now : ℕ) (body : Option CreateSessionRequest)
    → Change s (creating (some tenant) body uuid now) (create_checked s tenant uuid now body).0
unfolding create_session
create-Change s tenant uuid now none = unchanged
create-Change s tenant uuid now (some c) = elim (Bool-cases (str_eq c.user_id "")) [
  | inl blank ↦ rw blank unchanged
  | inr named ↦ elim (Bool-cases (not (valid_risk_level (risk_of c.risk_level)))) [
    | inl bad ↦ rw (named, bad) unchanged
    | inr good ↦ elim (Bool-cases (not (is_some (get_user s tenant c.user_id)))) [
      | inl nobody ↦ rw (named, good, nobody) unchanged
      | inr user ↦
          rw (named, good, user) (made (new_session tenant c uuid now) (λ id avoids. avoids))
    ]
  ]
]

serve-Change : (s : MemStorage) (r : Request) → IsFiled s → Change s r (serve s r)
unfolding handle_create handle_refresh handle_invalidate handle_upgrade get_session
serve-Change s (creating none body uuid now) filed = unchanged
serve-Change s (creating (some tenant) body uuid now) filed = create-Change s tenant uuid now body
serve-Change s (refreshing none id now stored) filed = unchanged
serve-Change s (refreshing (some tenant) id now stored) filed =
    refresh-Change s filed _ tenant id now stored _ refl
serve-Change s (invalidating none id now stored) filed = unchanged
serve-Change s (invalidating (some tenant) id now stored) filed =
    invalidate-Change s filed _ tenant id now stored _ refl
serve-Change s (upgrading none id body stored) filed = unchanged
serve-Change s (upgrading (some tenant) id none stored) filed = unchanged
serve-Change s (upgrading (some tenant) id (some u) stored) filed =
    upgrade-Change s filed _ tenant id u stored _ refl

insert-IsFiled :
    (s : MemStorage) (x : Session)
    → IsFiled s
    → IsFiled (record s { sessions = insert x.id x s.sessions })
insert-IsFiled s x filed k y e = elim (Bool-cases (str_eq x.id k)) [
  | inl same ↦
      let is_x : some x ≡ some y = sym (lookup-insert x.id k x s.sessions ∙ rw same refl) ∙ e in
      ap (λ z. z.id) (sym (some_inj is_x)) ∙ (str_eq_iff x.id k).0 same
  | inr other ↦ filed k y (sym (lookup-insert x.id k x s.sessions ∙ rw other refl) ∙ e)
]

Change-IsFiled : (s s' : MemStorage) (r : Request) → Change s r s' → IsFiled s → IsFiled s'
Change-IsFiled s _ r unchanged filed = filed
Change-IsFiled s _ r (made x new) filed = insert-IsFiled s x filed
Change-IsFiled s _ r (replaced old x stored live same) filed = insert-IsFiled s x filed

insert_elsewhere :
    (s : MemStorage) (x : Session) (id : String) (t : ℕ)
    → x.id ≢ id
    → IsClosed id t s
    → IsClosed id t (record s { sessions = insert x.id x s.sessions })
insert_elsewhere s x id t other (y, found, done) =
    (y, lookup-insert x.id id x s.sessions ∙ rw (str_eq_ne x.id id other) found, done)

Change-IsClosed :
    (s s' : MemStorage) (r : Request) (id : String) (t : ℕ)
    → Change s r s'
    → Avoids id r
    → IsClosed id t s
    → IsClosed id t s'
Change-IsClosed s _ r id t unchanged avoids closed = closed
Change-IsClosed s _ r id t (made x new) avoids closed =
    insert_elsewhere s x id t (new id avoids) closed
Change-IsClosed s _ r id t (replaced old x stored live same) avoids (y, found, done) =
    insert_elsewhere s x id t
      (λ here. cc (
        ap (λ z. z.invalidated_at)
            (some_inj (sym stored ∙ ap (λ k. lookup k s.sessions) (sym same ∙ here) ∙ found)),
        live,
        done,
      ))
      (y, found, done)

-- A session that is invalidated keeps its time of invalidation through every run of creations,
-- refreshes, invalidations and upgrades, for any tenant, that does not create a session under its id.
pub invalidated_final :
    (s : MemStorage) (id : String) (t : ℕ) (rs : List Request)
    → IsFiled s
    → IsClosed id t s
    → All (Avoids id) rs
    → IsClosed id t (run s rs)
invalidated_final s id t [] filed closed avoids = closed
invalidated_final s id t (r ∷ rs) filed closed avoids =
    let change = serve-Change s r filed in
    invalidated_final (serve s r) id t rs (Change-IsFiled s _ r change filed)
      (Change-IsClosed s _ r id t change avoids.0 closed) avoids.1
