-- ===== src/Authenticator/Select/Laws.antt =====
-- The selection of challenges.go: the first method that can be used, and its oldest authenticator.
use mathlib.Core.Path.{subst}
use mathlib.Core.Logic.{◌≢◌}
use x_auth_site.Base.{
  ℕ, ◌≤◌, ◌≡◌, refl, sym, inl, inr, String, true, false, Option, none, some, List, [], ◌∷◌, arith,
  keep, All, Among, keep-Among, Among-keep, str_eq, str_eq_iff, Bool-cases,
}
use x_auth_site.Authenticator.Model.{Authenticator}
use x_auth_site.Authenticator.Select.{precedes, oldest, pick, or_else, select_authenticator}

module _ {J : Type 0} where
  oldest_nil : (best : Authenticator J) → oldest best [] ≡ best
  unfolding oldest
  oldest_nil best = refl

  oldest_older :
      (best c : Authenticator J) (cs : List (Authenticator J))
      → precedes c best ≡ true
      → oldest best (c ∷ cs) ≡ oldest c cs
  unfolding oldest
  oldest_older best c cs e = rw e

  oldest_kept :
      (best c : Authenticator J) (cs : List (Authenticator J))
      → precedes c best ≡ false
      → oldest best (c ∷ cs) ≡ oldest best cs
  unfolding oldest
  oldest_kept best c cs e = rw e

  oldest-Among :
      (best : Authenticator J) (cs : List (Authenticator J)) → Among (oldest best cs) (best ∷ cs)
  oldest-Among best [] = inl (oldest_nil best)
  oldest-Among best (c ∷ cs) = elim (Bool-cases (precedes c best)) [
    | inl older ↦
        subst (λ x. Among x (best ∷ c ∷ cs)) (sym (oldest_older best c cs older))
          (inr (oldest-Among c cs))
    | inr kept ↦
        subst (λ x. Among x (best ∷ c ∷ cs)) (sym (oldest_kept best c cs kept))
          (later (oldest-Among best cs))
  ]
    where
      later : {x : Authenticator J} → Among x (best ∷ cs) → Among x (best ∷ c ∷ cs)
      later (inl e) = inl e
      later (inr m) = inr (inr m)

  precedes-le :
      (b c : Authenticator J) (x : ℕ) → precedes c b ≡ true → x ≤ c.created_at → x ≤ b.created_at
  precedes-le b c x h le = ground arith

  precedes_not-le :
      (b c : Authenticator J) (x : ℕ) → precedes c b ≡ false → x ≤ b.created_at → x ≤ c.created_at
  precedes_not-le b c x h le = ground arith

  -- No candidate is older than the one chosen.
  oldest-le :
      (best : Authenticator J) (cs : List (Authenticator J))
      → All (λ c. (oldest best cs).created_at ≤ c.created_at) (best ∷ cs)
  oldest-le best [] =
      subst (λ x. All (λ d. x.created_at ≤ d.created_at) (best ∷ [])) (sym (oldest_nil best))
        (omega arith, tt)
  oldest-le best (c ∷ cs) = elim (Bool-cases (precedes c best)) [
    | inl older ↦
        let (le, rest) = oldest-le c cs in
        subst (λ x. All (λ d. x.created_at ≤ d.created_at) (best ∷ c ∷ cs))
          (sym (oldest_older best c cs older)) (precedes-le best c _ older le, (le, rest))
    | inr kept ↦
        let (le, rest) = oldest-le best cs in
        subst (λ x. All (λ d. x.created_at ≤ d.created_at) (best ∷ c ∷ cs))
          (sym (oldest_kept best c cs kept)) (le, (precedes_not-le best c _ kept le, rest))
  ]

  Among-All :
      (x : ℕ) (b : Authenticator J) (cs : List (Authenticator J))
      → All (λ c. x ≤ c.created_at) cs
      → Among b cs
      → x ≤ b.created_at
  Among-All x b [] h m = absurd m
  Among-All x b (c ∷ cs) h (inl e) = rw e h.0
  Among-All x b (c ∷ cs) h (inr m) = Among-All x b cs h.1 m

  abbrev of_method : String → List (Authenticator J) → List (Authenticator J)
  of_method m active = keep (λ a. str_eq a.method m) active

  -- What `select_authenticator` promises: `a` is an active authenticator of method `m`, none of that
  -- method is older, and no method that the caller prefers to `m` has one; or no method has one.
  pub data Selected (active : List (Authenticator J))
      : List String → Option (String × Authenticator J) → Type 0 where
    nobody : Selected active [] none
    skip :
        {m : String} {ms : List String} {o : Option (String × Authenticator J)}
        → ((b : Authenticator J) → Among b active → b.method ≢ m)
        → Selected active ms o
        → Selected active (m ∷ ms) o
    chosen :
        {m : String} {ms : List String} {a : Authenticator J}
        → Among a active
        → a.method ≡ m
        → ((b : Authenticator J) → Among b active → b.method ≡ m → a.created_at ≤ b.created_at)
        → Selected active (m ∷ ms) (some (m, a))

  none_of_method :
      (m : String) (active : List (Authenticator J)) (b : Authenticator J)
      → of_method m active ≡ []
      → Among b active
      → b.method ≢ m
  none_of_method m active b e mem eq =
      subst (Among b) e
        (Among-keep (λ a. str_eq a.method m) b active mem ((str_eq_iff b.method m).1 eq))

  first_of_method :
      (m : String) (active : List (Authenticator J)) (ms : List String) (c : Authenticator J)
      (cs : List (Authenticator J))
      → of_method m active ≡ c ∷ cs
      → Selected active (m ∷ ms) (some (m, oldest c cs))
  first_of_method m active ms c cs e =
      let (mem, pass) =
        keep-Among (λ a. str_eq a.method m) (oldest c cs) active (rw e (oldest-Among c cs)) in
      chosen mem ((str_eq_iff _ m).0 pass) (λ b mb eq. Among-All _ b (c ∷ cs) (oldest-le c cs) (
        subst (Among b) e
          (Among-keep (λ a. str_eq a.method m) b active mb ((str_eq_iff b.method m).1 eq))))

  -- The selection follows the caller's preference: the first listed method for which the user has
  -- an active authenticator, and of that method one that no other is older than; nothing if and
  -- only if no listed method has one.
  pub select_authenticator-Selected :
      (ms : List String) (active : List (Authenticator J))
      → Selected active ms (select_authenticator ms active)
  unfolding select_authenticator
  select_authenticator-Selected [] active = nobody
  select_authenticator-Selected (m ∷ ms) active =
      go (select_authenticator-Selected ms active) (of_method m active) refl
    where
      go :
          Selected active ms (select_authenticator ms active)
          → (l : List (Authenticator J)) → of_method m active ≡ l
          → Selected active (m ∷ ms) (or_else (pick m l) (select_authenticator ms active))
      go rest [] e = skip (λ b mem. none_of_method m active b e mem) rest
      go rest (c ∷ cs) e = first_of_method m active ms c cs e
