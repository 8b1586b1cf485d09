-- ===== src/Ratex/Window.antt =====
-- Lemmas on the events of a window: the list of instants later than a cutoff.
use x_auth_site.Base.{ℕ, ◌≤◌, ◌≡◌, refl, Bool, false, List, [], ◌∷◌, ◌++◌, arith, length, keep, any}
use x_auth_site.Ratex.{after}

-- A later cutoff makes an earlier pruning void.
pub keep-keep-after :
    (c d : ℕ) (ts : List ℕ) → c ≤ d → keep (after d) (keep (after c) ts) ≡ keep (after d) ts
keep-keep-after c d [] h = refl
keep-keep-after c d (t ∷ ts) h = ground (arith, keep-keep-after c d ts h)

pub keep-append {ℓ} :
    {A : Type ℓ} (p : A → Bool) (xs ys : List A) → keep p (xs ++ ys) ≡ keep p xs ++ keep p ys
keep-append p [] ys = refl
keep-append p (x ∷ xs) ys = ground (arith, keep-append p xs ys)

-- What the sweep drops holds no event of the window.
pub keep-eq-nil :
    (c d : ℕ) (ts : List ℕ) → c ≤ d → any (after c) ts ≡ false → keep (after d) ts ≡ []
keep-eq-nil c d [] h e = refl
keep-eq-nil c d (t ∷ ts) h e = ground (arith, keep-eq-nil c d ts h)

pub length-keep_mono :
    (c d : ℕ) (ts : List ℕ) → c ≤ d → length (keep (after d) ts) ≤ length (keep (after c) ts)
length-keep_mono c d [] h = omega arith
length-keep_mono c d (t ∷ ts) h = ground (arith, length-keep_mono c d ts h)
