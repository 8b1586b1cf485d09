-- ===== src/Pool/Capacity.antt =====
-- The size of a pool (`AddIdentity`, `poolCountLocked` of storage.go) bounds its identities.
use x_auth_site.Base.{
  ℕ, suc, ◌≤◌, ◌≡◌, refl, sym, ap, ◌∙◌, inl, inr, String, Bool, false, not, Option, none, some,
  List, [], ◌∷◌, length, arith, str_eq, str_eq_iff, Bool-cases,
}
use x_auth_site.Base.Dict.{Dict, lookup, insert, delete, keep_if, values_where}
use x_auth_site.Base.Dict.Laws.{lookup-insert, lookup-delete}
use x_auth_site.Pool.Store.{Pool, Identity, MemStorage, in_pool, pool_count_locked}
use x_auth_site.Pool.Store.Steps.{
  Request, create, add, serve, IsValid, Move, claiming, releasing, revoking, Effect, unchanged,
  created, removed, added, moved, serve-Effect,
}
use x_auth_site.Pool.Lifecycle.{run, run-IsValid}

module _ {V : Type 0} (p : V → Bool) where
  abbrev count : Dict V → ℕ
  count m = length (values_where p m)

  count-insert-le : (k : String) (v : V) (m : Dict V) → count (insert k v m) ≤ suc (count m)
  unfolding insert values_where
  count-insert-le k v [] = ground arith
  count-insert-le k v ((j, w) ∷ m) = ground (arith, count-insert-le k v m)

  count-insert_out :
      (k : String) (v : V) (m : Dict V) → p v ≡ false → count (insert k v m) ≤ count m
  unfolding insert values_where
  count-insert_out k v [] e = ground arith
  count-insert_out k v ((j, w) ∷ m) e = ground (arith, count-insert_out k v m e)

  count-insert_same :
      (k : String) (v w : V) (m : Dict V)
      → lookup k m ≡ some w
      → p v ≡ p w
      → count (insert k v m) ≡ count m
  unfolding insert values_where lookup
  count-insert_same k v w [] e t = absurd (cc e)
  count-insert_same k v w ((j, u) ∷ m) e t = ground (arith, count-insert_same k v w m)

  count-keep_if-le : (q : V → Bool) (m : Dict V) → count (keep_if q m) ≤ count m
  unfolding keep_if values_where
  count-keep_if-le q [] = omega arith
  count-keep_if-le q ((j, u) ∷ m) = ground (arith, count-keep_if-le q m)

  count-keep_if_out : (m : Dict V) → count (keep_if (λ v. not (p v)) m) ≡ 0
  unfolding keep_if values_where
  count-keep_if_out [] = refl
  count-keep_if_out ((j, u) ∷ m) = ground (arith, count-keep_if_out m)

abbrev pub capacity : Option Pool → ℕ
capacity none = 0
capacity (some p) = p.size

-- No pool holds more than its size, and none that does not exist holds anything.
abbrev pub WithinSize : MemStorage → Type 0
WithinSize s = (pool : String) → pool_count_locked s pool ≤ capacity (lookup pool s.pools)

-- What the handlers see to: a new pool has a new id, and an identity is added under its own pool.
abbrev pub IsProper : MemStorage → Request → Type 0
IsProper s (create p) = lookup p.id s.pools ≡ none
IsProper s (add _ pool i) = i.pool_id ≡ pool
IsProper s _ = Unit

abbrev pub AllProper : MemStorage → List Request → Type 0
AllProper s [] = Unit
AllProper s (q ∷ qs) = IsProper s q × AllProper (serve s q) qs

Move-in_pool :
    {q : Request} {i i' : Identity} (pool : String) → Move q i i' → in_pool pool i' ≡ in_pool pool i
Move-in_pool pool (claiming _ _) = refl
Move-in_pool pool (releasing _ _) = refl
Move-in_pool pool (revoking _) = refl

Effect-WithinSize :
    {s t : MemStorage} {q : Request} → Effect s q t → IsProper s q → WithinSize s → WithinSize t
unfolding pool_count_locked
Effect-WithinSize unchanged h w = w
Effect-WithinSize {s = s} (created {p = p}) h w = λ pool.
    let before = w pool in
    let at = lookup-insert p.id pool p s.pools in
    elim (Bool-cases (str_eq p.id pool)) [
      | inl same ↦
          let empty =
            ap capacity (ap (λ k. lookup k s.pools) (sym ((str_eq_iff p.id pool).0 same)) ∙ h) in
          omega arith
      | inr other ↦
          let now : capacity (lookup pool (insert p.id p s.pools))
              ≡ capacity (lookup pool s.pools) =
            ap capacity at ∙ rw other refl in
          omega arith
    ]
Effect-WithinSize {s = s} (removed {id = id} _ _) h w = λ pool.
    let before = w pool in
    let at = lookup-delete id pool s.pools in
    elim (Bool-cases (str_eq id pool)) [
      | inl same ↦
          let out = count-keep_if_out (in_pool pool) s.identities in
          rw ((str_eq_iff id pool).0 same) (omega arith)
      | inr other ↦
          let now : capacity (lookup pool (delete id s.pools)) ≡ capacity (lookup pool s.pools) =
            ap capacity at ∙ rw other refl in
          let less =
            count-keep_if-le (in_pool pool) (λ i. not (str_eq i.pool_id id)) s.identities in
          omega arith
    ]
Effect-WithinSize {s = s} (added {pool = home} {i = i} p there _ room) h w = λ pool.
    let before = w pool in
    elim (Bool-cases (in_pool pool i)) [
      | inl inside ↦
          let same : home ≡ pool = sym h ∙ (str_eq_iff i.pool_id pool).0 inside in
          let more = count-insert-le (in_pool pool) i.id i s.identities in
          let size = ap capacity (ap (λ k. lookup k s.pools) (sym same) ∙ there) in
          let count_now = ap (λ k. pool_count_locked s k) same in omega arith
      | inr outside ↦
          (let less = count-insert_out (in_pool pool) i.id i s.identities outside in omega arith)
    ]
Effect-WithinSize {s = s} (moved {i = i} {i' = i'} there m) h w = λ pool.
    let before = w pool in
    let same =
      count-insert_same (in_pool pool) i.id i' i s.identities there (Move-in_pool pool m) in
    omega arith

-- No run of calls makes a pool hold more identities than its size, if each pool is created under a new
-- id and each identity is added under its own pool.
pub run-WithinSize :
    (s : MemStorage) (qs : List Request)
    → IsValid s
    → AllProper s qs
    → WithinSize s
    → WithinSize (run s qs)
run-WithinSize s [] v h w = w
run-WithinSize s (q ∷ qs) v h w =
    run-WithinSize (serve s q) qs (run-IsValid s (q ∷ []) v) h.1
      (Effect-WithinSize (serve-Effect s q v) h.0 w)
