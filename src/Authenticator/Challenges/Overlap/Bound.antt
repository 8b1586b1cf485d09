-- ===== src/Authenticator/Challenges/Overlap/Bound.antt =====
-- Runs of overlapping requests to `Verify` (challenges.go), stage by stage in any order.
use x_auth_site.Base.{
  ℕ, zero, suc, ◌+◌, ◌≤◌, ◌≡◌, refl, sym, ap, ◌∙◌, ◌⊎◌, String, Option, none, some, some_inj,
  str_eq_iff, List, [], ◌∷◌, arith, inl, inr, str_eq, Bool-cases,
}
use x_auth_site.Base.Dict.{lookup}
use x_auth_site.Ratex.{Allower}
use x_auth_site.Authenticator.Model.{
  Challenge, ChallengeStatus, pending, completed, failed, expired,
}
use x_auth_site.Authenticator.Store.{get_challenge}
use x_auth_site.Authenticator.Store.Laws.{IsValid, IsConsistent, owned}
use x_auth_site.Authenticator.Challenges.{Adapter, Service}
use x_auth_site.Authenticator.Challenges.Safety.{Request}
use x_auth_site.Authenticator.Challenges.Guesses.{open_count}
use x_auth_site.Authenticator.Challenges.Stages.{Stage, first_stage, first_found, advance}
use x_auth_site.Authenticator.Challenges.Overlap.{live, told, naming, advance-Kept}

-- The requests that have begun, each at its stage, the latest first.
abbrev pub Flights : Type 0 → Type 0
Flights J = List (Request J × Stage)

-- The sum of a count of stages over the requests that name the challenge.
abbrev pub sum : {J : Type 0} → (Stage → ℕ) → String → Flights J → ℕ
sum f id [] = 0
sum f id ((q, st) ∷ fs) = naming id q.id (f st) + sum f id fs

-- A request begins, or the one at a place takes its next stage.
pub data Move (J : Type 0) : Type 0 where
  arrive : Request J → Move J
  proceed : ℕ → Move J

module _ {J : Type 0} (A : Allower) (registry : String → Option (Adapter J)) where
  abbrev pub proceed_at : Service J A.State → ℕ → Flights J → Service J A.State × Flights J
  proceed_at s n [] = (s, [])
  proceed_at s zero ((q, st) ∷ fs) =
      let (s', st') = advance A registry s q st in (s', (q, st') ∷ fs)
  proceed_at s (suc n) (f ∷ fs) = let (s', fs') = proceed_at s n fs in (s', f ∷ fs')

  abbrev pub move : Service J A.State × Flights J → Move J → Service J A.State × Flights J
  move (s, fs) (arrive q) = (s, (q, first_stage A registry s q) ∷ fs)
  move (s, fs) (proceed n) = proceed_at s n fs

  unfoldable pub moves :
      Service J A.State × Flights J → List (Move J) → Service J A.State × Flights J
  moves y [] = y
  moves y (m ∷ ms) = moves (move y m) ms

  -- At no time have more than `width` requests read the challenge as pending and not yet written their outcome.
  unfoldable pub IsNarrow : String → ℕ → Service J A.State × Flights J → List (Move J) → Type 0
  IsNarrow id width y [] = sum live id y.1 ≤ width
  IsNarrow id width y (m ∷ ms) = (sum live id y.1 ≤ width) × IsNarrow id width (move y m) ms

  narrow_now :
      (id : String) (width : ℕ) (y : Service J A.State × Flights J) (ms : List (Move J))
      → IsNarrow id width y ms
      → sum live id y.1 ≤ width
  unfolding IsNarrow
  narrow_now id width y [] h = h
  narrow_now id width y (m ∷ ms) h = h.0

  -- A stored challenge, its attempts and those still ahead, and the rejections that were told.
  record Bounded (id : String) (width total : ℕ) (y : Service J A.State × Flights J) : Type 0 where
    stored : Challenge
    there : lookup id y.0.store.challenges ≡ some stored
    room : stored.attempts + sum live id y.1 ≤ 2 + width
    counts : stored.attempts ≡ total + sum told id y.1
    sound : stored.status ≡ pending → stored.attempts ≤ 2

  -- The move of the request at a place, in numbers.
  record Proceeded (id : String) (c : Challenge) (fs : Flights J)
      (out : Service J A.State × Flights J) : Type 0 where
    after : Challenge
    there : lookup id out.0.store.challenges ≡ some after
    spent : after.attempts + sum live id out.1 ≤ c.attempts + sum live id fs
    counts : after.attempts + sum told id fs ≡ c.attempts + sum told id out.1
    sound : after.status ≡ pending → after.attempts ≤ 2

  proceed_at-Proceeded :
      (s : Service J A.State) (n : ℕ) (fs : Flights J) (id : String) (c : Challenge)
      → lookup id s.store.challenges ≡ some c
      → (c.status ≡ pending → c.attempts ≤ 2)
      → Proceeded id c fs (proceed_at s n fs)
  proceed_at-Proceeded s n [] id c at sound = record {
    after = c;
    there = at;
    spent = omega arith;
    counts = refl;
    sound = sound;
  }
  proceed_at-Proceeded s zero ((q, st) ∷ fs) id c at sound =
      let k = advance-Kept A registry s q id c at sound st in
      let spent = k.spent in
      let counts = k.counts in
      record {
        after = k.after;
        there = k.there;
        spent = omega (arith, spent);
        counts = omega (arith, counts);
        sound = k.sound;
      }
  proceed_at-Proceeded s (suc n) ((q, st) ∷ fs) id c at sound =
      let k = proceed_at-Proceeded s n fs id c at sound in
      let spent = k.spent in
      let counts = k.counts in
      record {
        after = k.after;
        there = k.there;
        spent = omega (arith, spent);
        counts = omega (arith, counts);
        sound = k.sound;
      }

  arrival :
      (s : Service J A.State) (q : Request J) (id : String) (c : Challenge)
      → lookup id s.store.challenges ≡ some c
      → (naming id q.id (live (first_stage A registry s q)) ≤ open_count c.status)
        × (told (first_stage A registry s q) ≡ 0)
  arrival s q id c at = elim (Bool-cases (str_eq q.id "")) [
    | inl blank ↦ rw blank (unread, refl)
    | inr named ↦ rw named (go (get_challenge s.store q.tenant q.id) refl)
  ]
    where
      unread : naming id q.id 0 ≤ open_count c.status
      unread = elim (Bool-cases (str_eq q.id id)) [
        | inl same ↦ rw same (omega arith)
        | inr other ↦ rw other (omega arith)
      ]

      go :
          (o : Option Challenge)
          → get_challenge s.store q.tenant q.id ≡ o
          → (naming id q.id (live (first_found A registry o)) ≤ open_count c.status)
            × (told (first_found A registry o) ≡ 0)
      go none e = (unread, refl)
      go (some d) e = elim (Bool-cases (str_eq q.id id)) [
        | inr other ↦ rw other (omega arith, refl)
        | inl same ↦
            let here : d ≡ c = some_inj (
              sym (owned s.store q.tenant q.id d e).0
              ∙ ap (λ k. lookup k s.store.challenges) ((str_eq_iff q.id id).0 same)
              ∙ at) in
            let count = ap (λ x. open_count x.status) here in rw same (omega (arith, count), refl)
      ]

  open_cases : (st : ChallengeStatus) → (st ≡ pending) ⊎ (open_count st ≡ 0)
  open_cases pending = inl refl
  open_cases completed = inr refl
  open_cases failed = inr refl
  open_cases expired = inr refl

  naming_zero : (id asked : String) (n : ℕ) → n ≡ 0 → naming id asked n ≡ 0
  naming_zero id asked n e = elim (Bool-cases (str_eq asked id)) [
    | inl same ↦ rw same e
    | inr other ↦ rw other refl
  ]

  move-Bounded :
      (id : String) (width total : ℕ) (y : Service J A.State × Flights J) (m : Move J)
      → Bounded id width total y
      → sum live id (move y m).1 ≤ width
      → Bounded id width total (move y m)
  move-Bounded id width total (s, fs) (arrive q) b narrow =
      let (less, silent) = arrival s q id b.stored b.there in
      let room = b.room in
      let counts = b.counts in
      let zero_told = naming_zero id q.id (told (first_stage A registry s q)) silent in
      record {
        stored = b.stored;
        there = b.there;
        room = elim (open_cases b.stored.status) [
          | inl still ↦ let few = b.sound still in omega (arith, few, narrow)
          | inr closed ↦ omega (arith, less, closed, room)
        ];
        counts = omega (arith, zero_told, counts);
        sound = b.sound;
      }
  move-Bounded id width total (s, fs) (proceed n) b narrow =
      let k = proceed_at-Proceeded s n fs id b.stored b.there b.sound in
      let spent = k.spent in
      let told_more = k.counts in
      let room = b.room in
      let counts = b.counts in
      record {
        stored = k.after;
        there = k.there;
        room = omega (arith, spent, room);
        counts = omega (arith, told_more, counts);
        sound = k.sound;
      }

  moves-Bounded :
      (id : String) (width total : ℕ) (y : Service J A.State × Flights J) (ms : List (Move J))
      → Bounded id width total y
      → IsNarrow id width y ms
      → Bounded id width total (moves y ms)
  unfolding moves IsNarrow
  moves-Bounded id width total y [] b h = b
  moves-Bounded id width total y (m ∷ ms) b h =
      moves-Bounded id width total (move y m) ms
        (move-Bounded id width total y m b (narrow_now id width (move y m) ms h.1)) h.1

  few_attempts :
      (c : Challenge) → IsConsistent c → (c.attempts ≤ 3) × (c.status ≡ pending → c.attempts ≤ 2)
  few_attempts c h = (ground arith, λ p. ground (arith, p))

  -- Requests may overlap, their stages in any order. If the stored challenge is of a well-formed store and at most
  -- `width` requests at a time, at least one, have read it as pending and not yet written their outcome, then the
  -- attempts it had and the requests on it that are rejected are at most 2 + `width` together, and its
  -- stored attempts count exactly those. With one at a time this is the limit of three.
  pub overlap_bounded :
      (s : Service J A.State) (ms : List (Move J)) (id : String) (c : Challenge) (width : ℕ)
      → IsValid s.store
      → lookup id s.store.challenges ≡ some c
      → 1 ≤ width
      → IsNarrow id width (s, []) ms
      → (c.attempts + sum told id (moves (s, []) ms).1 ≤ 2 + width)
        × ((c' : Challenge) × (lookup id (moves (s, []) ms).0.store.challenges ≡ some c')
            × (c'.attempts ≡ c.attempts + sum told id (moves (s, []) ms).1))
  overlap_bounded s ms id c width valid at some_width narrow =
      let (cap, few) = few_attempts c (valid.consistent id c at) in
      let b =
        moves-Bounded id width c.attempts (s, []) ms
          (record {
            stored = c;
            there = at;
            room = omega (arith, cap, some_width);
            counts = omega arith;
            sound = few;
          })
          narrow in
      let room = b.room in
      let counts = b.counts in (omega (arith, room, counts), (b.stored, b.there, counts))
