-- ===== src/Authentication/Protection/Freshness.antt =====
-- What the ledger's answer rests on: the step-ups that were recorded, and how recent they are.
use x_auth_site.Base.{
  ℕ, ◌+◌, ◌≤◌, ◌<◌, ◌≡◌, refl, sym, ap, ◌∙◌, ◌≢◌, String, Bool, true, false, some, List, Among,
  arith, leb, str_eq, str_eq_ne, if◌then◌else◌,
}
use x_auth_site.Base.Dict.{IsDistinct, lookup, guarded}
use x_auth_site.Base.Dict.Laws.{lookup-insert_self, lookup-keep_if}
use x_auth_site.Authentication.Protection.{
  ProtectionLevel, ProtAchieved, ProtectionLedger, record_rank, gc_locked, is_kept, rank_of, raised,
  fresh_rank, freshness_of, protection_satisfied,
}
use x_auth_site.Authentication.Protection.Ledger.{
  StepUp, after, new_entry, record_rank-IsDistinct, after-IsDistinct, kept-lookup, after-IsBacked,
  fresh_rank-entry, satisfied_branch,
}

passed_rank :
    (blank : Bool) (wanted rank : ℕ)
    → (if blank then false else leb wanted rank) ≡ true
    → wanted ≤ rank
passed_rank blank wanted rank answer = ground arith

-- When a protection level passes without a challenge, over any step-ups recorded from an empty ledger,
-- one of them for the session was of the level's rank or a higher one, and one of them for the session
-- was within the freshness window.
pub satisfied_means :
    (ttl configured now : ℕ) (us : List StepUp) (lvl : ProtectionLevel) (session : String)
    → 0 < lvl.rank
    → (protection_satisfied (after ttl us) configured lvl session now).1 ≡ true
    → ((u : StepUp) × Among u us × (u.session ≡ session) × (lvl.rank ≤ u.rank))
      × ((u : StepUp) × Among u us × (u.session ≡ session) × (now ≤ u.at + freshness_of configured))
satisfied_means ttl configured now us lvl session positive passed =
    let l = after ttl us in
    let within = freshness_of configured in
    let found = lookup session (gc_locked l now).m in
    let answer : (if str_eq session "" then false else leb lvl.rank (fresh_rank within now found))
        ≡ true =
      sym (satisfied_branch l configured lvl session now) ∙ passed in
    let enough : lvl.rank ≤ fresh_rank within now found =
      passed_rank (str_eq session "") lvl.rank (fresh_rank within now found) answer in
    let (e, there, rank, recent) = fresh_rank-entry within now found (omega arith) in
    let backed =
      after-IsBacked ttl us session e
        (kept-lookup l now session e (after-IsDistinct ttl us) there) in
    let (u, among, same, le) = backed.strong in
    let (v, among', same', eq) = backed.latest in
    ((u, among, same, omega arith), (v, among', same', omega arith))

gc-lookup :
    (l : ProtectionLedger) (now : ℕ) (session : String) (e : ProtAchieved)
    → IsDistinct l.m
    → lookup session l.m ≡ some e
    → now ≤ e.at + l.ttl
    → lookup session (gc_locked l now).m ≡ some e
gc-lookup l now session e d there held =
    let due : is_kept l.ttl now e ≡ true = ground arith in
    lookup-keep_if (is_kept l.ttl now) session l.m d
    ∙ ap (guarded (is_kept l.ttl now)) there
    ∙ kept_whole due
  where
    kept_whole : is_kept l.ttl now e ≡ true → guarded (is_kept l.ttl now) (some e) ≡ some e
    kept_whole due = rw due refl

recorded-lookup :
    (l : ProtectionLedger) (session : String) (rank now : ℕ)
    → str_eq session "" ≡ false
    → lookup session (record_rank l session rank now).m ≡ some (new_entry l session rank now)
unfolding record_rank
recorded-lookup l session rank now named =
    rw named (lookup-insert_self session (new_entry l session rank now) (gc_locked l now).m)

unraised : (rank current : ℕ) → rank ≤ current → raised rank current ≡ current
unraised rank current le = ground arith

passes :
    (wanted held rank configured now : ℕ)
    → rank ≡ held
    → wanted ≤ held
    → leb wanted
        (fresh_rank (freshness_of configured) now (some (record { rank = rank; at = now })))
      ≡ true
passes wanted held rank configured now same le = ground arith

-- A verified step-up, however weak, makes the session's strongest level fresh again: when the ledger
-- still holds a rank for the session, however long ago it was reached, a step-up of a lower rank lets
-- every level up to the held rank pass at once.
pub weak_step_up_refreshes :
    (l : ProtectionLedger) (configured now rank : ℕ) (lvl : ProtectionLevel) (session : String)
    (e : ProtAchieved)
    → IsDistinct l.m
    → session ≢ ""
    → lookup session l.m ≡ some e
    → now ≤ e.at + l.ttl
    → rank ≤ e.rank
    → lvl.rank ≤ e.rank
    → (protection_satisfied (record_rank l session rank now) configured lvl session now).1 ≡ true
weak_step_up_refreshes l configured now rank lvl session e d named there held weaker enough =
    let some_session = str_eq_ne session "" named in
    let entry = new_entry l session rank now in
    let still : lookup session (gc_locked l now).m ≡ some e =
      gc-lookup l now session e d there held in
    let same_rank : entry.rank ≡ e.rank =
      ap (λ o. raised rank (rank_of o)) still ∙ unraised rank e.rank weaker in
    let stored : lookup session (record_rank l session rank now).m ≡ some entry =
      recorded-lookup l session rank now some_session in
    let next = record_rank l session rank now in
    let kept : lookup session (gc_locked next now).m ≡ some entry =
      gc-lookup next now session entry (record_rank-IsDistinct l session rank now d) stored
        (omega arith) in
    satisfied_branch next configured lvl session now
    ∙ rw some_session (
        ap (λ o. leb lvl.rank (fresh_rank (freshness_of configured) now o)) kept
        ∙ passes lvl.rank e.rank entry.rank configured now same_rank enough)
