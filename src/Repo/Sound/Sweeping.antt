-- ===== src/Repo/Sound/Sweeping.antt =====
-- Whatever the draws of `uuid4()`, a retention sweep that succeeds leaves sound tables.
use league_of_legnds_ai_coac.Prelude.{
  ℕ, ◌+◌, ◌≡◌, refl, ◌∙◌, Bool, true, false, not, ◌&&◌, ◌||◌, List, [], ◌∷◌, ◌==◌, any, filter,
  arith, inl, inr, if◌then◌else◌, ok, raise, ◌>>=◌, Outcome, Outcome-cases,
}
use league_of_legnds_ai_coac.Domain.{ReplayJobKind, delete_all, delete_source}
use league_of_legnds_ai_coac.Rows.{ReplayUploadRow, ReplayJobRow}
use league_of_legnds_ai_coac.Database.{Db, DbError, add_job}
use league_of_legnds_ai_coac.Repo.Jobs.{pending_job}
use league_of_legnds_ai_coac.Repo.Retention.{
  is_tombstone, is_delete_all_due, is_source_due, purge_tombstones, has_active_job, Sweep, add_new,
  sweep_delete_all, sweep_source, enqueue_due_retention,
}
use league_of_legnds_ai_coac.Repo.Sound.{IsSound}
use league_of_legnds_ai_coac.Repo.Sound.Writes.{add_job_inv, add_job-IsSound}
use league_of_legnds_ai_coac.Repo.Sound.Sweep.{purge_tombstones-IsSound}

-- The tables of `t` are sound, with the replays of `s`.
record IsAfter (s t : Sweep) : Type 0 where
  after_sound : IsSound t.1
  after_uploads : t.1.uploads ≡ s.1.uploads

bind_inv :
    (m : Outcome DbError Sweep) (f : Sweep → Outcome DbError Sweep) {t : Sweep}
    → m >>= f ≡ ok t
    → (s : Sweep) × (m ≡ ok s) × (f s ≡ ok t)
bind_inv (ok s) f h = (s, refl, h)
bind_inv (raise e) f h = absurd (ground arith)

add_new-IsAfter :
    (uuid : ℕ → ℕ) (replay_id : ℕ) (kind : ReplayJobKind) (now : ℕ) (s : Sweep) {t : Sweep}
    → IsSound s.1
    → add_new uuid replay_id kind now s ≡ ok t
    → IsAfter s t
add_new-IsAfter uuid replay_id kind now (n, db) {t} sound h =
    let job : ReplayJobRow = pending_job (uuid n) replay_id kind now 3 now in
    elim (Outcome-cases (add_job job db)) [
      | inl ((r, db'), e) ↦
          let same : t ≡ (n + 1, db') = ground arith in
          let (_, _, _, tables, _, _) = add_job_inv job db {r = r} {db' = db'} e in
          rw same (record {
            after_sound = add_job-IsSound job db {r = r} {db' = db'} sound (ground arith) e;
            after_uploads = rw tables refl;
          })
      | inr (x, e) ↦ absurd (ground arith)
    ]

ensure-IsAfter :
    (test : Bool) (uuid : ℕ → ℕ) (replay_id : ℕ) (kind : ReplayJobKind) (now : ℕ) (s : Sweep)
    {t : Sweep}
    → IsSound s.1
    → (if test then ok s else add_new uuid replay_id kind now s) ≡ ok t
    → IsAfter s t
ensure-IsAfter true uuid replay_id kind now s {t} sound h =
    let same : t ≡ s = ground arith in
    rw same (record { after_sound = sound; after_uploads = refl })
ensure-IsAfter false uuid replay_id kind now s {t} sound h =
    add_new-IsAfter uuid replay_id kind now s {t = t} sound h

IsAfter-trans : (s t u : Sweep) → IsAfter s t → IsAfter t u → IsAfter s u
IsAfter-trans s t u one two = record {
  after_sound = two.after_sound;
  after_uploads = two.after_uploads ∙ one.after_uploads;
}

sweep_delete_all-IsAfter :
    (uuid : ℕ → ℕ) (now : ℕ) (us : List ReplayUploadRow) (s : Sweep) {t : Sweep}
    → IsSound s.1
    → sweep_delete_all uuid now us s ≡ ok t
    → IsAfter s t
unfolding sweep_delete_all
sweep_delete_all-IsAfter uuid now [] s {t} sound h =
    let same : t ≡ s = ground arith in
    rw same (record { after_sound = sound; after_uploads = refl })
sweep_delete_all-IsAfter uuid now (u ∷ us) s {t} sound h =
    let (m, first, rest) =
      bind_inv
        (if has_active_job u.id delete_all s.1 then ok s else add_new uuid u.id delete_all now s)
        (sweep_delete_all uuid now us) {t = t} h in
    let one =
      ensure-IsAfter (has_active_job u.id delete_all s.1) uuid u.id delete_all now s {t = m} sound
        first in
    IsAfter-trans s m t one (sweep_delete_all-IsAfter uuid now us m {t = t} one.after_sound rest)

sweep_source-IsAfter :
    (uuid : ℕ → ℕ) (now : ℕ) (us : List ReplayUploadRow) (s : Sweep) {t : Sweep}
    → IsSound s.1
    → sweep_source uuid now us s ≡ ok t
    → IsAfter s t
unfolding sweep_source
sweep_source-IsAfter uuid now [] s {t} sound h =
    let same : t ≡ s = ground arith in
    rw same (record { after_sound = sound; after_uploads = refl })
sweep_source-IsAfter uuid now (u ∷ us) s {t} sound h =
    let test = has_active_job u.id delete_source s.1 || has_active_job u.id delete_all s.1 in
    let (m, first, rest) =
      bind_inv (if test then ok s else add_new uuid u.id delete_source now s)
        (sweep_source uuid now us) {t = t} h in
    let one = ensure-IsAfter test uuid u.id delete_source now s {t = m} sound first in
    IsAfter-trans s m t one (sweep_source-IsAfter uuid now us m {t = t} one.after_sound rest)

pub enqueue_due_retention-IsSound :
    (uuid : ℕ → ℕ) (now : ℕ) (db : Db) {t : Sweep}
    → IsSound db
    → enqueue_due_retention uuid now db ≡ ok t
    → IsSound t.1 × (t.1.uploads ≡ filter (λ u. not (is_tombstone now u)) db.uploads)
unfolding enqueue_due_retention purge_tombstones
enqueue_due_retention-IsSound uuid now db {t} sound h =
    let start : Sweep = (0, purge_tombstones now db) in
    let due = filter (is_delete_all_due now) start.1.uploads in
    let source_due =
      filter (λ u. is_source_due now u && not (any (λ d. d.id == u.id) due)) start.1.uploads in
    let (m, first, rest) =
      bind_inv (sweep_delete_all uuid now due start) (sweep_source uuid now source_due) {t = t} h in
    let one =
      sweep_delete_all-IsAfter uuid now due start {t = m} (purge_tombstones-IsSound now db sound)
        first in
    let two = sweep_source-IsAfter uuid now source_due m {t = t} one.after_sound rest in
    (two.after_sound, two.after_uploads ∙ one.after_uploads)
