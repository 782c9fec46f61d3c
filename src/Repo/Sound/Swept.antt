-- ===== src/Repo/Sound/Swept.antt =====
-- What the retention sweep leaves: a deletion job under way for everything that is due.
use mathlib.Core.Path.{subst}
use league_of_legnds_ai_coac.Prelude.{
  ℕ, ◌+◌, ◌≡◌, refl, ◌∙◌, Bool, true, false, not, ◌&&◌, ◌||◌, List, [], ◌∷◌, ◌==◌, any, filter,
  length, All, arith, Bool-cases, inl, inr, ok, In,
}
use league_of_legnds_ai_coac.Prelude.Tables.{All-In, In-filter, All-of_In}
use league_of_legnds_ai_coac.Domain.{delete_all, delete_source}
use league_of_legnds_ai_coac.Rows.{ReplayUploadRow, ReplayJobRow}
use league_of_legnds_ai_coac.Database.{Db}
use league_of_legnds_ai_coac.Repo.Jobs.{is_active_for}
use league_of_legnds_ai_coac.Repo.Retention.{
  is_tombstone, is_delete_all_due, is_source_due, purge_tombstones, has_active_job, Sweep,
  enqueue_due_retention,
}
use league_of_legnds_ai_coac.Repo.Sound.{IsSound}
use league_of_legnds_ai_coac.Repo.Sound.Sweep.{IsFresh, purge_tombstones-IsSound}
use league_of_legnds_ai_coac.Repo.Sound.Due.{
  IsThere, still-IsThere, sweep_delete_all_lem, sweep_source_lem, is_covered,
}

-- What the sweep promises of the tables before and of its result.
pub record IsSwept (now : ℕ) (db : Db) (t : Sweep) : Type 0 where
  pub still_sound : IsSound t.1
  pub tombstones_gone : t.1.uploads ≡ filter (λ u. not (is_tombstone now u)) db.uploads
  pub deletes_under_way :
      (u : ReplayUploadRow)
      → In u t.1.uploads
      → is_delete_all_due now u ≡ true
      → has_active_job u.id delete_all t.1 ≡ true
  pub sources_under_way :
      (u : ReplayUploadRow)
      → In u t.1.uploads
      → is_source_due now u ≡ true
      → (has_active_job u.id delete_source t.1 || has_active_job u.id delete_all t.1) ≡ true
  pub jobs_counted : length t.1.jobs ≡ length (purge_tombstones now db).jobs + t.0

any_of_In :
    (u : ReplayUploadRow) (us : List ReplayUploadRow) → In u us → any (λ v. v.id == u.id) us ≡ true
any_of_In u [] i = elim i [ ]
any_of_In u (v ∷ us) (In.here e) = ground arith
any_of_In u (v ∷ us) (In.there i) = ground (arith, any_of_In u us i)

any-filter-none :
    (p q : ReplayJobRow → Bool) (jobs : List ReplayJobRow)
    → any p jobs ≡ false
    → any p (filter q jobs) ≡ false
any-filter-none p q [] h = refl
any-filter-none p q (j ∷ jobs) h = ground (arith, any-filter-none p q jobs)

All-IsThere : (q : ReplayUploadRow → Bool) (s : Sweep) → All (IsThere s) (filter q s.1.uploads)
All-IsThere q s =
    All-of_In (IsThere s) (filter q s.1.uploads)
      (λ u i. let (j, _) = In-filter q {x = u} s.1.uploads i in any_of_In u s.1.uploads j)

In-filter-of :
    (q : ReplayUploadRow → Bool) (u : ReplayUploadRow) (us : List ReplayUploadRow)
    → In u us
    → q u ≡ true
    → In u (filter q us)
In-filter-of q u [] i h = elim i [ ]
In-filter-of q u (v ∷ us) (In.here e) h = rw (← e, h) (In.here refl)
In-filter-of q u (v ∷ us) (In.there i) h = elim (Bool-cases (q v)) [
  | inl e ↦ rw e (In.there (In-filter-of q u us i h))
  | inr e ↦ rw e (In-filter-of q u us i h)
]

any-In_due :
    (q : ReplayUploadRow → Bool) (k : ℕ) (us : List ReplayUploadRow)
    → any (λ d. d.id == k) (filter q us) ≡ true
    → (d : ReplayUploadRow) × In d (filter q us) × (d.id ≡ k)
any-In_due q k us h = any_witness (filter q us) h
  where
    any_witness :
        (ds : List ReplayUploadRow)
        → any (λ d. d.id == k) ds ≡ true
        → (d : ReplayUploadRow) × In d ds × (d.id ≡ k)
    any_witness [] h = cc
    any_witness (d ∷ ds) h = elim (Bool-cases (d.id == k)) [
      | inl e ↦ (d, In.here refl, ground arith)
      | inr e ↦ let (d', i, same) = any_witness ds (ground arith) in (d', In.there i, same)
    ]

-- On sound tables, with draws of `uuid4()` that are new and differ from each other, the retention
-- sweep succeeds. It leaves sound tables with the replays that were not past their tombstone
-- retention; each of these that is due for it has an active DELETE_ALL job, each whose source is
-- due an active DELETE_SOURCE or DELETE_ALL job, and the count it returns is that of the new jobs.
pub enqueue_due_retention_lem :
    (uuid : ℕ → ℕ) (now : ℕ) (db : Db)
    → IsSound db
    → ((i k : ℕ) → uuid i ≡ uuid k → i ≡ k)
    → ((i : ℕ) → any (λ j. j.id == uuid i) db.jobs ≡ false)
    → (t : Sweep) × (enqueue_due_retention uuid now db ≡ ok t) × IsSwept now db t
unfolding enqueue_due_retention purge_tombstones
enqueue_due_retention_lem uuid now db sound distinct new =
    let start : Sweep = (0, purge_tombstones now db) in
    let us = start.1.uploads in
    let rest : ReplayUploadRow → Bool = λ u.
      is_source_due now u && not (any (λ d. d.id == u.id) (filter (is_delete_all_due now) us)) in
    let fresh : IsFresh uuid start = λ i _.
      any-filter-none (λ j. j.id == uuid i)
        (λ j. not (any (λ u. u.id == j.replay_id) (filter (is_tombstone now) db.uploads))) db.jobs
        (new i) in
    let (t, done, grown, deletes) =
      sweep_delete_all_lem uuid now distinct (filter (is_delete_all_due now) us) start
        (purge_tombstones-IsSound now db sound) fresh (All-IsThere (is_delete_all_due now) start) in
    let (t', done', grown', sources) =
      sweep_source_lem uuid now distinct (filter rest us) t grown.sound grown.fresh
        (still-IsThere uuid now distinct start t (filter rest us) grown (All-IsThere rest start)) in
    let deleting : (u : ReplayUploadRow)
        → In u us
        → is_delete_all_due now u ≡ true
        → has_active_job u.id delete_all t'.1 ≡ true =
      λ u i due. grown'.kept (is_active_for u.id delete_all) (
        All-In (λ v. has_active_job v.id delete_all t.1 ≡ true) (filter (is_delete_all_due now) us)
          deletes (In-filter-of (is_delete_all_due now) u us i due)) in
    let uploads_kept : t'.1.uploads ≡ us = grown'.same_uploads ∙ grown.same_uploads in
    (
      t',
      rw (done) done',
      record {
        still_sound = grown'.sound;
        tombstones_gone = uploads_kept;
        deletes_under_way = λ u i. deleting u (rw uploads_kept at i);
        sources_under_way = λ u i due.
            elim (Bool-cases (any (λ d. d.id == u.id) (filter (is_delete_all_due now) us))) [
              | inl e ↦
                  let (d, among, same) = any-In_due (is_delete_all_due now) u.id us e in
                  let before =
                    All-In (λ v. has_active_job v.id delete_all t.1 ≡ true)
                      (filter (is_delete_all_due now) us) deletes among in
                  let after = grown'.kept (is_active_for d.id delete_all) before in
                  ground (arith, subst (λ k. has_active_job k delete_all t'.1 ≡ true) same after)
              | inr e ↦
                  All-In (λ v. is_covered uuid now distinct t' v ≡ true) (filter rest us) sources
                    (In-filter-of rest u us (rw uploads_kept at i) (rw (due, e) refl))
            ];
        jobs_counted = omega (arith, grown.counted, grown'.counted);
      },
    )
