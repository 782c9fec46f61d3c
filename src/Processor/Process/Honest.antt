-- ===== src/Processor/Process/Honest.antt =====
-- `_process_in_scratch` on every path: transactions only, and cancelled only by a deletion.
use league_of_legnds_ai_coac.Prelude.{
  ℕ, ◌≡◌, refl, String, Bool, true, false, Option, none, some, List, [], ◌∷◌, Outcome, ok, raise,
  arith,
}
use league_of_legnds_ai_coac.Domain.{ReplayStatus, transcoding}
use league_of_legnds_ai_coac.Rows.{ReplayUploadRow}
use league_of_legnds_ai_coac.Database.{Db}
use league_of_legnds_ai_coac.Repo.Replays.{Assign}
use league_of_legnds_ai_coac.Repo.Recovery.{is_gone}
use league_of_legnds_ai_coac.Repo.Steps.{Reach}
use league_of_legnds_ai_coac.Service.Calls.{World, non_empty}
use league_of_legnds_ai_coac.Service.Runs.{Reach-trans}
use league_of_legnds_ai_coac.Processor.{media, object_not_found, os_error, other_error}
use league_of_legnds_ai_coac.Processor.Pipeline.{
  Workshop, Stop, cancelled, conflicted, failed, Work, ◌>>=◌, pure, reading, require_replay,
  ensure_not_deleting, move,
}
use league_of_legnds_ai_coac.Processor.Pipeline.Honest.{
  Ends, IsHonest, Any, IsOf, pure-IsHonest, failed-IsHonest, outside-IsHonest, bind-IsHonest,
  reading-IsHonest,
}
use league_of_legnds_ai_coac.Processor.Pipeline.Guards.{
  require_replay-IsHonest, ensure_not_deleting-IsHonest, move-IsHonest,
}
use league_of_legnds_ai_coac.Processor.Process.{
  is_probing_or_transcoding, source_key, or_hash, if_found, take_over, skips_transcode, on_conflict,
  on_progress, on_reports,
}

module _ (O : Type 0) (drawn : ℕ → Bool) (k : ℕ) (workshop : Workshop O) (others : ℕ → Db → Db)
    (theirs : (n : ℕ) (db : Db) → Reach drawn db (others n db)) where
  abbrev follows :
      {A B : Type 0} (P : A → Type 0) (Q : B → Type 0) {m : Work O A} {f : A → Work O B}
      → IsHonest O drawn k P m
      → ((a : A) → P a → IsHonest O drawn k Q (f a))
      → IsHonest O drawn k Q (m >>= f)
  follows P Q {m} {f} h g = bind-IsHonest O drawn k P Q m f h g

  pub guard_row :
      (row : ReplayUploadRow)
      → row.id ≡ k
      → IsHonest O drawn k Any (ensure_not_deleting workshop others row.id)
  guard_row row same = rw same (ensure_not_deleting-IsHonest O drawn k workshop others theirs)

  pub clock_read : IsHonest O drawn k Any (reading workshop others)
  clock_read = reading-IsHonest O drawn k workshop others theirs

  pub source_key-IsHonest :
      (key : Option String) → IsHonest O drawn k Any (source_key workshop others key)
  source_key-IsHonest none = failed-IsHonest O drawn k Any _
  source_key-IsHonest (some key) = pure-IsHonest O drawn k Any key tt

  or_hash-IsHonest : (hash : Option String) → IsHonest O drawn k Any (or_hash workshop others hash)
  or_hash-IsHonest none = outside-IsHonest O drawn k _
  or_hash-IsHonest (some hash) = pure-IsHonest O drawn k Any hash tt

  if_found-Ends :
      {A : Type 0} (a : A) (r : Outcome Stop A × World O)
      → Ends k Any r
      → Ends k Any (if_found workshop others a r) × ((if_found workshop others a r).1.db ≡ r.1.db)
  unfolding Ends
  if_found-Ends a (ok b, w) h = (tt, refl)
  if_found-Ends a (raise cancelled, w) h = (h, refl)
  if_found-Ends a (raise conflicted, w) h = (tt, refl)
  if_found-Ends a (raise (failed object_not_found), w) h = (tt, refl)
  if_found-Ends a (raise (failed (media c)), w) h = (tt, refl)
  if_found-Ends a (raise (failed os_error), w) h = (tt, refl)
  if_found-Ends a (raise (failed other_error), w) h = (tt, refl)

  take_over-IsHonest : (key : String) → IsHonest O drawn k Any (take_over workshop others key)
  unfolding take_over
  take_over-IsHonest key = follows Any Any (outside-IsHonest O drawn k _) (λ existing _.
      follows Any Any (or_hash-IsHonest (non_empty existing))
        (λ hash _. pure-IsHonest O drawn k Any _ tt))

  pub skips_transcode-IsHonest :
      (key : Option String) → IsHonest O drawn k Any (skips_transcode workshop others key)
  skips_transcode-IsHonest none = pure-IsHonest O drawn k Any false tt
  skips_transcode-IsHonest (some key) = record {
    runs = λ w.
        rw
          ((if_found-Ends false (take_over workshop others key w)
            ((take_over-IsHonest key).ends w)).1)
          ((take_over-IsHonest key).runs w);
    ends = λ w.
        (if_found-Ends false (take_over workshop others key w) ((take_over-IsHonest key).ends w)).0;
  }

  latest_row : IsHonest O drawn k (IsOf k) (
      require_replay workshop others k >>= λ latest.
      ensure_not_deleting workshop others latest.id >>= λ _. pure latest)
  latest_row =
      follows (IsOf k) (IsOf k) (require_replay-IsHonest O drawn k workshop others theirs)
        (λ latest same.
          follows Any (IsOf k) (guard_row latest same)
            (λ u _. pure-IsHonest O drawn k (IsOf k) latest same))

  on_conflict-Ends :
      (r : Outcome Stop ReplayUploadRow × World O)
      → Ends k (IsOf k) r
      → Ends k (IsOf k) (on_conflict workshop others k r)
        × Reach drawn r.1.db (on_conflict workshop others k r).1.db
  unfolding Ends
  on_conflict-Ends (ok row, w) h = (h, Reach.here)
  on_conflict-Ends (raise cancelled, w) h = (h, Reach.here)
  on_conflict-Ends (raise (failed e), w) h = (tt, Reach.here)
  on_conflict-Ends (raise conflicted, w) h = (latest_row.ends w, latest_row.runs w)

  -- A call whose conflict is looked into.
  caught-IsHonest :
      (m : Work O ReplayUploadRow)
      → IsHonest O drawn k (IsOf k) m
      → IsHonest O drawn k (IsOf k) (λ w. on_conflict workshop others k (m w))
  caught-IsHonest m h = record {
    runs = λ w.
        Reach-trans drawn {a = w.db} {b = (m w).1.db}
          {c = (on_conflict workshop others k (m w)).1.db} (h.runs w)
          (on_conflict-Ends (m w) (h.ends w)).1;
    ends = λ w. (on_conflict-Ends (m w) (h.ends w)).0;
  }

  caught_row :
      (j : ℕ) (m : Work O ReplayUploadRow)
      → j ≡ k
      → IsHonest O drawn k (IsOf k) m
      → IsHonest O drawn k (IsOf k) (λ w. on_conflict workshop others j (m w))
  caught_row j m same h = rw same (caught-IsHonest m h)

  pub moves :
      (row : ReplayUploadRow) (expected : ReplayStatus → Bool) (status : ReplayStatus)
      (values : List Assign)
      → row.id ≡ k
      → ((s : ReplayStatus) → is_gone s ≡ true → expected s ≡ false)
      → IsHonest O drawn k (IsOf k) (move workshop others row expected status values)
  moves row expected status values same alive =
      move-IsHonest O drawn k workshop others theirs row expected status values same alive

  on_progress-IsHonest :
      (row : ReplayUploadRow) (percent : ℕ)
      → row.id ≡ k
      → IsHonest O drawn k (IsOf k) (on_progress workshop others row percent)
  unfolding on_progress
  on_progress-IsHonest row percent same = follows Any (IsOf k) clock_read (λ now _.
      caught_row row.id _ same
        (moves row is_probing_or_transcoding transcoding _ same (λ s gone. ground arith)))

  pub on_reports-IsHonest :
      (row : ReplayUploadRow) (percents : List ℕ)
      → row.id ≡ k
      → IsHonest O drawn k (IsOf k) (on_reports workshop others row percents)
  on_reports-IsHonest row [] same = pure-IsHonest O drawn k (IsOf k) row same
  on_reports-IsHonest row (percent ∷ percents) same =
      follows (IsOf k) (IsOf k) (on_progress-IsHonest row percent same)
        (λ row' same'. on_reports-IsHonest row' percents same')
