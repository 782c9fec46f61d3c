-- ===== src/Repo/Artifacts.antt =====
-- `SqlReplayArtifactRepository`.
use league_of_legnds_ai_coac.Prelude.{
  ℕ, Bool, not, ◌&&◌, ◌||◌, none, some, List, [], ◌∷◌, ◌++◌, ◌==◌, ltb, leb, if◌then◌else◌, any,
  find, filter, length, str_eq, ok, raise,
}
use league_of_legnds_ai_coac.Domain.{ReplayArtifactKind, anchor_frame, verification_frame}
use league_of_legnds_ai_coac.Rows.{ReplayArtifactRow}
use league_of_legnds_ai_coac.Database.{Db, artifact_conflict, other_integrity, Tx}

abbrev pub frame_code : ReplayArtifactKind → ℕ
frame_code anchor_frame = 0
frame_code verification_frame = 1

-- The key of `uq_replay_artifact_timestamp`.
abbrev pub same_frame : ReplayArtifactRow → ReplayArtifactRow → Bool
same_frame a b =
    a.replay_id == b.replay_id
    && frame_code a.kind == frame_code b.kind
    && a.game_time_ms == b.game_time_ms
    && a.video_time_ms == b.video_time_ms

-- `session.add(row); await session.flush()`: primary key and foreign key (the unique key is free
-- where `upsert` adds).
unfoldable pub add_artifact : ReplayArtifactRow → Tx ReplayArtifactRow
add_artifact row db =
    if any (λ a. a.id == row.id) db.artifacts
    then raise other_integrity
    else if any (λ u. u.id == row.replay_id) db.uploads
    then ok (row, record db { artifacts = db.artifacts ++ row ∷ [] })
    else raise other_integrity

unfoldable pub upsert : ReplayArtifactRow → Tx ReplayArtifactRow
unfolding add_artifact
upsert row db = elim (find (λ a. same_frame a row) db.artifacts) [
  | none ↦ add_artifact row db
  | some existing ↦
      if str_eq existing.sha256 row.sha256 then ok (existing, db) else raise artifact_conflict
]

-- `order_by(game_time_ms, video_time_ms)`
abbrev pub sorts_before : ReplayArtifactRow → ReplayArtifactRow → Bool
sorts_before a b =
    ltb a.game_time_ms b.game_time_ms
    || a.game_time_ms == b.game_time_ms && leb a.video_time_ms b.video_time_ms

abbrev pub place : ReplayArtifactRow → List ReplayArtifactRow → List ReplayArtifactRow
place a [] = a ∷ []
place a (b ∷ bs) = if sorts_before a b then a ∷ b ∷ bs else b ∷ place a bs

abbrev pub in_order : List ReplayArtifactRow → List ReplayArtifactRow
in_order [] = []
in_order (a ∷ as') = place a (in_order as')

unfoldable pub list_for_replay : ℕ → Db → List ReplayArtifactRow
list_for_replay replay_id db = in_order (filter (λ a. a.replay_id == replay_id) db.artifacts)

unfoldable pub delete_rows : ℕ → Db → ℕ × Db
delete_rows replay_id db = (
  length (filter (λ a. a.replay_id == replay_id) db.artifacts),
  record db { artifacts = filter (λ a. not (a.replay_id == replay_id)) db.artifacts },
)
