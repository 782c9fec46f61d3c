-- ===== src/Service/Access.antt =====
-- What a client gets to read: artifacts of a replay that is READY, under its own token.
use league_of_legnds_ai_coac.Prelude.{
  ℕ, ◌+◌, In, ◌≡◌, String, Bool, true, false, not, Option, none, some, List, [], ◌∷◌, ◌==◌, find,
  find_sound, filter, All, arith, refl, ok, Bool-cases, inl, inr,
}
use mathlib.Core.Path.{subst}
use league_of_legnds_ai_coac.Prelude.Tables.{All-find, All-of_In, In-filter}
use league_of_legnds_ai_coac.Domain.{ready}
use league_of_legnds_ai_coac.Rows.{ReplayUploadRow, ReplayArtifactRow, same_status}
use league_of_legnds_ai_coac.Database.{Db, find_upload}
use league_of_legnds_ai_coac.Repo.Artifacts.{sorts_before, place, in_order, list_for_replay}
use league_of_legnds_ai_coac.Service.Calls.{
  ServiceError, replay_not_found, verify_replay_token, ReplayStorage, ReplaySettings, World, Call,
  pure, fails, guard, read, authorize,
}
use league_of_legnds_ai_coac.Service.Manage.{
  ReplayArtifactContent, content_of, get_ready_artifact_content,
}
use league_of_legnds_ai_coac.Service.Returns.{
  bind_inv, transact_inv, authorize_inv, authorize_world,
}

All-place :
    (P : ReplayArtifactRow → Type 0) (a : ReplayArtifactRow) (as' : List ReplayArtifactRow)
    → P a
    → All P as'
    → All P (place a as')
All-place P a [] h k = (h, tt)
All-place P a (b ∷ bs) h k = elim (Bool-cases (sorts_before a b)) [
  | inl e ↦ rw e (h, k)
  | inr e ↦ rw e (k.0, All-place P a bs h k.1)
]

All-in_order :
    (P : ReplayArtifactRow → Type 0) (as' : List ReplayArtifactRow)
    → All P as'
    → All P (in_order as')
All-in_order P [] h = tt
All-in_order P (a ∷ as') h = All-place P a (in_order as') h.0 (All-in_order P as' h.1)

-- The artifacts that are listed are those of the replay in the table.
list_for_replay-All :
    (k : ℕ) (db : Db)
    → All (λ a. In a db.artifacts × ((a.replay_id == k) ≡ true)) (list_for_replay k db)
unfolding list_for_replay
list_for_replay-All k db =
    All-in_order (λ a. In a db.artifacts × ((a.replay_id == k) ≡ true))
      (filter (λ a. a.replay_id == k) db.artifacts)
      (All-of_In (λ a. In a db.artifacts × ((a.replay_id == k) ≡ true))
        (filter (λ a. a.replay_id == k) db.artifacts)
        (λ a i. In-filter (λ b. b.replay_id == k) db.artifacts i))

guard_inv :
    {O : Type 0} (c : Bool) (e : ServiceError) (w : World O) {u : Unit {0}}
    → (guard c e w).0 ≡ ok u
    → (c ≡ false) × ((guard c e w).1 ≡ w)
unfolding guard
guard_inv true e w h = absurd (ground arith)
guard_inv false e w h = (refl, refl)

module _ (O : Type 0) (others : ℕ → Db → Db) (storage : ReplayStorage O) (settings : ReplaySettings)
    (digest : String → String → String) where
  content_inv :
      (a : Option ReplayArtifactRow) (w : World O) {content : ReplayArtifactContent} {w' : World O}
      → content_of storage settings digest others a w ≡ (ok content, w')
      → (row : ReplayArtifactRow) × (a ≡ some row)
        × (content.artifact_id ≡ row.id)
        × (content.object_key ≡ row.object_key)
  unfolding content_of pure fails
  content_inv none w h = absurd (ground arith)
  content_inv (some row) w h = (row, refl, ground arith, ground arith)

  -- Where `get_ready_artifact_content` gives the content of an artifact, the token is that of the
  -- replay, the replay is READY when it is read, and the content describes a row of the table of
  -- artifacts, at the read after that, which has the key asked for and belongs to this replay.
  pub get_ready_artifact_content_lem :
      (replay_id artifact_id : ℕ) (token : String) (w w' : World O)
      (content : ReplayArtifactContent)
      → get_ready_artifact_content storage settings digest others replay_id artifact_id token w
        ≡ (ok content, w')
      → (row : ReplayUploadRow) × (a : ReplayArtifactRow) × (find_upload replay_id
            (others w.turn w.db)
          ≡ some row)
        × (same_status row.status ready ≡ true)
        × ((d : String) × (row.token_digest ≡ some d)
            × (verify_replay_token digest settings.replay_token_secret token d ≡ true))
        × In a (others (w.turn + 1) (others w.turn w.db)).artifacts
        × ((a.replay_id == replay_id) ≡ true)
        × ((a.id == artifact_id) ≡ true)
        × (content.artifact_id ≡ a.id)
        × (content.object_key ≡ a.object_key)
  unfolding get_ready_artifact_content
  get_ready_artifact_content_lem replay_id artifact_id token w w' content h =
      let auth = authorize others settings digest replay_id token in
      let (row, a1, h1) = bind_inv O auth _ w {b = content} {w' = w'} h in
      let (_, found, _, fits) =
        authorize_inv O others settings digest replay_id token w {row = row} a1 in
      let world = authorize_world O others settings digest replay_id token w {row = row} a1 in
      let check : Call O (Unit {0}) = guard (not (same_status row.status ready)) replay_not_found in
      let (u, a2, h2) = bind_inv O check _ (auth w).1 {b = content} {w' = w'} h1 in
      let (is_ready, same_world) =
        guard_inv (not (same_status row.status ready)) replay_not_found (auth w).1 {u = u} a2 in
      let w2 : World O = (check (auth w).1).1 in
      let db2 : Db = others (w.turn + 1) (others w.turn w.db) in
      let is_db2 : others w2.turn w2.db ≡ db2 = rw (same_world, world) refl in
      let (artifacts, a3, h3) =
        bind_inv O (read others (list_for_replay replay_id)) _ w2 {b = content} {w' = w'} h2 in
      let got =
        transact_inv O others (λ db. ok (list_for_replay replay_id db, db)) w2 {a = artifacts} a3 in
      let same : list_for_replay replay_id (others w2.turn w2.db) ≡ artifacts =
        ground (arith, got) in
      let (a, hit, named, key) =
        content_inv (find (λ b. b.id == artifact_id) artifacts)
          (read others (list_for_replay replay_id) w2).1 {content = content} {w' = w'} h3 in
      let listed : list_for_replay replay_id db2 ≡ artifacts = rw is_db2 at same in
      let all_fit : All (λ b. In b db2.artifacts × ((b.replay_id == replay_id) ≡ true)) artifacts =
        subst (λ bs. All (λ b. In b db2.artifacts × ((b.replay_id == replay_id) ≡ true)) bs) listed
          (list_for_replay-All replay_id db2) in
      let (stored, own) =
        All-find (λ b. In b db2.artifacts × ((b.replay_id == replay_id) ≡ true))
          (λ b. b.id == artifact_id) artifacts {x = a} hit all_fit in
      (
        row,
        a,
        found,
        ground arith,
        fits,
        stored,
        own,
        find_sound (λ b. b.id == artifact_id) artifacts {a = a} hit,
        named,
        key,
      )
