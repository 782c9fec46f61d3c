-- ===== src/Processor/Pipeline.antt =====
-- What `_process_in_scratch` works with: the tables with other sessions, the object store, the files
-- and the media runner, of services/replays/processor.py. `Workshop` is the interface of the last three.
pub mod Honest
pub mod Guards
pub mod Through
use league_of_legnds_ai_coac.Prelude.{
  ℕ, ◌+◌, String, Bool, true, false, Option, none, some, List, [], ◌∷◌, if◌then◌else◌, Outcome, ok,
  raise,
}
use league_of_legnds_ai_coac.Domain.{
  ReplayStatus, ReplayArtifactKind, transcoding, extracting, probing, queued,
}
use league_of_legnds_ai_coac.Rows.{ReplayUploadRow}
use league_of_legnds_ai_coac.Database.{Db, DbError, state_conflict, Tx}
use league_of_legnds_ai_coac.Repo.Replays.{Assign, get, transition}
use league_of_legnds_ai_coac.Repo.Recovery.{is_gone}
use league_of_legnds_ai_coac.Service.Calls.{StoredObject, World}
use league_of_legnds_ai_coac.Media.{Float, MediaProbe}
use league_of_legnds_ai_coac.Processor.{ProcessError, media, object_not_found, other_error}

-- The files of the scratch directory; each frame is written to a new one.
pub data Scratch : Type 0 where
  source_path normalized_path frame_path : Scratch

-- The storage, the media runner and the files, on a state of type `O`; `to_ms` is `int(x * 1000)`
-- and `frame_share i n` is `int((i / n) * 14)`, in floats.
pub record Workshop (O : Type 0) : Type 0 where
  pub download_to_path : String → Scratch → O → Outcome ProcessError (Option String) × O
  pub upload_from_path : String → Scratch → O → Outcome ProcessError StoredObject × O
  pub delete : String → O → Outcome ProcessError (Unit {0}) × O
  pub delete_prefix : String → O → Outcome ProcessError (Unit {0}) × O
  pub sha256_file : Scratch → O → Outcome ProcessError String × O
  pub file_size : Scratch → O → Outcome ProcessError ℕ × O
  pub probe : Scratch → O → Outcome ProcessError MediaProbe × O
  pub reports : O → List ℕ
  pub normalize : MediaProbe → O → Outcome ProcessError MediaProbe × O
  pub extract_frame : ℕ → Scratch → O → Outcome ProcessError (Unit {0}) × O
  pub to_ms : Float → ℕ
  pub frame_share : ℕ → ℕ → ℕ
  pub normalized_key : ℕ → String
  pub normalized_prefix : ℕ → String
  pub frames_prefix : ℕ → String
  pub frame_key : ℕ → ReplayArtifactKind → ℕ → String
  pub clock : ℕ → ℕ
  pub uuid4 : ℕ → ℕ

-- `ReplayProcessingCancelled`, `ReplayStateConflict`, or any other exception.
pub data Stop : Type 0 where
  cancelled conflicted : Stop
  failed : ProcessError → Stop

abbrev pub Work : Type 0 → Type 0 → Type 0
Work O A = World O → Outcome Stop A × World O

abbrev pub continue :
    {O A B : Type 0} → Outcome Stop A × World O → (A → Work O B) → Outcome Stop B × World O
continue (ok a, w) f = f a w
continue (raise e, w) f = (raise e, w)

infixl 5 ◌>>=◌ ◌>>◌
unfoldable pub ◌>>=◌ : {O A B : Type 0} → Work O A → (A → Work O B) → Work O B
◌>>=◌ m f w = continue (m w) f

abbrev pub ◌>>◌ : {O A B : Type 0} → Work O A → Work O B → Work O B
m >> k = m >>= λ _. k

unfoldable pub pure : {O A : Type 0} → A → Work O A
pure a w = (ok a, w)

unfoldable pub stop : {O A : Type 0} → Stop → Work O A
stop e w = (raise e, w)

abbrev pub tried :
    {O A : Type 0}
    → World O
    → Db
    → Outcome DbError (A × Db)
    → Outcome Stop (Outcome DbError A) × World O
tried w before (ok (a, after)) = (ok (ok a), record w { db = after; turn = w.turn + 1 })
tried w before (raise e) = (ok (raise e), record w { db = before; turn = w.turn + 1 })

abbrev pub did : {O A : Type 0} → World O → Outcome ProcessError A × O → Outcome Stop A × World O
did w (ok a, objects) = (ok a, record w { objects = objects })
did w (raise e, objects) = (raise (failed e), record w { objects = objects })

abbrev pub stop_of : DbError → Stop
stop_of state_conflict = conflicted
stop_of _ = failed other_error

abbrev pub or_stop : {O A : Type 0} → Outcome DbError A → Work O A
or_stop (ok a) = pure a
or_stop (raise e) = stop (stop_of e)

-- A call of the storage, the media runner or the file system.
unfoldable pub outside : {O A : Type 0} → (O → Outcome ProcessError A × O) → Work O A
outside f w = did w (f w.objects)

abbrev pub lifted : {A E : Type 0} → (E → ProcessError) → Outcome E A → Outcome Stop A
lifted f (ok a) = ok a
lifted f (raise e) = raise (failed (f e))

-- A result of pure code, or the exception that it raises.
unfoldable pub lift : {O A E : Type 0} → (E → ProcessError) → Outcome E A → Work O A
lift f o w = (lifted f o, w)

module _ {O : Type 0} (workshop : Workshop O) (others : ℕ → Db → Db) where
  -- A transaction, after what other sessions do before it.
  unfoldable pub attempt : {A : Type 0} → Tx A → Work O (Outcome DbError A)
  attempt tx w = tried w (others w.turn w.db) (tx (others w.turn w.db))

  abbrev pub transact : {A : Type 0} → Tx A → Work O A
  transact tx = attempt tx >>= or_stop

  -- `self._clock()`
  unfoldable pub reading : Work O ℕ
  reading w = (ok (workshop.clock w.turn), w)

  abbrev pub or_missing : Option ReplayUploadRow → Work O ReplayUploadRow
  or_missing none = stop (failed (media "REPLAY_MEDIA_UNSUPPORTED"))
  or_missing (some row) = pure row

  -- `_require_replay`
  unfoldable pub require_replay : ℕ → Work O ReplayUploadRow
  unfolding attempt
  require_replay replay_id = do found ← transact (λ db. ok (get replay_id db, db)); or_missing found

  -- `_ensure_not_deleting`
  unfoldable pub ensure_not_deleting : ℕ → Work O (Unit {0})
  unfolding require_replay
  ensure_not_deleting replay_id = do
    latest ← require_replay replay_id
    (if is_gone latest.status then stop cancelled else pure tt)

  -- A conflict is looked into: a deletion that won the race is told as such.
  abbrev pub look_into : ℕ → Outcome DbError ReplayUploadRow → Work O ReplayUploadRow
  look_into replay_id (ok row) = pure row
  look_into replay_id (raise state_conflict) = do
    latest ← require_replay replay_id
    ensure_not_deleting latest.id
    stop conflicted
  look_into replay_id (raise e) = stop (failed other_error)

  -- `_transition`
  unfoldable pub move :
      ReplayUploadRow → (ReplayStatus → Bool) → ReplayStatus → List Assign → Work O ReplayUploadRow
  unfolding ensure_not_deleting
  move row expected status values = do
    ensure_not_deleting row.id
    now ← reading
    result ← attempt (transition row.id expected row.version status values now)
    look_into row.id result

  abbrev pub after_missing : Outcome Stop (Unit {0}) × World O → Outcome Stop (Unit {0}) × World O
  after_missing (raise (failed object_not_found), w) = (ok tt, w)
  after_missing r = r

  -- `_delete_missing_ok`
  unfoldable pub delete_missing_ok : String → Work O (Unit {0})
  unfolding outside
  delete_missing_ok key w = after_missing (outside (workshop.delete key) w)

  -- The object that was uploaded is taken back where the deletion has won.
  abbrev pub or_roll_back :
      String
      → StoredObject
      → Outcome Stop (Unit {0}) × World O
      → Outcome Stop StoredObject × World O
  or_roll_back key stored (ok _, w) = (ok stored, w)
  or_roll_back key stored (raise cancelled, w) = (delete_missing_ok key >>= λ _. stop cancelled) w
  or_roll_back key stored (raise e, w) = (raise e, w)

  -- `_upload_if_not_deleting`
  unfoldable pub upload_if_not_deleting : ℕ → String → Scratch → Work O StoredObject
  unfolding ensure_not_deleting delete_missing_ok outside
  upload_if_not_deleting replay_id key path = do
    ensure_not_deleting replay_id
    stored ← outside (workshop.upload_from_path key path)
    (λ w. or_roll_back key stored (ensure_not_deleting replay_id w))
