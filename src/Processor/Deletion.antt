-- ===== src/Processor/Deletion.antt =====
-- `delete_source` and `delete_all` of `ReplayProcessor`, on the tables and the object store, with what
-- other sessions do before each transaction.
use league_of_legnds_ai_coac.Prelude.{
  ℕ, ◌+◌, String, Bool, true, Option, none, some, List, [], ◌∷◌, ◌++◌, if◌then◌else◌, Outcome, ok,
  raise, map,
}
use league_of_legnds_ai_coac.Domain.{deleting}
use league_of_legnds_ai_coac.Rows.{ReplayUploadRow, ReplayJobRow, ReplayArtifactRow, same_status}
use league_of_legnds_ai_coac.Database.{Db, DbError, Tx}
use league_of_legnds_ai_coac.Repo.Replays.{
  set_source_delete_after, set_updated_at, set_source_object_key, set_source_sha256,
  set_actual_size_bytes, get, transition, scrub_deleted,
}
use league_of_legnds_ai_coac.Repo.Jobs.{succeed}
use league_of_legnds_ai_coac.Repo.Recovery.{is_gone}
use league_of_legnds_ai_coac.Repo.Artifacts.{list_for_replay, delete_rows}
use league_of_legnds_ai_coac.Service.Calls.{World, non_empty}
use league_of_legnds_ai_coac.Processor.{
  ProcessError, media, object_not_found, other_error, classify_process_error, fail_job,
}

-- The operations of `ReplayStorage` that deletions use. `id_text` is the text of a UUID.
pub record DeletingStorage (Objects : Type 0) : Type 0 where
  pub delete : String → Objects → Outcome ProcessError (Unit {0}) × Objects
  pub delete_prefix : String → Objects → Outcome ProcessError (Unit {0}) × Objects
  pub id_text : ℕ → String
  pub is_s3 : Bool

abbrev pub joined : String → String → String
joined String.[] t = t
joined (String.◌∷◌ c s) t = String.◌∷◌ c (joined s t)

-- `temp_upload_key` of storage/base.py
abbrev pub temp_upload_key : String → String
temp_upload_key key = joined "tmp/" key

-- An exception keeps what was done before it.
abbrev pub Work : Type 0 → Type 0 → Type 0
Work O A = World O → Outcome ProcessError A × World O

abbrev pub continue :
    {O A B : Type 0}
    → Outcome ProcessError A × World O
    → (A → Work O B)
    → Outcome ProcessError B × World O
continue (ok a, w) f = f a w
continue (raise e, w) f = (raise e, w)

infixl 5 ◌>>=◌ ◌>>◌
unfoldable pub ◌>>=◌ : {O A B : Type 0} → Work O A → (A → Work O B) → Work O B
◌>>=◌ m f w = continue (m w) f

abbrev pub ◌>>◌ : {O A B : Type 0} → Work O A → Work O B → Work O B
m >> k = m >>= λ _. k

abbrev pub done : {O : Type 0} → Work O (Unit {0})
done w = (ok tt, w)

-- A transaction, after what other sessions do before it; what the repository raises is classified as
-- any other exception.
unfoldable pub transact : {O A : Type 0} → (ℕ → Db → Db) → Tx A → Work O A
transact others tx w =
    let before = others w.turn w.db in
    elim (tx before) [
      | ok (a, after) ↦ (ok a, record w { db = after; turn = w.turn + 1 })
      | raise e ↦ (raise other_error, record w { db = before; turn = w.turn + 1 })
    ]

-- `_delete_missing_ok`
abbrev pub missing_ok : Outcome ProcessError (Unit {0}) → Outcome ProcessError (Unit {0})
missing_ok (raise object_not_found) = ok tt
missing_ok r = r

abbrev pub first_error : Option ProcessError → Outcome ProcessError (Unit {0}) → Option ProcessError
first_error (some e) r = some e
first_error none (ok _) = none
first_error none (raise e) = some e

module _ {O : Type 0} (storage : DeletingStorage O) (others : ℕ → Db → Db) where
  abbrev pub or_missing : Option ReplayUploadRow → Work O ReplayUploadRow
  or_missing none w = (raise (media "REPLAY_MEDIA_UNSUPPORTED"), w)
  or_missing (some row) w = (ok row, w)

  -- `_require_replay`
  unfoldable pub require_replay : ℕ → Work O ReplayUploadRow
  unfolding get
  require_replay replay_id = transact others (λ db. ok (get replay_id db, db)) >>= or_missing

  delete_key : Option String → Work O (Unit {0})
  delete_key none w = (ok tt, w)
  delete_key (some key) w =
      let (result, objects) = storage.delete key w.objects in
      (missing_ok result, record w { objects = objects })

  -- The body of the `try` of `delete_source`.
  unfoldable pub delete_source_body : ReplayJobRow → ℕ → Work O (Unit {0})
  unfolding delete_key require_replay
  delete_source_body job now = do
    row ← require_replay job.replay_id
    delete_key (non_empty row.source_object_key)
    transact others (
        transition row.id (same_status row.status) row.version row.status
          (set_source_object_key none
            ∷ set_source_sha256 none
            ∷ set_actual_size_bytes none
            ∷ set_source_delete_after none
            ∷ set_updated_at now
            ∷ [])
          now)
    transact others (succeed job.id now)
    done

  -- The prefixes under which the objects of a replay lie.
  abbrev pub prefixes : ℕ → List String
  prefixes replay_id =
      joined "source/" (storage.id_text replay_id)
      ∷ joined "normalized/" (storage.id_text replay_id)
      ∷ joined "frames/" (storage.id_text replay_id)
      ∷ temp_upload_key (joined "source/" (storage.id_text replay_id))
      ∷ []

  -- Each of the deletions is tried; the first exception is kept.
  unfoldable pub sweep_prefixes : List String → Option ProcessError → O → Option ProcessError × O
  sweep_prefixes [] e objects = (e, objects)
  sweep_prefixes (p ∷ ps) e objects =
      let (result, objects') = storage.delete_prefix p objects in
      sweep_prefixes ps (first_error e result) objects'

  unfoldable pub delete_keys : List String → Option ProcessError → O → Option ProcessError × O
  delete_keys [] e objects = (e, objects)
  delete_keys (k ∷ ks) e objects =
      let (result, objects') = storage.delete k objects in
      delete_keys ks (first_error e (missing_ok result)) objects'

  source_keys : Option String → List String
  source_keys none = []
  source_keys (some key) = if storage.is_s3 then key ∷ temp_upload_key key ∷ [] else key ∷ []

  normalized_keys : Option String → List String
  normalized_keys none = []
  normalized_keys (some key) = key ∷ []

  -- The keys that the rows know.
  unfoldable pub known_keys : ReplayUploadRow → List ReplayArtifactRow → List String
  unfolding source_keys normalized_keys
  known_keys row artifacts =
      source_keys (non_empty row.source_object_key)
      ++ normalized_keys (non_empty row.normalized_object_key)
      ++ map (λ (a : ReplayArtifactRow). a.object_key) artifacts

  unfoldable pub raise_first : Option ProcessError → Work O (Unit {0})
  raise_first none w = (ok tt, w)
  raise_first (some e) w = (raise e, w)

  unfoldable pub sweep : ReplayUploadRow → Work O (Option ProcessError)
  unfolding sweep_prefixes
  sweep row w =
      let (e, objects) = sweep_prefixes (prefixes row.id) none w.objects in
      (ok e, record w { objects = objects })

  unfoldable pub delete_known :
      ReplayUploadRow → Option ProcessError → List ReplayArtifactRow → Work O (Unit {0})
  unfolding delete_keys known_keys raise_first
  delete_known row e artifacts w =
      let (e', objects) = delete_keys (known_keys row artifacts) e w.objects in
      raise_first e' (record w { objects = objects })

  -- `first_storage_error` is raised after both loops.
  unfoldable pub empty_storage : ReplayUploadRow → Work O (Unit {0})
  unfolding sweep delete_known
  empty_storage row = do
    e ← sweep row
    artifacts ← transact others (λ db. ok (list_for_replay row.id db, db))
    delete_known row e artifacts

  -- `row` once it is DELETING or DELETED.
  unfoldable pub ensure_deleting : ReplayUploadRow → ℕ → Work O ReplayUploadRow
  ensure_deleting row now =
      if is_gone row.status
      then (λ w. (ok row, w))
      else transact others (
          transition row.id (same_status row.status) row.version deleting (set_updated_at now ∷ [])
            now)

  -- The transactions at the end.
  unfoldable pub empty_rows : ReplayJobRow → ReplayUploadRow → ℕ → Work O (Unit {0})
  empty_rows job row now = do
    transact others (λ db. ok (delete_rows row.id db))
    transact others (scrub_deleted row.id now)
    transact others (succeed job.id now)
    done

  -- The body of the `try` of `delete_all`.
  unfoldable pub delete_all_body : ReplayJobRow → ℕ → Work O (Unit {0})
  unfolding ensure_deleting empty_storage empty_rows require_replay
  delete_all_body job now = do
    found ← require_replay job.replay_id
    row ← ensure_deleting found now
    empty_storage row
    empty_rows job row now

  -- `except Exception as error`: the job is failed, retried while attempts are left.
  unfoldable pub failing_retryably :
      ReplayJobRow
      → ℕ
      → ℕ
      → Outcome ProcessError (Unit {0}) × World O
      → Outcome DbError (Unit {0}) × World O
  unfolding fail_job classify_process_error
  failing_retryably job now jitter (ok _, w) = (ok tt, w)
  failing_retryably job now jitter (raise e, w) =
      let before = others w.turn w.db in
      elim (fail_job job (classify_process_error e).0 true now jitter before) [
        | ok (_, after) ↦ (ok tt, record w { db = after; turn = w.turn + 1 })
        | raise x ↦ (raise x, record w { db = before; turn = w.turn + 1 })
      ]

  unfoldable pub delete_source :
      ReplayJobRow → ℕ → ℕ → World O → Outcome DbError (Unit {0}) × World O
  unfolding delete_source_body failing_retryably
  delete_source job now jitter w = failing_retryably job now jitter (delete_source_body job now w)

  unfoldable pub delete_all : ReplayJobRow → ℕ → ℕ → World O → Outcome DbError (Unit {0}) × World O
  unfolding delete_all_body failing_retryably
  delete_all job now jitter w = failing_retryably job now jitter (delete_all_body job now w)
