-- ===== src/Detection.antt =====
-- The records of platform detection and their table: backend/app/repositories/platform_detections.py
-- with models/platform_detection.py. Times are instants in microseconds.
pub mod Codec
pub mod Finding
pub mod Store
pub mod Lookup
pub mod Service
use Prim.Native.String
use league_of_legnds_ai_coac.Prelude.{
  ℕ, suc, leb, String, Bool, true, false, not, ◌&&◌, Option, none, some, List, [], ◌∷◌, ◌++◌, map,
  length, any, find, filter, update_where, ltb, ◌==◌, str_eq, if◌then◌else◌, Outcome, ok, raise,
  raise_if, ◌>>=◌, ◌>>◌,
}
use league_of_legnds_ai_coac.Prelude.Sort.{sort_by}
use league_of_legnds_ai_coac.Routing.{Platform, platform_value, platform_of, routes_for}

pub data DetectionStatus : Type 0 where
  resolved ambiguous not_found : DetectionStatus

abbrev pub status_value : DetectionStatus → String
status_value resolved = "resolved"
status_value ambiguous = "ambiguous"
status_value not_found = "not_found"

-- The `ValueError`s of a record, the key error of a value that names no member, and what the
-- database raises on a primary key that is taken and on a text that is too long for its column.
pub data StoreError : Type 0 where
  resolved_without_puuid resolved_without_platform resolved_with_confirmation : StoreError
  ambiguous_without_puuid ambiguous_without_platforms ambiguous_without_confirmation : StoreError
  not_found_with_puuid not_found_with_platforms not_found_with_confirmation : StoreError
  not_found_with_names unknown_platform unknown_status integrity_error data_error multiple_results :
      StoreError

pub record PlatformDetectionRecord : Type 0 where
  pub id : ℕ
  pub game_name_key : String
  pub tag_line_key : String
  pub canonical_game_name : Option String
  pub canonical_tag_line : Option String
  pub puuid : Option String
  pub status : DetectionStatus
  pub candidate_platforms : List Platform
  pub fetched_at : ℕ
  pub expires_at : ℕ
  pub confirmation_expires_at : Option ℕ

abbrev pub is_none {ℓ} : {A : Type ℓ} → Option A → Bool
is_none none = true
is_none (some a) = false

-- The tests of `__post_init__` by status; time zones and members hold by type.
unfoldable pub post_init : DetectionStatus → PlatformDetectionRecord → Outcome StoreError (Unit {0})
post_init resolved r = do
  raise_if (is_none r.puuid) resolved_without_puuid
  raise_if (not (length r.candidate_platforms == 1)) resolved_without_platform
  raise_if (not (is_none r.confirmation_expires_at)) resolved_with_confirmation
post_init ambiguous r = do
  raise_if (is_none r.puuid) ambiguous_without_puuid
  raise_if (ltb (length r.candidate_platforms) 2) ambiguous_without_platforms
  raise_if (is_none r.confirmation_expires_at) ambiguous_without_confirmation
post_init not_found r = do
  raise_if (not (is_none r.puuid)) not_found_with_puuid
  raise_if (not (length r.candidate_platforms == 0)) not_found_with_platforms
  raise_if (not (is_none r.confirmation_expires_at)) not_found_with_confirmation
  raise_if (not (is_none r.canonical_game_name && is_none r.canonical_tag_line))
      not_found_with_names

-- The constructor of the data class.
unfoldable pub platform_detection_record :
    PlatformDetectionRecord → Outcome StoreError PlatformDetectionRecord
platform_detection_record r = do post_init r.status r; ok r

pub record PlatformDetectionRow : Type 0 where
  pub id : ℕ
  pub game_name_key : String
  pub tag_line_key : String
  pub canonical_game_name : Option String
  pub canonical_tag_line : Option String
  pub puuid : Option String
  pub result_status : String
  pub candidate_platforms : List String
  pub fetched_at : ℕ
  pub expires_at : ℕ
  pub confirmation_expires_at : Option ℕ
  pub created_at : ℕ
  pub updated_at : ℕ

-- `_ordered_candidates`
unfoldable pub ordered_candidates : List Platform → List Platform
ordered_candidates candidates = sort_by (λ platform. (routes_for platform).sort_order) candidates

abbrev pub status_of : String → Outcome StoreError DetectionStatus
status_of value =
    if str_eq value "resolved"
    then ok resolved
    else if str_eq value "ambiguous"
    then ok ambiguous
    else if str_eq value "not_found"
    then ok not_found
    else raise unknown_status

abbrev pub or_unknown : Option Platform → Outcome StoreError Platform
or_unknown none = raise unknown_platform
or_unknown (some platform) = ok platform

abbrev pub platforms_of : List String → Outcome StoreError (List Platform)
platforms_of [] = ok []
platforms_of (value ∷ values) = do
  first ← or_unknown (platform_of value)
  rest ← platforms_of values
  ok (first ∷ rest)

-- `_to_record`
unfoldable pub to_record : PlatformDetectionRow → Outcome StoreError PlatformDetectionRecord
unfolding ordered_candidates platform_detection_record
to_record row = do
  platforms ← platforms_of row.candidate_platforms
  status ← status_of row.result_status
  platform_detection_record (record {
    id = row.id;
    game_name_key = row.game_name_key;
    tag_line_key = row.tag_line_key;
    canonical_game_name = row.canonical_game_name;
    canonical_tag_line = row.canonical_tag_line;
    puuid = row.puuid;
    status = status;
    candidate_platforms = ordered_candidates platforms;
    fetched_at = row.fetched_at;
    expires_at = row.expires_at;
    confirmation_expires_at = row.confirmation_expires_at;
  })

-- The columns that `upsert` inserts.
unfoldable pub values_of : PlatformDetectionRecord → PlatformDetectionRow
values_of r = record {
  id = r.id;
  game_name_key = r.game_name_key;
  tag_line_key = r.tag_line_key;
  canonical_game_name = r.canonical_game_name;
  canonical_tag_line = r.canonical_tag_line;
  puuid = r.puuid;
  result_status = status_value r.status;
  candidate_platforms = map platform_value r.candidate_platforms;
  fetched_at = r.fetched_at;
  expires_at = r.expires_at;
  confirmation_expires_at = r.confirmation_expires_at;
  created_at = r.fetched_at;
  updated_at = r.fetched_at;
}

abbrev pub Rows : Type 0
Rows = List PlatformDetectionRow

abbrev pub has_keys : String → String → PlatformDetectionRow → Bool
has_keys game tag row = str_eq row.game_name_key game && str_eq row.tag_line_key tag

abbrev pub has_id : ℕ → PlatformDetectionRow → Bool
has_id k row = row.id == k

-- `on_conflict_do_update`: the key, the keys of the name and the creation time stay.
unfoldable pub overwrite : PlatformDetectionRow → PlatformDetectionRow → PlatformDetectionRow
overwrite new old = record new {
  id = old.id;
  game_name_key = old.game_name_key;
  tag_line_key = old.tag_line_key;
  created_at = old.created_at;
}

abbrev pub text_length : String → ℕ
text_length String.[] = 0
text_length (String.◌∷◌ c s) = suc (text_length s)

abbrev pub fits_column : ℕ → Option String → Bool
fits_column n none = true
fits_column n (some s) = leb (text_length s) n

-- The lengths of the columns: `String(128)`, `String(64)` and `String(16)`.
unfoldable pub fits_columns : PlatformDetectionRow → Bool
fits_columns row =
    fits_column 128 (some row.game_name_key)
    && fits_column 64 (some row.tag_line_key)
    && fits_column 128 row.canonical_game_name
    && fits_column 64 row.canonical_tag_line
    && fits_column 128 row.puuid
    && fits_column 16 (some row.result_status)

-- The insertion that turns into an update where a row with both keys is there: the row that it
-- returns, and the table.
unfoldable pub upsert_row :
    PlatformDetectionRow → Rows → Outcome StoreError (PlatformDetectionRow × Rows)
unfolding overwrite
upsert_row new rows =
    if fits_columns new
    then elim (find (has_keys new.game_name_key new.tag_line_key) rows) [
      | some old ↦ ok (
        overwrite new old,
        update_where (has_keys new.game_name_key new.tag_line_key) (overwrite new) rows,
      )
      | none ↦
          if any (has_id new.id) rows then raise integrity_error else ok (new, rows ++ new ∷ [])
    ]
    else raise data_error

-- The record that `upsert` builds before it writes.
abbrev pub normalized : PlatformDetectionRecord → PlatformDetectionRecord
normalized r = record r { candidate_platforms = ordered_candidates r.candidate_platforms }

abbrev pub write :
    Rows → PlatformDetectionRecord → Outcome StoreError PlatformDetectionRecord × Rows
write rows r = elim (upsert_row (values_of r) rows) [
  | raise e ↦ (raise e, rows)
  | ok (row, rows') ↦ (to_record row, rows')
]

-- `upsert`: what it returns or raises, and the table after it.
unfoldable pub upsert :
    PlatformDetectionRecord → Rows → Outcome StoreError PlatformDetectionRecord × Rows
unfolding ordered_candidates platform_detection_record
upsert r rows = elim (platform_detection_record (normalized r)) [
  | raise e ↦ (raise e, rows)
  | ok r' ↦ write rows r'
]

-- `scalar_one_or_none`
abbrev pub scalar_one_or_none : Rows → Outcome StoreError (Option PlatformDetectionRow)
scalar_one_or_none [] = ok none
scalar_one_or_none (row ∷ []) = ok (some row)
scalar_one_or_none (row ∷ other ∷ rows) = raise multiple_results

abbrev pub record_or_none :
    Option PlatformDetectionRow → Outcome StoreError (Option PlatformDetectionRecord)
record_or_none none = ok none
record_or_none (some row) = to_record row >>= λ r. ok (some r)

unfoldable pub get_fresh :
    String → String → ℕ → Rows → Outcome StoreError (Option PlatformDetectionRecord)
get_fresh game tag now rows = do
  row ← scalar_one_or_none (filter (λ row. has_keys game tag row && ltb now row.expires_at) rows)
  record_or_none row

abbrev pub is_after : ℕ → Option ℕ → Bool
is_after now none = false
is_after now (some at) = ltb now at

unfoldable pub get_for_confirmation :
    ℕ → ℕ → Rows → Outcome StoreError (Option PlatformDetectionRecord)
get_for_confirmation detection_id now rows = do
  row ← scalar_one_or_none (
      filter
        (λ row.
          has_id detection_id row
          && (ltb now row.expires_at && is_after now row.confirmation_expires_at))
        rows)
  record_or_none row

unfoldable pub delete : ℕ → Rows → Rows
delete detection_id rows = filter (λ row. not (has_id detection_id row)) rows
