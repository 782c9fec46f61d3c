-- ===== src/Detection/Lookup.antt =====
-- The repository as a map from pairs of keys to records: what is read after `upsert`.
use league_of_legnds_ai_coac.Prelude.{
  ℕ, ◌≡◌, refl, sym, ◌∙◌, String, true, false, ◌&&◌, Option, none, some, any, update_where, [], ◌∷◌,
  ◌++◌, All, ltb, str_eq, str_eq_iff, if◌then◌else◌, arith, ok, raise, ◌>>=◌, Outcome, Bool-cases,
  Option-cases, inl, inr, find_sound,
}
use league_of_legnds_ai_coac.Prelude.Tables.{All-append, All-update_where}
use league_of_legnds_ai_coac.Detection.{
  PlatformDetectionRecord, PlatformDetectionRow, StoreError, Rows, has_keys, has_id, values_of,
  fits_columns, data_error, overwrite, upsert_row, write, upsert, to_record, get_fresh,
}
use league_of_legnds_ai_coac.Detection.Codec.{
  IsValid, IsValid-moved, to_record-values_of, construct_ok, ordered_candidates_same,
}
use league_of_legnds_ai_coac.Detection.Finding.{filter-find}
use league_of_legnds_ai_coac.Detection.Store.{
  IsSoundTable, IsInsertable, entry, over, update_entries, append_entries, update_sound,
  append_sound,
}

-- What is read of the row under the keys.
abbrev pub fresh_of :
    ℕ → Option PlatformDetectionRow → Outcome StoreError (Option PlatformDetectionRecord)
fresh_of now none = ok none
fresh_of now (some row) =
    if ltb now row.expires_at then (to_record row >>= λ r. ok (some r)) else ok none

pub get_fresh-entry :
    (game tag : String) (now : ℕ) (rows : Rows)
    → IsSoundTable rows
    → get_fresh game tag now rows ≡ fresh_of now (entry game tag rows)
unfolding get_fresh
get_fresh-entry game tag now rows sound =
    rw
      (filter-find (has_keys game tag) (λ row. ltb now row.expires_at) rows
        (sound.keys_once game tag))
      (elim (Option-cases (entry game tag rows)) [
        | inl n ↦ rw n refl
        | inr (x, f) ↦
            rw f
              (elim (Bool-cases (ltb now x.expires_at)) [ inl e ↦ rw e refl | inr e ↦ rw e refl ])
      ])

-- The record that was written, with the key of the row that it went to.
abbrev pub with_id : PlatformDetectionRecord → ℕ → PlatformDetectionRecord
with_id r k = record r { id = k }

-- What is read under any keys after the record has been written.
abbrev pub read_back :
    PlatformDetectionRecord
    → ℕ
    → String
    → String
    → ℕ
    → Rows
    → Outcome StoreError (Option PlatformDetectionRecord)
read_back r k game tag now rows =
    if str_eq r.game_name_key game && str_eq r.tag_line_key tag
    then (if ltb now r.expires_at then ok (some (with_id r k)) else ok none)
    else get_fresh game tag now rows

-- The key that a record is returned with: that of the row with its pair of keys, or else its own.
abbrev pub key_over : PlatformDetectionRecord → Option PlatformDetectionRow → ℕ
key_over r none = r.id
key_over r (some old) = old.id

pub record IsUpserted (r : PlatformDetectionRecord) (before : Rows) : Type 0 where
  pub k : ℕ
  pub key : k ≡ key_over r (entry r.game_name_key r.tag_line_key before)
  pub after : Rows
  pub returned : upsert r before ≡ (ok (with_id r k), after)
  pub sound : IsSoundTable after
  pub reads :
      (game tag : String) (now : ℕ)
      → get_fresh game tag now after ≡ read_back r k game tag now before

upsert_valid :
    (r : PlatformDetectionRecord) (rows : Rows) → IsValid r → upsert r rows ≡ write rows r
unfolding upsert
upsert_valid r rows v = rw (upsert, ordered_candidates_same r v, construct_ok r v) refl

-- A record that is too long for a column leaves the table alone.
pub upsert_wide :
    (r : PlatformDetectionRecord) (rows : Rows)
    → IsValid r
    → fits_columns (values_of r) ≡ false
    → upsert r rows ≡ (raise data_error, rows)
unfolding upsert_row
upsert_wide r rows v wide = upsert_valid r rows v ∙ rw (write, upsert_row, wide) refl

same_keys :
    (r : PlatformDetectionRecord) (old : PlatformDetectionRow)
    → has_keys r.game_name_key r.tag_line_key old ≡ true
    → (old.game_name_key ≡ r.game_name_key) × (old.tag_line_key ≡ r.tag_line_key)
same_keys r old h = ground (
  arith,
  str_eq_iff old.game_name_key r.game_name_key,
  str_eq_iff old.tag_line_key r.tag_line_key,
)

module _ (r : PlatformDetectionRecord) (rows : Rows) (v : IsValid r)
    (narrow : fits_columns (values_of r) ≡ true) (sound : IsSoundTable rows) where
  reads_of :
      (row : PlatformDetectionRow) (k : ℕ) (after : Rows)
      → IsSoundTable after
      → to_record row ≡ ok (with_id r k)
      → row.expires_at ≡ r.expires_at
      → ((game tag : String)
          → entry game tag after
            ≡ (if has_keys game tag (values_of r) then some row else entry game tag rows))
      → (game tag : String) (now : ℕ)
      → get_fresh game tag now after ≡ read_back r k game tag now rows
  unfolding values_of
  reads_of row k after s reads until at game tag now =
      rw (get_fresh-entry game tag now after s, at game tag)
        (elim (Bool-cases (has_keys game tag (values_of r))) [
          | inl e ↦ rw (e, reads, until) refl
          | inr e ↦ rw e (sym (get_fresh-entry game tag now rows sound))
        ])

  upsert_new :
      entry r.game_name_key r.tag_line_key rows ≡ none
      → any (has_id r.id) rows ≡ false
      → IsUpserted r rows
  unfolding upsert_row values_of
  upsert_new absent own =
      let s = append_sound r rows v sound absent own in
      let reads : to_record (values_of r) ≡ ok r =
        to_record-values_of r r.fetched_at r.fetched_at v in
      record {
        k = r.id;
        key = rw absent refl;
        after = rows ++ values_of r ∷ [];
        returned = upsert_valid r rows v ∙ rw (write, upsert_row, narrow, absent, own, reads) refl;
        sound = s;
        reads =
            reads_of (values_of r) r.id (rows ++ values_of r ∷ []) s reads refl
              (λ game tag. append_entries (values_of r) rows game tag absent);
      }

  upsert_over :
      (old : PlatformDetectionRow)
      → entry r.game_name_key r.tag_line_key rows ≡ some old
      → IsUpserted r rows
  unfolding upsert_row values_of overwrite
  upsert_over old found =
      let s = update_sound r rows v sound in
      let mine : (old.game_name_key ≡ r.game_name_key) × (old.tag_line_key ≡ r.tag_line_key) =
        same_keys r old
          (find_sound (has_keys r.game_name_key r.tag_line_key) rows {a = old} found) in
      let reads : to_record (overwrite (values_of r) old) ≡ ok (with_id r old.id) =
        to_record-values_of (over r old) old.created_at r.fetched_at
          (IsValid-moved r old.id old.game_name_key old.tag_line_key v)
        ∙ rw (mine.0, mine.1) refl in
      record {
        k = old.id;
        key = rw found refl;
        after =
            update_where (has_keys r.game_name_key r.tag_line_key) (overwrite (values_of r)) rows;
        returned = upsert_valid r rows v ∙ rw (write, upsert_row, narrow, found, reads) refl;
        sound = s;
        reads =
            reads_of (overwrite (values_of r) old) old.id
              (update_where (has_keys r.game_name_key r.tag_line_key) (overwrite (values_of r))
                rows)
              s reads refl (λ game tag. update_entries (values_of r) old rows game tag found);
      }

  -- On a sound table, a valid record that fits the columns and whose key is its own or whose pair of keys is there already is
  -- written and returned, with the key of the row that held the pair before. After that the table is
  -- sound, the pair reads as the record until it expires, and other pairs read as before.
  pub upsert_lem : IsInsertable r rows → IsUpserted r rows
  upsert_lem own = elim (Option-cases (entry r.game_name_key r.tag_line_key rows)) [
    | inl absent ↦ upsert_new absent (own absent)
    | inr (old, found) ↦ upsert_over old found
  ]

-- What `upsert` leaves in the table, where it overwrites a row or adds one.
pub upsert-All {κ} :
    (P : PlatformDetectionRow → Type κ) (r : PlatformDetectionRecord) (rows : Rows)
    → IsValid r
    → ((old : PlatformDetectionRow) → P old → P (overwrite (values_of r) old))
    → P (values_of r)
    → All P rows
    → All P (upsert r rows).1
unfolding upsert_row values_of
upsert-All P r rows v over_old new h =
    rw (upsert_valid r rows v) (elim (Bool-cases (fits_columns (values_of r))) [
      | inr wide ↦ rw (write, upsert_row, wide) h
      | inl narrow ↦ elim (Option-cases (entry r.game_name_key r.tag_line_key rows)) [
        | inr (old, found) ↦
            rw (write, upsert_row, narrow, found)
              (All-update_where P (has_keys r.game_name_key r.tag_line_key)
                (overwrite (values_of r)) rows (λ x _ k. over_old x k) h)
        | inl absent ↦ elim (Bool-cases (any (has_id r.id) rows)) [
          | inl taken ↦ rw (write, upsert_row, narrow, absent, taken) h
          | inr own ↦
              rw (write, upsert_row, narrow, absent, own) (All-append P rows (values_of r) h new)
        ]
      ]
    ])
