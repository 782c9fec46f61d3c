-- ===== src/Detection/Store.antt =====
-- The table as a map from pairs of keys to records: what is read back after `upsert`.
use league_of_legnds_ai_coac.Prelude.{
  ℕ, ◌≡◌, refl, ◌≤◌, String, true, false, ◌&&◌, Option, none, some, [], ◌∷◌, ◌++◌, find, any,
  update_where, All, str_eq, str_eq_iff, if◌then◌else◌, arith, ok, Bool-cases, Option-cases, inl,
  inr, find_sound,
}
use league_of_legnds_ai_coac.Prelude.Tables.{
  count, count-append, count-update_where, All-append, All-update_where, any-count,
}
use league_of_legnds_ai_coac.Detection.{
  PlatformDetectionRecord, PlatformDetectionRow, Rows, has_keys, has_id, values_of, overwrite,
  to_record,
}
use league_of_legnds_ai_coac.Detection.Codec.{IsValid, to_record-values_of, IsValid-moved}
use league_of_legnds_ai_coac.Detection.Finding.{find-update_where, find-append, count_of_find}

-- The row is that of a valid record.
pub record IsStored (row : PlatformDetectionRow) : Type 0 where
  pub stored : PlatformDetectionRecord
  pub valid : IsValid stored
  pub same :
      row ≡ record (values_of stored) { created_at = row.created_at; updated_at = row.updated_at }

pub record IsSoundTable (rows : Rows) : Type 0 where
  pub all_stored : All IsStored rows
  pub keys_once : (game tag : String) → count (has_keys game tag) rows ≤ 1
  pub ids_once : (k : ℕ) → count (has_id k) rows ≤ 1

pub to_record-IsStored :
    (row : PlatformDetectionRow) (s : IsStored row) → to_record row ≡ ok s.stored
to_record-IsStored row s =
    rw (s.same) (to_record-values_of s.stored row.created_at row.updated_at s.valid)

-- The record under a pair of keys.
abbrev pub entry : String → String → Rows → Option PlatformDetectionRow
entry game tag rows = find (has_keys game tag) rows

-- The record of a row that has been written over another.
abbrev pub over : PlatformDetectionRecord → PlatformDetectionRow → PlatformDetectionRecord
over r old = record r {
  id = old.id;
  game_name_key = old.game_name_key;
  tag_line_key = old.tag_line_key;
}

pub overwrite-IsStored :
    (r : PlatformDetectionRecord) (old : PlatformDetectionRow)
    → IsValid r
    → IsStored (overwrite (values_of r) old)
unfolding overwrite values_of
overwrite-IsStored r old v = record {
  stored = over r old;
  valid = IsValid-moved r old.id old.game_name_key old.tag_line_key v;
  same = refl;
}

pub values_of-IsStored : (r : PlatformDetectionRecord) → IsValid r → IsStored (values_of r)
unfolding values_of
values_of-IsStored r v = record { stored = r; valid = v; same = refl }

-- The row that `upsert` has written: over the one that is there, or a new one.
abbrev pub landed : PlatformDetectionRow → Option PlatformDetectionRow → PlatformDetectionRow
landed new none = new
landed new (some old) = overwrite new old

-- A new row has a key of its own.
abbrev pub IsInsertable : PlatformDetectionRecord → Rows → Type 0
IsInsertable r rows =
    entry r.game_name_key r.tag_line_key rows ≡ none → any (has_id r.id) rows ≡ false

-- What the statement does to a sound table.
pub record IsWritten (new : PlatformDetectionRow) (row : PlatformDetectionRow) (before after : Rows)
    : Type 0 where
  pub sound : IsSoundTable after
  pub entries :
      (game tag : String)
      → entry game tag after ≡ (if has_keys game tag new then some row else entry game tag before)

keys_differ :
    (g t g' t' : String) (x : PlatformDetectionRow)
    → has_keys g' t' x ≡ true
    → (str_eq g g' && str_eq t t') ≡ false
    → has_keys g t x ≡ false
keys_differ g t g' t' x h d = ground (
  arith,
  str_eq_iff x.game_name_key g,
  str_eq_iff x.game_name_key g',
  str_eq_iff x.tag_line_key t,
  str_eq_iff x.tag_line_key t',
  str_eq_iff g g',
  str_eq_iff t t',
)

keys_agree :
    (g t g' t' : String) (x : PlatformDetectionRow)
    → has_keys g t x ≡ true
    → (str_eq g g' && str_eq t t') ≡ true
    → (g ≡ g') × (t ≡ t')
keys_agree g t g' t' x h d = ground (arith, str_eq_iff g g', str_eq_iff t t')

pub update_entries :
    (new old : PlatformDetectionRow) (rows : Rows) (game tag : String)
    → entry new.game_name_key new.tag_line_key rows ≡ some old
    → entry game tag
        (update_where (has_keys new.game_name_key new.tag_line_key) (overwrite new) rows)
      ≡ (if has_keys game tag new then some (overwrite new old) else entry game tag rows)
unfolding overwrite
update_entries new old rows game tag found =
    let mine = find_sound (has_keys new.game_name_key new.tag_line_key) rows {a = old} found in
    elim (Bool-cases (has_keys game tag new)) [
      | inl e ↦
          let (g, t) = keys_agree new.game_name_key new.tag_line_key game tag old mine e in
          rw
            (
              find-update_where (has_keys game tag) (has_keys new.game_name_key new.tag_line_key)
                  (overwrite new) rows (λ x. refl),
              e,
              ← g,
              ← t,
              found,
              mine,
            )
            refl
      | inr e ↦
          rw
            (
              find-update_where (has_keys game tag) (has_keys new.game_name_key new.tag_line_key)
                  (overwrite new) rows (λ x. refl),
              e,
            )
            (elim (Option-cases (entry game tag rows)) [
              | inl n ↦ rw n refl
              | inr (x, f) ↦
                  let other =
                    keys_differ new.game_name_key new.tag_line_key game tag x
                      (find_sound (has_keys game tag) rows {a = x} f) e in
                  rw (f, other) refl
            ])
    ]

pub append_entries :
    (new : PlatformDetectionRow) (rows : Rows) (game tag : String)
    → entry new.game_name_key new.tag_line_key rows ≡ none
    → entry game tag (rows ++ new ∷ [])
      ≡ (if has_keys game tag new then some new else entry game tag rows)
append_entries new rows game tag none_yet = elim (Bool-cases (has_keys game tag new)) [
  | inl e ↦
      let same : (new.game_name_key ≡ game) × (new.tag_line_key ≡ tag) =
        ground (arith, str_eq_iff new.game_name_key game, str_eq_iff new.tag_line_key tag) in
      rw (find-append (has_keys game tag) rows new, e, ← same.0, ← same.1, none_yet) (ground arith)
  | inr e ↦
      rw (find-append (has_keys game tag) rows new, e)
        (elim (Option-cases (entry game tag rows)) [
          | inl n ↦ rw (n, e) refl
          | inr (x, f) ↦ rw f refl
        ])
]

module _ (r : PlatformDetectionRecord) (rows : Rows) (v : IsValid r)
    (sound : IsSoundTable rows) where
  pub update_sound :
      IsSoundTable
        (update_where (has_keys r.game_name_key r.tag_line_key) (overwrite (values_of r)) rows)
  unfolding overwrite
  update_sound = record {
    all_stored =
        All-update_where IsStored (has_keys r.game_name_key r.tag_line_key)
          (overwrite (values_of r)) rows (λ x _ _. overwrite-IsStored r x v) sound.all_stored;
    keys_once = λ g t.
        rw
          (count-update_where (has_keys g t) (has_keys r.game_name_key r.tag_line_key)
            (overwrite (values_of r)) rows (λ x. refl))
          (sound.keys_once g t);
    ids_once = λ k.
        rw
          (count-update_where (has_id k) (has_keys r.game_name_key r.tag_line_key)
            (overwrite (values_of r)) rows (λ x. refl))
          (sound.ids_once k);
  }

  pub append_sound :
      entry r.game_name_key r.tag_line_key rows ≡ none
      → any (has_id r.id) rows ≡ false
      → IsSoundTable (rows ++ values_of r ∷ [])
  unfolding values_of
  append_sound none_yet own = record {
    all_stored = All-append IsStored rows (values_of r) sound.all_stored (values_of-IsStored r v);
    keys_once = λ g t. elim (Bool-cases (has_keys g t (values_of r))) [
      | inl e ↦
          let same : (r.game_name_key ≡ g) × (r.tag_line_key ≡ t) =
            ground (arith, str_eq_iff r.game_name_key g, str_eq_iff r.tag_line_key t) in
          let absent = count_of_find (has_keys r.game_name_key r.tag_line_key) rows none_yet in
          rw (count-append (has_keys g t) rows (values_of r), e, ← same.0, ← same.1, absent)
            (omega arith)
      | inr e ↦
          rw (count-append (has_keys g t) rows (values_of r), e)
            (omega (arith, sound.keys_once g t))
    ];
    ids_once = λ k. elim (Bool-cases (has_id k (values_of r))) [
      | inl e ↦
          let same : r.id ≡ k = ground arith in
          let absent = any-count (has_id r.id) rows own in
          rw (count-append (has_id k) rows (values_of r), e, ← same, absent) (omega arith)
      | inr e ↦ rw (count-append (has_id k) rows (values_of r), e) (omega (arith, sound.ids_once k))
    ];
  }
