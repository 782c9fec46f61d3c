-- ===== src/Detection/Service/Transactions.antt =====
-- The transactions that `detect` runs keep the table sound, whatever other sessions do that keep it so.
use league_of_legnds_ai_coac.Prelude.{
  ℕ, ◌≡◌, refl, sym, ◌∙◌, ap, String, true, false, Option, none, some, [], ◌∷◌, any, All, ltb,
  str_eq_iff, arith, Bool-cases, Option-cases, inl, inr,
}
use league_of_legnds_ai_coac.Prelude.Tables.{All-find}
use league_of_legnds_ai_coac.Detection.{
  PlatformDetectionRecord, PlatformDetectionRow, Rows, has_keys, has_id, values_of, fits_columns,
  overwrite, upsert, get_fresh,
}
use league_of_legnds_ai_coac.Detection.Codec.{IsValid, IsValid-moved, construct_ok}
use league_of_legnds_ai_coac.Detection.Store.{IsStored, entry, to_record-IsStored}
use league_of_legnds_ai_coac.Detection.Lookup.{
  IsUpserted, upsert_lem, upsert_wide, upsert-All, get_fresh-entry, with_id,
}
use league_of_legnds_ai_coac.Detection.Service.{store_error, mapped, transact}
use league_of_legnds_ai_coac.Detection.Service.Requests.{save}
use league_of_legnds_ai_coac.Detection.Service.Safe.{
  GoodEnd, Owners, IsOwned, IsKept, OwnsRecord, IsSafe, bind-IsSafe, weaken-IsSafe, lift_ok-IsSafe,
}

module _ (owners : Owners) where
  -- A row whose key was drawn for other keys of a name is not in the way of an insertion.
  key_is_free :
      (r : PlatformDetectionRecord) (rows : Rows)
      → OwnsRecord owners r
      → All (IsOwned owners) rows
      → entry r.game_name_key r.tag_line_key rows ≡ none
      → any (has_id r.id) rows ≡ false
  key_is_free r [] o h absent = refl
  key_is_free r (row ∷ rows) o h absent =
      let rest = key_is_free r rows o h.1 in
      elim (Bool-cases (has_id r.id row)) [
        | inr e ↦ ground (arith, rest)
        | inl e ↦
            let same : row.id ≡ r.id = ground arith in
            let mine : (row.game_name_key ≡ r.game_name_key) × (row.tag_line_key ≡ r.tag_line_key) =
              (sym (h.0.0) ∙ ap owners.game same ∙ o.0, sym (h.0.1) ∙ ap owners.tag same ∙ o.1) in
            absurd (
              ground (
                arith,
                mine.0,
                mine.1,
                str_eq_iff row.game_name_key r.game_name_key,
                str_eq_iff row.tag_line_key r.tag_line_key,
              ))
      ]

  -- The record that a row holds, as it is read.
  abbrev pub IsReadable : PlatformDetectionRecord → Type 0
  IsReadable r = IsValid r × OwnsRecord owners r

  abbrev pub IsReadableOption : Option PlatformDetectionRecord → Type 0
  IsReadableOption none = Unit
  IsReadableOption (some r) = IsReadable r

  stored_owner :
      (row : PlatformDetectionRow) (s : IsStored row)
      → IsOwned owners row
      → OwnsRecord owners s.stored
  unfolding values_of
  stored_owner row s o =
      let id : row.id ≡ s.stored.id = ap (λ x. x.id) s.same in
      let game : row.game_name_key ≡ s.stored.game_name_key = ap (λ x. x.game_name_key) s.same in
      let tag : row.tag_line_key ≡ s.stored.tag_line_key = ap (λ x. x.tag_line_key) s.same in
      (ap owners.game (sym id) ∙ o.0 ∙ game, ap owners.tag (sym id) ∙ o.1 ∙ tag)

  get_fresh_good :
      (game tag : String) (now : ℕ) (rows : Rows)
      → IsKept owners rows
      → GoodEnd IsReadableOption (mapped store_error (get_fresh game tag now rows))
  unfolding GoodEnd
  get_fresh_good game tag now rows k =
      rw (get_fresh-entry game tag now rows k.sound) (elim (Option-cases (entry game tag rows)) [
        | inl n ↦ rw n tt
        | inr (row, found) ↦
            let s : IsStored row =
              All-find IsStored (has_keys game tag) rows {x = row} found k.sound.all_stored in
            let o : IsOwned owners row =
              All-find (IsOwned owners) (has_keys game tag) rows {x = row} found k.owned in
            elim (Bool-cases (ltb now row.expires_at)) [
              | inr late ↦ rw (found, late) tt
              | inl fresh ↦
                  rw (found, fresh, to_record-IsStored row s) (s.valid, stored_owner row s o)
            ]
      ])

  upsert-IsKept :
      (r : PlatformDetectionRecord) (rows : Rows)
      → IsValid r
      → OwnsRecord owners r
      → IsKept owners rows
      → IsKept owners (upsert r rows).1
  unfolding values_of overwrite
  upsert-IsKept r rows v o k =
      let all = upsert-All (IsOwned owners) r rows v (λ old h. h) o k.owned in
      record {
        sound = elim (Bool-cases (fits_columns (values_of r))) [
          | inr wide ↦ rw (upsert_wide r rows v wide) k.sound
          | inl narrow ↦
              let u = upsert_lem r rows v narrow k.sound (key_is_free r rows o k.owned) in
              rw (u.returned) u.sound
        ];
        owned = all;
      }

  pub upsert_kept_lem :
      (r : PlatformDetectionRecord) (rows : Rows)
      → IsValid r
      → OwnsRecord owners r
      → IsKept owners rows
      → fits_columns (values_of r) ≡ true
      → IsUpserted r rows
  upsert_kept_lem r rows v o k narrow =
      upsert_lem r rows v narrow k.sound (key_is_free r rows o k.owned)

  -- What `upsert` returns: the record, with the key of the row that it went to.
  abbrev pub IsSaved : PlatformDetectionRecord → PlatformDetectionRecord → Type 0
  IsSaved r r' = IsValid r' × (r' ≡ with_id r r'.id)

  upsert_good :
      (r : PlatformDetectionRecord) (rows : Rows)
      → IsValid r
      → OwnsRecord owners r
      → IsKept owners rows
      → GoodEnd (IsSaved r) (mapped store_error (upsert r rows).0)
  unfolding GoodEnd
  upsert_good r rows v o k = elim (Bool-cases (fits_columns (values_of r))) [
    | inr wide ↦ rw (upsert_wide r rows v wide) refl
    | inl narrow ↦
        let u = upsert_lem r rows v narrow k.sound (key_is_free r rows o k.owned) in
        rw (u.returned) (IsValid-moved r u.k r.game_name_key r.tag_line_key v, refl)
  ]

  module _ (others : ℕ → Rows → Rows)
      (keep : (n : ℕ) (rows : Rows) → IsKept owners rows → IsKept owners (others n rows)) where
    pub get_fresh-IsSafe :
        (game tag : String) (now : ℕ)
        → IsSafe owners IsReadableOption
            (transact others (λ rows. (get_fresh game tag now rows, rows)))
    unfolding transact
    get_fresh-IsSafe game tag now = record {
      keeps = λ w k. keep w.turn w.rows k;
      ends = λ w k. get_fresh_good game tag now (others w.turn w.rows) (keep w.turn w.rows k);
    }

    upsert-IsSafe :
        (r : PlatformDetectionRecord)
        → IsValid r
        → OwnsRecord owners r
        → IsSafe owners (IsSaved r) (transact others (upsert r))
    unfolding transact
    upsert-IsSafe r v o = record {
      keeps = λ w k. upsert-IsKept r (others w.turn w.rows) v o (keep w.turn w.rows k);
      ends = λ w k. upsert_good r (others w.turn w.rows) v o (keep w.turn w.rows k);
    }

    pub save-IsSaved :
        (r : PlatformDetectionRecord)
        → IsValid r
        → OwnsRecord owners r
        → IsSafe owners (IsSaved r) (save others r)
    unfolding save
    save-IsSaved r v o =
        bind-IsSafe owners (λ b. b ≡ r) (IsSaved r) _ _
          (lift_ok-IsSafe owners (λ b. b ≡ r) store_error _ r (construct_ok r v) refl)
          (λ b e. rw e (upsert-IsSafe r v o))

    pub save-IsSafe :
        (r : PlatformDetectionRecord)
        → IsValid r
        → OwnsRecord owners r
        → IsSafe owners IsValid (save others r)
    save-IsSafe r v o = weaken-IsSafe owners (IsSaved r) IsValid _ (λ x h. h.0) (save-IsSaved r v o)
