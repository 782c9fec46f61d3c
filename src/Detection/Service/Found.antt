-- ===== src/Detection/Service/Found.antt =====
-- A player who is found gets a record with exactly the platforms on which the player is.
use league_of_legnds_ai_coac.Prelude.{
  ℕ, suc, leb, ◌≡◌, refl, sym, ◌∙◌, ◌<◌, ◌≤◌, String, Bool, true, false, ◌&&◌, Option, none, some,
  List, [], ◌∷◌, length, filter, Outcome, ok, raise, arith, lt→ltb, str_eq, str_eq_iff,
  Outcome-cases, inl, inr,
}
use league_of_legnds_ai_coac.Errors.{ApiError}
use league_of_legnds_ai_coac.Routing.{Platform, ordered_platforms, detection_probe_platforms}
use league_of_legnds_ai_coac.RiotId.{ParsedRiotId}
use league_of_legnds_ai_coac.Detection.{
  DetectionStatus, status_value, resolved, ambiguous, not_found, PlatformDetectionRecord, Rows,
  get_fresh, text_length, fits_columns, values_of,
}
use league_of_legnds_ai_coac.Detection.Codec.{IsValid, construct_ok}
use league_of_legnds_ai_coac.Detection.Lookup.{with_id}
use league_of_legnds_ai_coac.Detection.Service.{
  AccountDto, Answers, DetectionSettings, Readings, later, World, ◌>>=◌, lift, transact,
  find_account, probe_platform, first_failure, is_found, probe_platforms, in_order,
  not_found_record, found_record, found_status,
}
use league_of_legnds_ai_coac.Detection.Service.Built.{
  in_order_some, not_found_record-IsValid, found_record-IsValid,
}
use league_of_legnds_ai_coac.Detection.Service.Requests.{save, save_found, detect_uncached}
use league_of_legnds_ai_coac.Detection.Service.Safe.{Owners, IsKept, OwnsRecord}
use league_of_legnds_ai_coac.Detection.Service.Transactions.{upsert_kept_lem}
use league_of_legnds_ai_coac.Detection.Service.Exact.{platforms_of_player, in_order_found}

-- The probe ends without an error.
abbrev pub is_answered : Outcome ApiError (Option Platform) → Bool
is_answered (ok found) = true
is_answered (raise e) = false

-- No platform, one, or several.
abbrev pub status_for : List Platform → DetectionStatus
status_for [] = not_found
status_for (p ∷ []) = resolved
status_for (p ∷ q ∷ ps) = ambiguous

-- How long a record may be read.
abbrev pub lifetime : DetectionSettings → List Platform → ℕ
lifetime settings [] = settings.not_found_ttl_seconds
lifetime settings (p ∷ ps) = settings.detection_ttl_seconds

-- The record shows where the player is, and the table gives it back until it expires.
pub record IsDetected (settings : DetectionSettings) (at : Readings) (parsed : ParsedRiotId)
    (found : List Platform) (r : PlatformDetectionRecord) (rows : Rows) : Type 0 where
  pub platforms : r.candidate_platforms ≡ found
  pub status_is : r.status ≡ status_for found
  pub expiry : r.expires_at ≡ later at.fetched_at (lifetime settings found)
  pub kept :
      (now : ℕ)
      → now < r.expires_at
      → get_fresh parsed.game_name_key parsed.tag_line_key now rows ≡ ok (some r)

module _ {View : Type 0} (answers : Answers View) (puuid : String) where
  first_failure-none :
      (ps : List Platform)
      → ((p : Platform) → is_answered (probe_platform answers puuid p) ≡ true)
      → first_failure answers puuid ps ≡ none
  first_failure-none [] h = refl
  first_failure-none (p ∷ ps) h = elim (Outcome-cases (probe_platform answers puuid p)) [
    | inl (a, e) ↦ rw e (first_failure-none ps h)
    | inr (x, e) ↦ absurd (ground (arith, h p))
  ]

  probe_platforms_ok :
      ((p : Platform) → is_answered (probe_platform answers puuid p) ≡ true)
      → probe_platforms answers puuid
        ≡ ok (filter (λ p. is_found (probe_platform answers puuid p)) detection_probe_platforms)
  unfolding probe_platforms
  probe_platforms_ok h = rw (first_failure-none answers.completion h) refl

filter_never : (ps : List Platform) → filter (λ p. false) ps ≡ []
filter_never [] = refl
filter_never (p ∷ ps) = filter_never ps

in_order_none : in_order [] ≡ []
unfolding in_order
in_order_none = filter_never ordered_platforms

-- The texts fit the columns of the table.
pub record IsNarrow (parsed : ParsedRiotId) (account : AccountDto) : Type 0 where
  pub game_key : text_length parsed.game_name_key ≤ 128
  pub tag_key : text_length parsed.tag_line_key ≤ 64
  pub game_name : text_length account.game_name ≤ 128
  pub tag_line : text_length account.tag_line ≤ 64
  pub puuid : text_length account.puuid ≤ 128

not_found_record_fits :
    (parsed : ParsedRiotId) (account : AccountDto) (k a b : ℕ)
    → IsNarrow parsed account
    → fits_columns (values_of (not_found_record parsed k a b)) ≡ true
unfolding fits_columns values_of
not_found_record_fits parsed account k a b h = ground (arith, h.game_key, h.tag_key)

status_fits : (s : DetectionStatus) → leb (text_length (status_value s)) 16 ≡ true
status_fits resolved = refl
status_fits ambiguous = refl
status_fits not_found = refl

found_record_fits :
    (settings : DetectionSettings) (parsed : ParsedRiotId) (account : AccountDto)
    (ps : List Platform) (k now : ℕ)
    → IsNarrow parsed account
    → fits_columns (values_of (found_record settings parsed account ps k now)) ≡ true
unfolding fits_columns values_of
found_record_fits settings parsed account ps k now h =
    ground (
      arith,
      h.game_key,
      h.tag_key,
      h.game_name,
      h.tag_line,
      h.puuid,
      status_fits (found_status ps),
    )

module _ (owners : Owners) (others : ℕ → Rows → Rows)
    (keep : (n : ℕ) (rows : Rows) → IsKept owners rows → IsKept owners (others n rows)) where
  -- A record that passes the checks is saved.
  pub record IsSavedAs (r : PlatformDetectionRecord) (w : World) : Type 0 where
    pub k : ℕ
    pub after : World
    pub ends : save others r w ≡ (ok (with_id r k), after)
    pub reads :
        (now : ℕ)
        → now < r.expires_at
        → get_fresh r.game_name_key r.tag_line_key now after.rows ≡ ok (some (with_id r k))

  same_keys :
      (r : PlatformDetectionRecord)
      → (str_eq r.game_name_key r.game_name_key && str_eq r.tag_line_key r.tag_line_key) ≡ true
  same_keys r =
      ground (
        arith,
        str_eq_iff r.game_name_key r.game_name_key,
        str_eq_iff r.tag_line_key r.tag_line_key,
      )

  save_ok :
      (r : PlatformDetectionRecord) (w : World)
      → IsValid r
      → OwnsRecord owners r
      → IsKept owners w.rows
      → fits_columns (values_of r) ≡ true
      → IsSavedAs r w
  unfolding save ◌>>=◌ lift transact
  save_ok r w v o kept narrow =
      let u =
        upsert_kept_lem owners r (others w.turn w.rows) v o (keep w.turn w.rows kept) narrow in
      record {
        k = u.k;
        after = record { rows = u.after; turn = suc w.turn };
        ends = rw (construct_ok r v, u.returned) refl;
        reads = λ now soon.
            u.reads r.game_name_key r.tag_line_key now
            ∙ rw (same_keys r, lt→ltb now r.expires_at soon) refl;
      }

  status_same : (ps : List Platform) → 1 ≤ length ps → found_status ps ≡ status_for ps
  status_same [] h = absurd (omega arith)
  status_same (p ∷ []) h = refl
  status_same (p ∷ q ∷ ps) h = ground arith

  lifetime_same :
      (settings : DetectionSettings) (ps : List Platform)
      → 1 ≤ length ps
      → lifetime settings ps ≡ settings.detection_ttl_seconds
  lifetime_same settings [] h = absurd (omega arith)
  lifetime_same settings (p ∷ ps) h = refl

  module _ (settings : DetectionSettings) (at : Readings) (parsed : ParsedRiotId)
      (account : AccountDto)
      (drawn : (owners.game at.new_id ≡ parsed.game_name_key)
        × (owners.tag at.new_id ≡ parsed.tag_line_key))
      (narrow : IsNarrow parsed account) where
    save_found_ok :
        (ps : List Platform) (w : World)
        → IsKept owners w.rows
        → (r : PlatformDetectionRecord) × (w' : World) × (save_found others settings at parsed
              account ps w
            ≡ (ok r, w'))
          × IsDetected settings at parsed (in_order ps) r w'.rows
    save_found_ok [] w k =
        let n =
          not_found_record parsed at.new_id at.fetched_at
            (later at.fetched_at settings.not_found_ttl_seconds) in
        let s = save_ok n w (not_found_record-IsValid parsed _ _ _) drawn k (
          not_found_record_fits parsed account at.new_id at.fetched_at
            (later at.fetched_at settings.not_found_ttl_seconds) narrow) in
        (
          with_id n s.k,
          s.after,
          s.ends,
          record {
            platforms = sym in_order_none;
            status_is = rw in_order_none refl;
            expiry = rw in_order_none refl;
            kept = s.reads;
          },
        )
    save_found_ok (p ∷ ps) w k =
        let f = found_record settings parsed account (in_order (p ∷ ps)) at.new_id at.fetched_at in
        let s =
          save_ok f w (found_record-IsValid settings parsed account p ps at.new_id at.fetched_at)
            drawn k
            (found_record_fits settings parsed account (in_order (p ∷ ps)) at.new_id at.fetched_at
              narrow) in
        (
          with_id f s.k,
          s.after,
          s.ends,
          record {
            platforms = refl;
            status_is = status_same (in_order (p ∷ ps)) (in_order_some p ps);
            expiry = rw (lifetime_same settings (in_order (p ∷ ps)) (in_order_some p ps)) refl;
            kept = s.reads;
          },
        )

    -- Where an account is found, its texts and the keys fit their columns, and every probe ends without
    -- an error, the detection ends with a
    -- record, whatever other sessions do that keep the table sound. Its candidates are exactly the
    -- probed platforms on which the gateway knows the player, in their order; its status says
    -- whether there are none, one or several; and the table gives it back for the keys of the name
    -- until it expires.
    pub detect_uncached_lem :
        {View : Type 0} (answers : Answers View) (w : World)
        → find_account answers settings.primary_region parsed ≡ ok (some account)
        → ((p : Platform) → is_answered (probe_platform answers account.puuid p) ≡ true)
        → IsKept owners w.rows
        → (r : PlatformDetectionRecord) × (w' : World) × (detect_uncached others settings answers at
              parsed w
            ≡ (ok r, w'))
          × IsDetected settings at parsed (platforms_of_player answers account.puuid) r w'.rows
    unfolding detect_uncached ◌>>=◌ lift
    detect_uncached_lem answers w found all kept =
        let ps =
          filter (λ p. is_found (probe_platform answers account.puuid p))
            detection_probe_platforms in
        let (r, w', ends, detected) = save_found_ok ps w kept in
        (
          r,
          w',
          rw (found, probe_platforms_ok answers account.puuid all) ends,
          rw (← in_order_found answers account.puuid) detected,
        )
