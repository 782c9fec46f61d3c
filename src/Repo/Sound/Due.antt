-- ===== src/Repo/Sound/Due.antt =====
-- The two loops of the retention sweep.
use league_of_legnds_ai_coac.Prelude.{
  ℕ, ◌≡◌, refl, Bool, true, false, ◌||◌, List, [], ◌∷◌, ◌==◌, any, All, arith, inl, inr, ◌⊎◌,
  if◌then◌else◌, ok,
}
use league_of_legnds_ai_coac.Prelude.Tables.{All-map}
use league_of_legnds_ai_coac.Domain.{ReplayJobKind, delete_all, delete_source}
use league_of_legnds_ai_coac.Rows.{ReplayUploadRow}
use league_of_legnds_ai_coac.Repo.Jobs.{is_active_for}
use league_of_legnds_ai_coac.Repo.Retention.{
  has_active_job, Sweep, add_new, sweep_delete_all, sweep_source,
}
use league_of_legnds_ai_coac.Repo.Sound.{IsSound}
use league_of_legnds_ai_coac.Repo.Sound.Sweep.{
  IsFresh, IsGrown, same-IsGrown, IsGrown-trans, add_new_lem,
}

abbrev pub IsThere : Sweep → ReplayUploadRow → Type 0
IsThere s u = any (λ v. v.id == u.id) s.1.uploads ≡ true

module _ (uuid : ℕ → ℕ) (now : ℕ) (distinct : (i k : ℕ) → uuid i ≡ uuid k → i ≡ k) where
  -- One round: nothing where the test holds, else a new job.
  ensure_lem :
      (test : Bool) (u : ReplayUploadRow) (kind : ReplayJobKind) (s : Sweep)
      → (test ≡ false → has_active_job u.id kind s.1 ≡ false)
      → IsSound s.1
      → IsFresh uuid s
      → IsThere s u
      → (t : Sweep) × ((if test then ok s else add_new uuid u.id kind now s) ≡ ok t)
        × IsGrown uuid s t
        × ((test ≡ true) ⊎ (has_active_job u.id kind t.1 ≡ true))
  ensure_lem true u kind s clear sound fresh there =
      (s, refl, same-IsGrown uuid s sound fresh, inl refl)
  ensure_lem false u kind s clear sound fresh there =
      let (t, done, grown, active) =
        add_new_lem uuid u.id kind now s distinct sound fresh there (clear refl) in
      (t, done, grown, inr active)

  pub still-IsThere :
      (s t : Sweep) (us : List ReplayUploadRow)
      → IsGrown uuid s t
      → All (IsThere s) us
      → All (IsThere t) us
  still-IsThere s t us grown = All-map (IsThere s) (IsThere t) us (λ u h. rw grown.same_uploads h)

  pub sweep_delete_all_lem :
      (us : List ReplayUploadRow) (s : Sweep)
      → IsSound s.1
      → IsFresh uuid s
      → All (IsThere s) us
      → (t : Sweep) × (sweep_delete_all uuid now us s ≡ ok t)
        × IsGrown uuid s t
        × All (λ u. has_active_job u.id delete_all t.1 ≡ true) us
  unfolding sweep_delete_all
  sweep_delete_all_lem [] s sound fresh there = (s, refl, same-IsGrown uuid s sound fresh, tt)
  sweep_delete_all_lem (u ∷ us) s sound fresh there =
      let (t, done, grown, active) =
        ensure_lem (has_active_job u.id delete_all s.1) u delete_all s (λ h. h) sound fresh
          there.0 in
      let (t', done', grown', rest) =
        sweep_delete_all_lem us t grown.sound grown.fresh (still-IsThere s t us grown there.1) in
      (
        t',
        rw (done) done',
        IsGrown-trans uuid s t t' grown grown',
        (
          elim active [
            | inl before ↦
                grown'.kept (is_active_for u.id delete_all)
                  (grown.kept (is_active_for u.id delete_all) before)
            | inr after ↦ grown'.kept (is_active_for u.id delete_all) after
          ],
          rest,
        ),
      )

  abbrev pub is_covered : Sweep → ReplayUploadRow → Bool
  is_covered t u = has_active_job u.id delete_source t.1 || has_active_job u.id delete_all t.1

  is_covered-kept :
      (s t : Sweep) (u : ReplayUploadRow)
      → IsGrown uuid s t
      → is_covered s u ≡ true
      → is_covered t u ≡ true
  is_covered-kept s t u grown h = ground (
    arith,
    grown.kept (is_active_for u.id delete_source),
    grown.kept (is_active_for u.id delete_all),
  )

  pub sweep_source_lem :
      (us : List ReplayUploadRow) (s : Sweep)
      → IsSound s.1
      → IsFresh uuid s
      → All (IsThere s) us
      → (t : Sweep) × (sweep_source uuid now us s ≡ ok t)
        × IsGrown uuid s t
        × All (λ u. is_covered t u ≡ true) us
  unfolding sweep_source
  sweep_source_lem [] s sound fresh there = (s, refl, same-IsGrown uuid s sound fresh, tt)
  sweep_source_lem (u ∷ us) s sound fresh there =
      let (t, done, grown, active) =
        ensure_lem (is_covered s u) u delete_source s (λ h. ground arith) sound fresh there.0 in
      let (t', done', grown', rest) =
        sweep_source_lem us t grown.sound grown.fresh (still-IsThere s t us grown there.1) in
      (
        t',
        rw (done) done',
        IsGrown-trans uuid s t t' grown grown',
        (
          elim active [
            | inl before ↦ is_covered-kept t t' u grown' (is_covered-kept s t u grown before)
            | inr after ↦ is_covered-kept t t' u grown' (rw after refl)
          ],
          rest,
        ),
      )
