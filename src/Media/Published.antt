-- ===== src/Media/Published.antt =====
-- The runner publishes a normalized video only where it has passed the checks.
use mathlib.Core.Path.{subst}
use league_of_legnds_ai_coac.Prelude.{
  ◌≡◌, refl, true, Option, none, some, Outcome, ok, raise, Bool-cases, Option-cases, inl, inr,
}
use league_of_legnds_ai_coac.Media.{MediaProbe, Bytes}
use league_of_legnds_ai_coac.Media.Normalize.{
  Fault, RunnerError, ProcessResult, Files, Calls, assert_normalized_output, publish, after_probe,
  after_final, after_progress, after_run, normalize, is_zero,
}
use league_of_legnds_ai_coac.Media.Normal.{IsNormalized, assert_first_inv, IsNormalized-assert}

-- Where the output file is replaced, by what and after which probe.
pub record IsPublished {E : Type 0} (calls : Calls E) (source p : MediaProbe) (before after : Files)
    : Type 0 where
  pub video : Bytes
  pub at_output : after.output ≡ some video
  pub no_partial : after.temp ≡ none
  pub probed : calls.probe (record { temp = some video; output = before.output }) ≡ ok p
  pub checked : IsNormalized source p

module _ {E : Type 0} (calls : Calls E) (source : MediaProbe) where
  -- The output file is as `kept`, or the call has published the probed video over it.
  abbrev Settled : Option Bytes → Outcome (RunnerError E) MediaProbe × Files → Type 0
  Settled kept (raise e, after) = after.output ≡ kept
  Settled kept (ok p, after) =
      IsPublished calls source p (record { temp = none; output = kept }) after

  publish-Settled :
      (p : MediaProbe) (o : Outcome Fault (Unit {0})) (files : Files)
      → assert_normalized_output p source ≡ o
      → calls.probe files ≡ ok p
      → Settled files.output (publish p o files)
  unfolding assert_normalized_output
  publish-Settled p (raise e) files h found = refl
  publish-Settled p (ok _) files h found = elim (Option-cases files.temp) [
    | inl none_there ↦ rw none_there refl
    | inr (video, there) ↦ rw there (record {
      video = video;
      at_output = refl;
      no_partial = refl;
      probed =
          subst (λ t. calls.probe (record { temp = t; output = files.output }) ≡ ok p) there found;
      checked = assert_first_inv p source p.video_streams refl h;
    })
  ]

  after_probe-Settled :
      (o : Outcome E MediaProbe) (files : Files)
      → calls.probe files ≡ o
      → Settled files.output (after_probe calls source o files)
  after_probe-Settled (raise e) files h = refl
  after_probe-Settled (ok p) files h =
      publish-Settled p (assert_normalized_output p source) files refl h

  after_final-Settled :
      (o : Option E) (files : Files) → Settled files.output (after_final calls source o files)
  after_final-Settled (some e) files = refl
  after_final-Settled none files = after_probe-Settled (calls.probe files) files refl

  after_progress-Settled :
      (result : ProcessResult) (o : Option E) (files : Files)
      → Settled files.output (after_progress calls source result o files)
  after_progress-Settled result (some e) files = refl
  after_progress-Settled result none files = elim (Bool-cases (is_zero result.returncode)) [
    | inl e ↦ rw e (after_final-Settled (calls.final_failure files) files)
    | inr e ↦ rw e refl
  ]

  after_run-Settled :
      (r : Outcome E ProcessResult × Files) → Settled r.1.output (after_run calls source r)
  after_run-Settled (raise e, files) = refl
  after_run-Settled (ok result, files) =
      after_progress-Settled result (calls.progress_failure files) files

  settled_raise :
      (files : Files) (r : Outcome (RunnerError E) MediaProbe × Files) {e : RunnerError E}
      → Settled files.output r
      → r.0 ≡ raise e
      → r.1.output ≡ files.output
  settled_raise files (ok p, after) s h = cc
  settled_raise files (raise e, after) s h = s

  settled_ok :
      (files : Files) (r : Outcome (RunnerError E) MediaProbe × Files) {p : MediaProbe}
      → Settled files.output r
      → r.0 ≡ ok p
      → IsPublished calls source p files r.1
  settled_ok files (ok q, after) {p} s h =
      let same : q ≡ p = cc in
      subst (λ x. IsPublished calls source x files after) same
        (record {
          video = s.video;
          at_output = s.at_output;
          no_partial = s.no_partial;
          probed = s.probed;
          checked = s.checked;
        })
  settled_ok files (raise e, after) s h = cc

-- FFmpeg ends well and leaves a file, no callback raises, and the file is probed as a normalized
-- video.
pub record GoesWell {E : Type 0} (calls : Calls E) (source p : MediaProbe) (before : Files)
    : Type 0 where
  pub result : ProcessResult
  pub files : Files
  pub video : Bytes
  pub runs : calls.run_normalize (record before { temp = none }) ≡ (ok result, files)
  pub reports : calls.progress_failure files ≡ none
  pub ends : is_zero result.returncode ≡ true
  pub finishes : calls.final_failure files ≡ none
  pub made : files.temp ≡ some video
  pub probed : calls.probe files ≡ ok p
  pub is_normalized : IsNormalized source p

-- Where the FFmpeg process leaves the output file alone: if `normalize` raises, the output file is
-- as before; if it returns, the output file is the partial file, which was probed as what is
-- returned and has the codec, format, container, rate, size and duration that are asked for; and it
-- returns where the process and the callbacks go well and the partial file is probed as such.
pub normalize_lem :
    {E : Type 0} (calls : Calls E)
    (keeps : (f : Files) → (calls.run_normalize f).1.output ≡ f.output) (source : MediaProbe)
    (files : Files)
    → ((e : RunnerError E)
        → (normalize calls source files).0 ≡ raise e
        → (normalize calls source files).1.output ≡ files.output)
      × ((p : MediaProbe)
          → (normalize calls source files).0 ≡ ok p
          → IsPublished calls source p files (normalize calls source files).1)
      × ((p : MediaProbe) → GoesWell calls source p files → (normalize calls source files).0 ≡ ok p)
unfolding normalize
normalize_lem calls keeps source files = (
  λ e h. settled_raise calls source files (normalize calls source files) settled h,
  λ p h. settled_ok calls source files (normalize calls source files) settled h,
  λ p g.
      rw
        (
          g.runs,
          g.reports,
          g.ends,
          g.finishes,
          g.probed,
          IsNormalized-assert source p g.is_normalized,
          g.made,
        )
        refl,
)
  where
    settled : Settled calls source files.output (normalize calls source files)
    settled =
        subst (λ o. Settled calls source o (normalize calls source files))
          (keeps (record files { temp = none }))
          (after_run-Settled calls source (calls.run_normalize (record files { temp = none })))
