-- ===== src/Media/Progress.antt =====
-- The gate on progress callbacks, `_RateLimitedProgress` of media.py; instants are in microseconds.
use league_of_legnds_ai_coac.Prelude.{
  ℕ, ◌+◌, ◌≡◌, Bool, true, false, Option, none, some, List, [], ◌∷◌, ltb, ◌==◌, if◌then◌else◌,
}

pub record Gate : Type 0 where
  pub last_emitted_value : Option ℕ
  pub last_emitted_at : Option ℕ

abbrev pub new_gate : Gate
new_gate = record { last_emitted_value = none; last_emitted_at = none }

abbrev pub is_value : ℕ → Option ℕ → Bool
is_value value none = false
is_value value (some last) = value == last

abbrev pub is_too_soon : ℕ → ℕ → Option ℕ → Bool
is_too_soon interval now none = false
is_too_soon interval now (some at) = ltb now (at + interval)

abbrev pub emitted : ℕ → ℕ → Gate
emitted value now = record { last_emitted_value = some value; last_emitted_at = some now }

-- `submit`: whether the callback is called, and the gate after it. A callback that raises leaves
-- the gate as it was.
unfoldable pub submit : ℕ → ℕ → ℕ → Bool → Gate → Bool × Gate
submit interval value now succeeds gate =
    if is_value value gate.last_emitted_value
    then (false, gate)
    else if is_too_soon interval now gate.last_emitted_at
    then (false, gate)
    else (true, if succeeds then emitted value now else gate)

unfoldable pub submit_final : ℕ → ℕ → Bool → Gate → Bool × Gate
submit_final value now succeeds gate =
    if is_value value gate.last_emitted_value
    then (false, gate)
    else (true, if succeeds then emitted value now else gate)

-- One submission: the value, the reading of the clock, and whether the callback succeeds.
pub record Submission : Type 0 where
  pub value : ℕ
  pub now : ℕ
  pub succeeds : Bool

abbrev pub noted : Bool → Submission → List Submission → List Submission
noted true s rest = if s.succeeds then s ∷ rest else rest
noted false s rest = rest

-- The submissions, one after the other under the lock, that reach the callback and succeed.
unfoldable pub submit_all : ℕ → List Submission → Gate → List Submission
unfolding submit
submit_all interval [] gate = []
submit_all interval (s ∷ ss) gate =
    let result = submit interval s.value s.now s.succeeds gate in
    noted result.0 s (submit_all interval ss result.1)

-- The gate after the submissions.
unfoldable pub gate_after : ℕ → List Submission → Gate → Gate
unfolding submit
gate_after interval [] gate = gate
gate_after interval (s ∷ ss) gate =
    gate_after interval ss (submit interval s.value s.now s.succeeds gate).1

-- Nothing was emitted before, or another value, at least the interval ago.
abbrev pub Follows : ℕ → Gate → Submission → Type 0
Follows interval gate s =
    (is_value s.value gate.last_emitted_value ≡ false)
    × (is_too_soon interval s.now gate.last_emitted_at ≡ false)

-- Each emission has another value than the one before and comes at least the interval after it.
pub IsSpaced : ℕ → Gate → List Submission → Type 0
IsSpaced interval gate [] = Unit
IsSpaced interval gate (s ∷ ss) =
    Follows interval gate s × IsSpaced interval (emitted s.value s.now) ss
