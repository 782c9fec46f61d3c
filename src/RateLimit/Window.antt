-- ===== src/RateLimit/Window.antt =====
-- The rolling window against its specification: the whole history of the hits that were allowed.
use league_of_legnds_ai_coac.Prelude.{
  ℕ, ◌≤◌, ◌≡◌, refl, String, true, false, List, [], ◌∷◌, ◌++◌, ltb, leb, arith, if◌then◌else◌,
  length, str_eq, str_eq_iff, raise, Bool-cases, inl, inr, sym, ◌∙◌,
}
use native.Mathlib.Nat.{le_refl}
use league_of_legnds_ai_coac.Prelude.Dict.{lookup, lookup-insert}
use league_of_legnds_ai_coac.RateLimit.History.{
  count_within, IsRising, admit, is_allowed, allowed_hits, times_of, IsBetween, count-append,
  count-drop_expired, count_fresh, drop_expired-IsBetween, between_extend, between_append,
  admit_capped,
}
use league_of_legnds_ai_coac.RateLimit.{
  index_error, RollingWindowCounter, drop_expired, hit_bucket, bucket_of, hit,
}

-- Between two hits: the bucket is in order, and holds all of the history that can still count.
record Inv (window last : ℕ) (log bucket : List ℕ) : Type 0 where
  in_order : IsBetween 0 last bucket
  same_count :
      (instant : ℕ)
      → last ≤ instant
      → count_within window instant log ≡ count_within window instant bucket

module _ (limit window last now : ℕ) (log bucket : List ℕ) (inv : Inv window last log bucket)
    (h : last ≤ now) where
  abbrev fresh : List ℕ
  fresh = drop_expired window now bucket

  in_order_now : IsBetween 0 now fresh
  in_order_now =
      between_extend 0 last now fresh h
        (drop_expired-IsBetween window 0 now last bucket inv.in_order)

  count_log :
      (instant : ℕ)
      → now ≤ instant
      → count_within window instant log ≡ count_within window instant fresh
  count_log instant k =
      inv.same_count instant (omega arith) ∙ sym (count-drop_expired window now instant bucket k)

  length_fresh : length fresh ≡ count_within window now log
  length_fresh =
      sym (count_fresh window 0 now bucket (between_extend 0 last now bucket h inv.in_order))
      ∙ sym (count_log now (le_refl now))

  hit_bucket_decides :
      is_allowed (hit_bucket limit window now bucket).0 ≡ ltb (count_within window now log) limit
  unfolding hit_bucket
  hit_bucket_decides = ground (arith, length_fresh)

  hit_bucket-Inv :
      Inv window now
        (if ltb (count_within window now log) limit then log ++ now ∷ [] else log)
        (hit_bucket limit window now bucket).1
  unfolding hit_bucket
  hit_bucket-Inv = elim (Bool-cases (leb limit (length fresh))) [
    | inl e ↦ rw (e, full e) (record { in_order = in_order_now; same_count = count_log })
    | inr e ↦
        rw (e, open_slot e)
          (record {
            in_order = between_append 0 now fresh in_order_now;
            same_count = λ instant k. omega (
              arith,
              count-append window instant now log,
              count-append window instant now fresh,
              count_log instant k,
            );
          })
  ]
    where
      full : leb limit (length fresh) ≡ true → ltb (count_within window now log) limit ≡ false
      full e = ground (arith, length_fresh)

      open_slot : leb limit (length fresh) ≡ false → ltb (count_within window now log) limit ≡ true
      open_slot e = ground (arith, length_fresh)

-- Within one counter, a hit touches the bucket of its own key alone.
bucket_of-hit :
    (c : RollingWindowCounter) (key client : String) (now : ℕ)
    → bucket_of (hit c key now).1 client ≡ (
        if str_eq key client
        then (hit_bucket c.limit c.window now (bucket_of c client)).1
        else bucket_of c client)
unfolding hit bucket_of
bucket_of-hit c key client now = ground (
  arith,
  lookup-insert key client (hit_bucket c.limit c.window now (bucket_of c key)).1 c.hits,
  str_eq_iff key client,
)

module _ (client key : String) (c : RollingWindowCounter) (last now : ℕ) (log : List ℕ)
    (inv : Inv c.window last log (bucket_of c client)) (h : last ≤ now)
    (own : str_eq key client ≡ true) where
  abbrev log_after : List ℕ
  log_after = if ltb (count_within c.window now log) c.limit then log ++ now ∷ [] else log

  own_verdict : is_allowed (hit c key now).0 ≡ ltb (count_within c.window now log) c.limit
  unfolding hit
  own_verdict =
      rw ((str_eq_iff key client).0 own)
        (hit_bucket_decides c.limit c.window last now log (bucket_of c client) inv h)

  own_Inv : Inv c.window now log_after (bucket_of (hit c key now).1 client)
  own_Inv =
      rw (bucket_of-hit c key client now, own)
        (hit_bucket-Inv c.limit c.window last now log (bucket_of c client) inv h)

other_Inv :
    (client key : String) (c : RollingWindowCounter) (last now : ℕ) (log : List ℕ)
    → Inv c.window last log (bucket_of c client)
    → str_eq key client ≡ false
    → Inv c.window last log (bucket_of (hit c key now).1 client)
other_Inv client key c last now log inv e = rw (bucket_of-hit c key client now, e) inv

limits-hit :
    (c : RollingWindowCounter) (key : String) (now : ℕ)
    → ((hit c key now).1.limit ≡ c.limit) × ((hit c key now).1.window ≡ c.window)
unfolding hit
limits-hit c key now = (refl, refl)

allowed_hits-admit :
    (client : String) (c : RollingWindowCounter) (last : ℕ) (log : List ℕ)
    (events : List (String × ℕ))
    → Inv c.window last log (bucket_of c client)
    → IsRising last (times_of client events)
    → allowed_hits client c log events ≡ admit c.limit c.window log (times_of client events)
unfolding allowed_hits admit hit
allowed_hits-admit client c last log [] inv rising = refl
allowed_hits-admit client c last log ((key, now) ∷ later) inv rising =
    elim (Bool-cases (str_eq key client)) [
      | inl e ↦
          let rising' : IsRising last (now ∷ times_of client later) = rw e at rising in
          rw (e, own_verdict client key c last now log inv rising'.0 e)
            (allowed_hits-admit client (hit c key now).1 now
              (log_after client key c last now log inv rising'.0 e) later
              (own_Inv client key c last now log inv rising'.0 e) rising'.1)
      | inr e ↦ rw e (
          allowed_hits-admit client (hit c key now).1 last log later
            (other_Inv client key c last now log inv e) (rw e at rising))
    ]

empty-Inv : (window : ℕ) → Inv window 0 [] []
empty-Inv window = record { in_order = le_refl 0; same_count = λ instant k. refl }

-- A new counter.
abbrev pub counter : ℕ → ℕ → RollingWindowCounter
counter limit window = record { limit = limit; window = window; hits = [] }

-- However the hits of other clients fall between, and as long as the clock does not run
-- backwards for this client, the hits of a client that a new counter allows are exactly those of
-- the rule on its whole history: a hit is allowed if and only if fewer than `limit` of its allowed
-- hits lie in the window that ends with it. (The counter itself forgets what has left the window.)
pub allowed_hits_exact :
    (limit window : ℕ) (client : String) (events : List (String × ℕ))
    → IsRising 0 (times_of client events)
    → allowed_hits client (counter limit window) [] events
      ≡ admit limit window [] (times_of client events)
unfolding bucket_of lookup
allowed_hits_exact limit window client events rising =
    allowed_hits-admit client (counter limit window) 0 [] events (empty-Inv window) rising

-- So no window of that length, wherever it ends, holds more than `limit` allowed hits of a client.
pub allowed_hits_capped :
    (limit window : ℕ) (client : String) (events : List (String × ℕ)) (instant : ℕ)
    → IsRising 0 (times_of client events)
    → count_within window instant (allowed_hits client (counter limit window) [] events) ≤ limit
allowed_hits_capped limit window client events instant rising =
    rw (allowed_hits_exact limit window client events rising) (
      admit_capped limit window 0 [] (times_of client events) instant rising tt (λ at. omega arith))

-- A counter whose limit is 0 does not refuse a hit: it fails on the first element of a bucket
-- that is empty, whatever the client and the time, when it is new.
pub hit_limit_zero :
    (window : ℕ) (key : String) (now : ℕ) → (hit (counter 0 window) key now).0 ≡ raise index_error
unfolding hit hit_bucket bucket_of lookup drop_expired
hit_limit_zero window key now = refl
