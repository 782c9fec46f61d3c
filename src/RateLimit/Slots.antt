-- ===== src/RateLimit/Slots.antt =====
-- Upload slots: never more than the limit, given back exactly, and one client apart from another.
use league_of_legnds_ai_coac.Prelude.{
  ℕ, ◌+◌, ◌-◌, ◌≤◌, ◌<◌, ◌≡◌, refl, String, true, false, List, [], ◌∷◌, arith, if◌then◌else◌,
  str_eq, str_eq_iff, ◌∙◌,
}
use league_of_legnds_ai_coac.Prelude.Dict.{lookup, lookup-insert, lookup-erase}
use league_of_legnds_ai_coac.RateLimit.{ConcurrencyCounter, current, acquire, release}

-- A slot is granted exactly while the client holds fewer than the limit; it raises that client's
-- count by one and leaves every other client's alone, and a refusal changes no count.
pub current-acquire :
    (c : ConcurrencyCounter) (key other : String)
    → ((acquire c key).0 ≡ true → current c key < c.slots)
      × ((acquire c key).0 ≡ false → c.slots ≤ current c key)
      × (current (acquire c key).1 other
          ≡ current c other
            + (if (acquire c key).0 then (if str_eq key other then 1 else 0) else 0))
unfolding acquire current
current-acquire c key other = (
  ground arith,
  ground arith,
  ground (arith, lookup-insert key other (current c key + 1) c.active, str_eq_iff key other),
)

pub current-release :
    (c : ConcurrencyCounter) (key other : String)
    → current (release c key) other
      ≡ (if str_eq key other then current c key - 1 else current c other)
unfolding release current
current-release c key other = ground (
  arith,
  lookup-insert key other (current c key - 1) c.active,
  lookup-erase key other c.active,
  str_eq_iff key other,
)

-- A client begins an upload, or ends one whose slot it was granted.
pub data SlotEvent : Type 0 where
  begin finish : String → SlotEvent

-- The counter after a sequence of requests.
pub serve : ConcurrencyCounter → List SlotEvent → ConcurrencyCounter
serve c [] = c
serve c (begin key ∷ later) = serve (acquire c key).1 later
serve c (finish key ∷ later) = serve (release c key) later

slots-acquire : (c : ConcurrencyCounter) (key : String) → (acquire c key).1.slots ≡ c.slots
unfolding acquire
slots-acquire c key = ground arith

slots-release : (c : ConcurrencyCounter) (key : String) → (release c key).slots ≡ c.slots
unfolding release
slots-release c key = ground arith

acquire_capped :
    (c : ConcurrencyCounter) (key other : String)
    → current c other ≤ c.slots
    → current (acquire c key).1 other ≤ (acquire c key).1.slots
acquire_capped c key other h =
    let (granted, refused, after) = current-acquire c key other in
    ground (arith, slots-acquire c key, str_eq_iff key other)

release_capped :
    (c : ConcurrencyCounter) (key other : String)
    → current c other ≤ c.slots
    → current (release c key) other ≤ (release c key).slots
release_capped c key other h =
    ground (arith, slots-release c key, current-release c key other, str_eq_iff key other)

serve_capped :
    (c : ConcurrencyCounter) (events : List SlotEvent) (client : String)
    → current c client ≤ c.slots
    → current (serve c events) client ≤ (serve c events).slots
unfolding serve
serve_capped c [] client h = h
serve_capped c (begin key ∷ later) client h =
    serve_capped (acquire c key).1 later client (acquire_capped c key client h)
serve_capped c (finish key ∷ later) client h =
    serve_capped (release c key) later client (release_capped c key client h)

slots-serve : (c : ConcurrencyCounter) (events : List SlotEvent) → (serve c events).slots ≡ c.slots
unfolding serve
slots-serve c [] = refl
slots-serve c (begin key ∷ later) = slots-serve (acquire c key).1 later ∙ slots-acquire c key
slots-serve c (finish key ∷ later) = slots-serve (release c key) later ∙ slots-release c key

-- From a counter that is new, no sequence of uploads begun and ended, by any clients in any order,
-- gives a client more than the limit at once.
pub serve_new_capped :
    (slots : ℕ) (events : List SlotEvent) (client : String)
    → current (serve (record { slots = slots; active = [] }) events) client ≤ slots
unfolding current lookup
serve_new_capped slots events client =
    let c : ConcurrencyCounter = record { slots = slots; active = [] } in
    omega (arith, serve_capped c events client (omega arith), slots-serve c events)

-- An upload that was granted a slot and gives it back leaves every client's count as it was.
pub release-acquire :
    (c : ConcurrencyCounter) (key client : String)
    → (acquire c key).0 ≡ true
    → current (release (acquire c key).1 key) client ≡ current c client
release-acquire c key client granted = ground (
  arith,
  (current-acquire c key client).2,
  (current-acquire c key key).2,
  current-release (acquire c key).1 key client,
  str_eq_iff key client,
)
