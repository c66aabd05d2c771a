-- ===== src/Forwarder/Backoff.antt =====
-- The delay before the next attempt: `backoff` of internal/forwarder/worker.go. Durations are
-- natural numbers; in the source they are int64, and `delay * 2` is in range for a `retry_max` of at
-- most 2 ^ 62 nanoseconds.
use lark_git_webhook.Base.{
  Bool, ◌∙◌, sym, ◌⊎◌, ap, ◌+◌, ◌*◌, ◌^◌, ◌≤◌, ◌≡◌, refl, ℕ, zero, suc, List, [], ◌∷◌, arith, ltb,
  if◌then◌else◌, Bool-cases, inl, inr, true, false,
}
use lark_git_webhook.Store.Types.{Item}
use lark_git_webhook.Forwarder.Machine.{Worker}

abbrev pub at_most : ℕ → ℕ → ℕ
at_most limit n = if ltb limit n then limit else n

-- The most attempts that an item has had.
unfoldable pub most_attempts : ℕ → List Item → ℕ
most_attempts attempt [] = attempt
most_attempts attempt (item ∷ items) =
    most_attempts (if ltb attempt item.attempts then item.attempts else attempt) items

-- The loop: `left` more doublings.
unfoldable pub doubled : ℕ → ℕ → ℕ → ℕ
doubled retry_max zero delay = delay
doubled retry_max (suc left) delay =
    let more = doubled retry_max left (at_most retry_max (delay * 2)) in
    if ltb delay retry_max then more else delay

unfoldable pub delay_of : Worker → List Item → ℕ
unfolding most_attempts doubled
delay_of w items = doubled w.retry_max (most_attempts 0 items) w.retry_base

unfoldable pub backoff : Worker → List Item → ℕ → ℕ
unfolding delay_of
backoff w items jitter = at_most w.retry_max (delay_of w items + jitter)

power_pos : (n : ℕ) → 1 ≤ 2 ^ n
power_pos zero = omega arith
power_pos (suc n) = omega (arith, power_pos n)

grown : (n k : ℕ) → 1 ≤ k → n ≤ n * k
grown n k h = grind arith

-- One doubling more, by a factor of at least one.
at_most-at_most :
    (limit delay p : ℕ)
    → 1 ≤ p
    → at_most limit (at_most limit (delay * 2) * p) ≡ at_most limit (delay * (2 * p))
at_most-at_most limit delay p h = elim (Bool-cases (ltb limit (delay * 2))) [
  | inl e ↦ rw e (ground (arith, grown limit p h, grown (delay * 2) p h, regroup delay p))
  | inr e ↦ rw e (ap (at_most limit) (regroup delay p))
]
  where
    regroup : (n k : ℕ) → n * 2 * k ≡ n * (2 * k)
    regroup n k = grind arith

doubled-eq :
    (limit left delay : ℕ)
    → delay ≤ limit
    → doubled limit left delay ≡ at_most limit (delay * 2 ^ left)
unfolding doubled
doubled-eq limit zero delay h = ground arith
doubled-eq limit (suc left) delay h =
    let power : 2 ^ suc left ≡ 2 * 2 ^ left = omega arith in
    elim (Bool-cases (ltb delay limit)) [
      | inl e ↦
          rw (e, power)
            (doubled-eq limit left (at_most limit (delay * 2)) (ground arith)
              ∙ at_most-at_most limit delay (2 ^ left) (power_pos left))
      | inr e ↦
          let full : delay ≡ limit = ground arith in
          rw (e, power, full)
            (ground (arith, grown limit (2 * 2 ^ left) (omega (arith, power_pos left))))
    ]

-- No item of the batch has had more attempts than the delay is computed from.
abbrev pub AttemptsUpTo : ℕ → List Item → Type 0
AttemptsUpTo n [] = Unit {0}
AttemptsUpTo n (item ∷ items) = (item.attempts ≤ n) × AttemptsUpTo n items

-- Some item of the batch has had that many attempts.
abbrev pub Tries : ℕ → List Item → Type 0
Tries n [] = ⊥
Tries n (item ∷ items) = (item.attempts ≡ n) ⊎ Tries n items

le-most_attempts : (n : ℕ) (items : List Item) → n ≤ most_attempts n items
unfolding most_attempts
le-most_attempts n [] = omega arith
le-most_attempts n (item ∷ items) =
    let first : ℕ = if ltb n item.attempts then item.attempts else n in
    ground (arith, le-most_attempts first items)

most_attempts-AttemptsUpTo :
    (n : ℕ) (items : List Item) → AttemptsUpTo (most_attempts n items) items
unfolding most_attempts
most_attempts-AttemptsUpTo n [] = tt
most_attempts-AttemptsUpTo n (item ∷ items) =
    let first : ℕ = if ltb n item.attempts then item.attempts else n in
    (ground (arith, le-most_attempts first items), most_attempts-AttemptsUpTo first items)

most_attempts-Tries :
    (n : ℕ) (items : List Item) → (most_attempts n items ≡ n) ⊎ Tries (most_attempts n items) items
unfolding most_attempts
most_attempts-Tries n [] = inl refl
most_attempts-Tries n (item ∷ items) =
    joined (chosen (ltb n item.attempts)) (most_attempts-Tries first items)
  where
    first : ℕ
    first = if ltb n item.attempts then item.attempts else n

    chosen :
        (b : Bool)
        → ((if b then item.attempts else n) ≡ n)
          ⊎ (item.attempts ≡ (if b then item.attempts else n))
    chosen true = inr refl
    chosen false = inl refl

    joined :
        {k : ℕ}
        → (first ≡ n) ⊎ (item.attempts ≡ first)
        → (k ≡ first) ⊎ Tries k items
        → (k ≡ n) ⊎ ((item.attempts ≡ k) ⊎ Tries k items)
    joined (inl a) (inl b) = inl (b ∙ a)
    joined (inr a) (inl b) = inr (inl (a ∙ sym b))
    joined choice (inr t) = inr (inr t)

module _ (w : Worker) (items : List Item) (jitter : ℕ) where
  -- The base doubled once for each attempt that the most often tried item has had, cut off at the
  -- longest delay.
  abbrev pub exponential : ℕ → ℕ
  exponential n = at_most w.retry_max (w.retry_base * 2 ^ n)

  -- With a base that is no longer than the longest delay, and a random part of at most a fifth, the
  -- delay before the next attempt is at least the base doubled once for each attempt of the most
  -- often tried item, cut off at the longest delay, at most a fifth more, and never above the
  -- longest delay.
  pub backoff_lem :
      w.retry_base ≤ w.retry_max
      → 5 * jitter ≤ delay_of w items
      → (n : ℕ) × AttemptsUpTo n items
        × ((n ≡ 0) ⊎ Tries n items)
        × (exponential n ≤ backoff w items jitter)
        × (5 * backoff w items jitter ≤ 6 * exponential n)
        × (backoff w items jitter ≤ w.retry_max)
  unfolding backoff
  backoff_lem h k =
      let n = most_attempts 0 items in
      let e : delay_of w items ≡ exponential n = doubled-eq w.retry_max n w.retry_base h in
      (
        n,
        most_attempts-AttemptsUpTo 0 items,
        most_attempts-Tries 0 items,
        ground (arith, e),
        ground (arith, e),
        ground arith,
      )
