-- ===== src/Config/Schedule.antt =====
-- `Settings.backoff_for_attempt`: the schedule and its index.
use kafka_playgroud.Prelude.{
  ℕ, zero, suc, ◌-◌, ◌<◌, ◌≤◌, ◌≡◌, refl, Option, some, List, [], ◌∷◌, String, arith, ltb, min,
  length, get_elem?, ℤ, pos, Bool-cases, inl, inr,
}
use kafka_playgroud.Config.{Settings, retry_backoff_schedule, backoff_for_attempt}

get_elem?-of_lt {ℓ} :
    {A : Type ℓ} (xs : List A) (i : ℕ) → i < length xs → (a : A) × (get_elem? xs i ≡ some a)
get_elem?-of_lt [] i h = elim h [ ]
get_elem?-of_lt (x ∷ xs) zero h = (x, refl)
get_elem?-of_lt (x ∷ xs) (suc i) h = get_elem?-of_lt xs i (omega arith)

min_below : (i n : ℕ) → i < n → min i (n - 1) ≡ i
min_below i n h = omega arith

min_above : (i n : ℕ) → n ≤ i → min i (n - 1) ≡ n - 1
min_above i n h = omega arith

-- Python's `schedule[min(i, len(schedule) - 1)]`
clamped_lem {ℓ} :
    {A : Type ℓ} (xs : List A) (i : ℕ)
    → 0 < length xs
    → (a : A) × (get_elem? xs (min i (length xs - 1)) ≡ some a)
      × (i < length xs → get_elem? xs i ≡ some a)
      × (length xs ≤ i → get_elem? xs (length xs - 1) ≡ some a)
clamped_lem xs i full =
    let (a, e) = get_elem?-of_lt xs (min i (length xs - 1)) (omega arith) in
    (a, e, λ lt. rw (min_below i (length xs) lt) at e, λ le. rw (min_above i (length xs) le) at e)

module _ (parse_float : String → Option ℤ) where
  schedule_nonempty :
      (s : Settings) (schedule : List ℤ)
      → retry_backoff_schedule parse_float s ≡ some schedule
      → 0 < length schedule
  unfolding retry_backoff_schedule
  schedule_nonempty s schedule h = ground arith

  -- If the schedule parses, every attempt has a backoff, with no index out of range: none below
  -- attempt 2, the entry of its own from there, and the last entry past the end.
  pub backoff_for_attempt_total :
      (s : Settings) (schedule : List ℤ) (attempt : ℕ)
      → retry_backoff_schedule parse_float s ≡ some schedule
      → (b : ℤ) × (backoff_for_attempt parse_float s attempt ≡ some b)
        × (attempt < 2 → b ≡ pos 0)
        × (2 ≤ attempt
            → (attempt - 2 < length schedule → get_elem? schedule (attempt - 2) ≡ some b)
              × (length schedule ≤ attempt - 2 → get_elem? schedule (length schedule - 1) ≡ some b))
  unfolding backoff_for_attempt
  backoff_for_attempt_total s schedule attempt h =
      let (b, e, own, last) = clamped_lem schedule (attempt - 2) (schedule_nonempty s schedule h) in
      elim (Bool-cases (ltb attempt 2)) [
        | inl inline ↦ (pos 0, ground arith, λ _. refl, λ le. absurd (ground arith))
        | inr later ↦ (b, rw later (rw h e), λ lt. absurd (ground arith), λ _. (own, last))
      ]
