-- ===== src/Forwarder/Text/Fit.antt =====
-- The binary search of `formatForLimit`, internal/forwarder/format.go.
use lark_git_webhook.Base.{
  ◌+◌, ◌-◌, ◌/◌, ◌≤◌, ◌<◌, ◌≡◌, refl, ℕ, zero, suc, true, false, [], arith, Bool-cases, ◌⊎◌, inl,
  inr, length, ◌==◌,
}
use lark_git_webhook.Base.Bytes.{Bytes}
use lark_git_webhook.Store.Types.{Item}
use lark_git_webhook.Forwarder.Machine.{Outside}
use lark_git_webhook.Forwarder.Text.{trim, fits, search_cut, format_for_limit}

module _ ⦃outside : Outside⦄ (max_bytes : ℕ) (line : Bytes) where
  -- A longer cut of the line does not make a smaller message, as far as the limit can tell.
  abbrev pub IsMonotone : Type 0
  IsMonotone =
      (i j : ℕ) → i ≤ j → fits max_bytes (trim line j) ≡ true → fits max_bytes (trim line i) ≡ true

  -- The result is the longest cut below `low` candidates, all of which were found to fit.
  abbrev pub IsBest : ℕ → Bytes → Type 0
  IsBest low best =
      ((low ≡ 0) × (best ≡ []))
      ⊎ ((k : ℕ) × (low ≡ k + 1) × (best ≡ trim line k) × (fits max_bytes (trim line k) ≡ true))

  -- No cut from `low` on and below `end` fits.
  abbrev pub TooLong : ℕ → ℕ → Type 0
  TooLong low end = (j : ℕ) → low ≤ j → j < end → fits max_bytes (trim line j) ≡ false

  abbrev pub Found : ℕ → Bytes → Type 0
  Found end result = (low : ℕ) × (low ≤ end) × IsBest low result × TooLong low end

  too_long :
      (middle end : ℕ) → IsMonotone → fits max_bytes (trim line middle) ≡ false → TooLong middle end
  too_long middle end mono bad j le lt = elim (Bool-cases (fits max_bytes (trim line j))) [
    | inr e ↦ e
    | inl e ↦ let ok : fits max_bytes (trim line middle) ≡ true = mono middle j le e in cc
  ]

  search_cut-Found :
      (fuel low left end : ℕ) (best : Bytes)
      → IsMonotone
      → left ≤ fuel
      → low + left ≤ end
      → IsBest low best
      → TooLong (low + left) end
      → Found end (search_cut fuel max_bytes line low left best)
  unfolding search_cut
  search_cut-Found zero low left end best mono enough within found long =
      (low, omega arith, found, λ j le lt. long j (omega arith) lt)
  search_cut-Found (suc fuel) low left end best mono enough within found long =
      let half = (left - 1) / 2 in
      elim (Bool-cases (left == 0)) [
        | inl e ↦
            let none_left : left ≡ 0 = ground arith in
            rw (e, search_cut) (low, omega arith, found, λ j le lt. long j (omega arith) lt)
        | inr e ↦
            let some_left : 1 ≤ left = ground arith in
            elim (Bool-cases (fits max_bytes (trim line (low + half)))) [
              | inl f ↦
                  rw (e, f, search_cut)
                    (search_cut-Found fuel (low + half + 1) (left - half - 1) end
                      (trim line (low + half)) mono (omega arith) (omega arith)
                      (inr (low + half, refl, refl, f)) (λ j le lt. long j (omega arith) lt))
              | inr f ↦
                  rw (e, f, search_cut)
                    (search_cut-Found fuel low half end best mono (omega arith) (omega arith) found
                      (too_long (low + half) end mono f))
            ]
      ]

module _ ⦃outside : Outside⦄ where
  -- Where longer cuts do not make smaller messages, the text of an item that is too long for a
  -- message is cut to the greatest length that fits: the result is that cut and fits, or is empty
  -- if no cut fits, and no longer cut of the text fits. A text that fits is kept whole.
  pub format_for_limit-IsBest :
      (max_bytes : ℕ) (item : Item)
      → let line = outside.format item in
        IsMonotone max_bytes line
        → (fits max_bytes line ≡ true → format_for_limit max_bytes item ≡ line)
          × (fits max_bytes line ≡ false
              → Found max_bytes line (length line + 1) (format_for_limit max_bytes item))
  unfolding format_for_limit
  format_for_limit-IsBest max_bytes item mono =
      let line = outside.format item in
      (
        (λ e. rw (e, format_for_limit)),
        λ e.
            rw (e, format_for_limit)
              (search_cut-Found max_bytes line (length line + 1) 0 (length line + 1)
                (length line + 1) [] mono (omega arith) (omega arith) (inl (refl, refl))
                (λ j le lt. absurd (omega arith))),
      )
