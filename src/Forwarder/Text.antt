-- ===== src/Forwarder/Text.antt =====
-- Fitting a line into a message: `trim` and `formatForLimit` of internal/forwarder/format.go.
pub mod Fit
use lark_git_webhook.Base.{
  ◌+◌, ◌-◌, ◌/◌, ◌≤◌, ◌<◌, ◌≡◌, refl, sym, ap, ◌∙◌, ℕ, zero, suc, Bool, true, false, not, ◌&&◌,
  ◌||◌, Option, none, some, List, [], ◌∷◌, ◌++◌, arith, ltb, leb, if◌then◌else◌, Bool-cases, ◌⊎◌,
  inl, inr, length, length-append, map, ◌==◌,
}
use lark_git_webhook.Base.Bytes.{Bytes, ascii}
use lark_git_webhook.Store.Types.{Item}
use lark_git_webhook.Forwarder.Machine.{Outside}

-- "…", three bytes in UTF-8.
abbrev pub ellipsis : Bytes
ellipsis = 0xE2 ∷ 0x80 ∷ 0xA6 ∷ []

-- `utf8.RuneStart`: not a continuation byte.
abbrev pub rune_start : ℕ → Bool
rune_start b = not (leb 0x80 b && ltb b 0xC0)

-- `value[:n]`, for an `n` within the value.
unfoldable pub prefix : ℕ → Bytes → Bytes
prefix zero value = []
prefix (suc n) [] = []
prefix (suc n) (b ∷ value) = b ∷ prefix n value

-- `!utf8.RuneStart(value[cut])`; a cut is always within the value.
unfoldable pub continues_at : Bytes → ℕ → Bool
continues_at [] cut = false
continues_at (b ∷ value) zero = not (rune_start b)
continues_at (b ∷ value) (suc cut) = continues_at value cut

-- The loop that moves the cut back to the start of a rune.
unfoldable pub cut_back : Bytes → ℕ → ℕ
unfolding continues_at
cut_back value zero = 0
cut_back value (suc cut) =
    let earlier = cut_back value cut in if continues_at value (suc cut) then earlier else suc cut

unfoldable pub trim : Bytes → ℕ → Bytes
unfolding prefix cut_back
trim value max =
    if leb max 3
    then []
    else if leb (length value) max
    then value
    else prefix (cut_back value (max - 3)) value ++ ellipsis

module _ ⦃outside : Outside⦄ where
  -- `serializedMessageSize([]string{line})+300 <= maxBytes`.
  abbrev pub fits : ℕ → Bytes → Bool
  fits max_bytes line = leb (outside.message_size (line ∷ []) + 300) max_bytes

  -- The search between `low` and `high`, the high end given as the number of candidates that are
  -- left: `left` is `high + 1 - low`. The middle has `(left - 1) / 2` candidates below it.
  unfoldable pub search_cut : ℕ → ℕ → Bytes → ℕ → ℕ → Bytes → Bytes
  unfolding trim
  search_cut zero max_bytes line low left best = best
  search_cut (suc fuel) max_bytes line low left best =
      let half = (left - 1) / 2 in
      let candidate = trim line (low + half) in
      let above = search_cut fuel max_bytes line (low + half + 1) (left - half - 1) candidate in
      let below = search_cut fuel max_bytes line low half best in
      if left == 0 then best else if fits max_bytes candidate then above else below

  -- Enough fuel: the candidates.
  unfoldable pub format_for_limit : ℕ → Item → Bytes
  unfolding search_cut
  format_for_limit max_bytes item =
      let line = outside.format item in
      if fits max_bytes line
      then line
      else search_cut (length line + 1) max_bytes line 0 (length line + 1) []

pub length-prefix : (n : ℕ) (value : Bytes) → length (prefix n value) ≤ n
unfolding prefix
length-prefix zero value = omega arith
length-prefix (suc n) [] = omega arith
length-prefix (suc n) (b ∷ value) = omega (arith, length-prefix n value)

-- A value begins with each of its prefixes.
pub prefix-append : (n : ℕ) (value : Bytes) → (rest : Bytes) × (value ≡ prefix n value ++ rest)
unfolding prefix
prefix-append zero value = (value, refl)
prefix-append (suc n) [] = ([], refl)
prefix-append (suc n) (b ∷ value) =
    let (rest, e) = prefix-append n value in (rest, ap (λ (v : Bytes). b ∷ v) e)

pub cut_back-le : (value : Bytes) (cut : ℕ) → cut_back value cut ≤ cut
unfolding cut_back
cut_back-le value zero = omega arith
cut_back-le value (suc cut) = ground (arith, cut_back-le value cut)

-- The cut stands before a byte that starts a rune, or at the start or the end of the value.
pub cut_back-continues_at :
    (value : Bytes) (cut : ℕ)
    → (cut_back value cut ≡ 0) ⊎ (continues_at value (cut_back value cut) ≡ false)
unfolding cut_back
cut_back-continues_at value zero = inl refl
cut_back-continues_at value (suc cut) = elim (Bool-cases (continues_at value (suc cut))) [
  | inl e ↦ rw e (cut_back-continues_at value cut)
  | inr e ↦ rw e (inr e)
]

-- A trimmed value is at most as long as is asked. It is the value, where that fits, and empty where
-- there is no room for more than the ellipsis; otherwise it is a prefix of the value that does not
-- end within a rune, and the ellipsis.
pub trim_lem :
    (value : Bytes) (max : ℕ)
    → (length (trim value max) ≤ max)
      × (length value ≤ max → 3 < max → trim value max ≡ value)
      × (max ≤ 3 → trim value max ≡ [])
      × (max < length value
          → 3 < max
          → (cut : ℕ) × (rest : Bytes) × (trim value max ≡ prefix cut value ++ ellipsis)
            × (value ≡ prefix cut value ++ rest)
            × ((cut ≡ 0) ⊎ (continues_at value cut ≡ false)))
unfolding trim
trim_lem value max =
    let cut = cut_back value (max - 3) in
    let (rest, e) = prefix-append cut value in
    (
      ground (
        arith,
        length-append {0} (prefix cut value) ellipsis,
        length-prefix cut value,
        cut_back-le value (max - 3),
      ),
      (λ h k. ground arith),
      (λ h. ground arith),
      λ h k. (cut, rest, ground arith, e, cut_back-continues_at value (max - 3)),
    )
