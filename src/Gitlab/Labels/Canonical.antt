-- ===== src/Gitlab/Labels/Canonical.antt =====
-- The form of the labels that `eventLabel` of internal/gitlabwebhook/handler.go makes.
use lark_git_webhook.Base.{
  ◌≡◌, refl, ap, ℕ, Bool, true, false, not, ◌&&◌, ◌||◌, Option, none, some, [], ◌∷◌, ◌++◌, arith,
  ltb, ◌==◌, if◌then◌else◌, Bool-cases, Option-cases, ◌⊎◌, inl, inr, length,
}
use lark_git_webhook.Base.Bytes.{Bytes}
use lark_git_webhook.Webhook.Checks.{between}
use lark_git_webhook.Gitlab.Labels.{
  kept_char, is_separator, prepend, normalize, trim_left, trim_right, label_prefix, known_names,
  known_or, event_label,
}

-- A small letter or a digit.
abbrev pub is_plain : ℕ → Bool
is_plain c = between 97 122 c || between 48 57 c

-- Words of small letters and digits with single `_` between them. `before` tells that the character
-- before was a `_`; neither such a text nor what follows a `_` is empty, or begins with `_`.
abbrev pub is_words : Bool → Bytes → Bool
is_words before [] = not before
is_words before (c ∷ cs) =
    (is_plain c && is_words false cs) || (c == 95 && (not before && is_words true cs))

abbrev pub IsName : Bytes → Type 0
IsName name = is_words true name ≡ true

-- The same, where `_` may stand at either end.
abbrev is_loose : Bool → Bytes → Bool
is_loose before [] = true
is_loose before (c ∷ cs) =
    (is_plain c && is_loose false cs) || (c == 95 && (not before && is_loose true cs))

kept_char-plain : (c k : ℕ) → kept_char c ≡ some k → is_plain k ≡ true
unfolding kept_char
kept_char-plain c k h = ground arith

prepend-eq_some :
    (c : ℕ) (o : Option Bytes) (name : Bytes)
    → prepend c o ≡ some name
    → (rest : Bytes) × (o ≡ some rest) × (name ≡ c ∷ rest)
prepend-eq_some c none name h = cc
prepend-eq_some c (some rest) name h = (rest, refl, ground arith)

normalize-loose :
    (space : Bool) (header name : Bytes)
    → normalize space header ≡ some name
    → is_loose space name ≡ true
unfolding normalize
normalize-loose space [] name h = let e : name ≡ [] = ground arith in rw e refl
normalize-loose space (c ∷ cs) name h = elim (Option-cases (kept_char c)) [
  | inr (k, e) ↦
      let (rest, f, g) = prepend-eq_some k (normalize false cs) name (rw (e, normalize) at h) in
      rw g (ground (arith, kept_char-plain c k e, normalize-loose false cs rest f))
  | inl e ↦ elim (Bool-cases (is_separator c)) [
    | inr n ↦ absurd (cc (rw (e, normalize, n) at h))
    | inl n ↦ separated space (normalize-loose true cs) (rw (e, normalize, n) at h)
  ]
]
  where
    separated :
        (b : Bool)
        → ((rest : Bytes) → normalize true cs ≡ some rest → is_loose true rest ≡ true)
        → (if b then normalize true cs else prepend 95 (normalize true cs)) ≡ some name
        → is_loose b name ≡ true
    separated true after g = after name g
    separated false after g =
        let (rest, f, e) = prepend-eq_some 95 (normalize true cs) name g in
        rw e (ground (arith, after rest f))

trim_left-loose :
    (before : Bool) (name : Bytes)
    → is_loose before name ≡ true
    → is_loose true (trim_left name) ≡ true
unfolding trim_left
trim_left-loose before [] h = refl
trim_left-loose before (c ∷ cs) h = ground (arith, trim_left-loose true cs)

trim_right-words :
    (before : Bool) (name : Bytes)
    → is_loose before name ≡ true
    → (trim_right name ≡ []) ⊎ (is_words before (trim_right name) ≡ true)
unfolding trim_right
trim_right-words before [] h = inl refl
trim_right-words before (c ∷ cs) h = elim (Bool-cases (c == 95)) [
  | inl e ↦ after_separator e (trim_right cs) (trim_right-words true cs (ground arith))
  | inr e ↦ rw e (inr (after_plain e (trim_right cs) (trim_right-words false cs (ground arith))))
]
  where
    after_separator :
        (c == 95) ≡ true
        → (t : Bytes) → (t ≡ []) ⊎ (is_words true t ≡ true)
        → ((if c == 95 && length t == 0 then [] else c ∷ t) ≡ [])
          ⊎ (is_words before (if c == 95 && length t == 0 then [] else c ∷ t) ≡ true)
    after_separator e [] words = inl (ground arith)
    after_separator e (x ∷ t) (inl empty) = absurd (cc empty)
    after_separator e (x ∷ t) (inr words) = inr (ground arith)

    after_plain :
        (c == 95) ≡ false
        → (t : Bytes) → (t ≡ []) ⊎ (is_words false t ≡ true)
        → is_words before (c ∷ t) ≡ true
    after_plain e [] words = ground arith
    after_plain e (x ∷ t) (inl empty) = absurd (cc empty)
    after_plain e (x ∷ t) (inr words) = ground arith

known_or-IsName : (name : Bytes) → IsName name → IsName (known_or known_names name)
unfolding known_or
known_or-IsName name h = ground arith

-- The label of an event is `gitlab:` and a name of small letters, digits and single `_`, which
-- neither begins nor ends with `_`.
pub event_label-IsName :
    (header label : Bytes)
    → event_label header ≡ some label
    → (name : Bytes) × (label ≡ label_prefix ++ name) × IsName name
unfolding event_label
event_label-IsName header label h =
    elim (Bool-cases (length header == 0 || ltb 64 (length header))) [
      | inl e ↦ absurd (cc (rw (e, event_label) at h))
      | inr e ↦ elim (Option-cases (normalize false header)) [
        | inl f ↦ absurd (cc (rw (e, event_label, f) at h))
        | inr (normalized, f) ↦ named normalized f (rw (e, event_label, f) at h)
      ]
    ]
  where
    named :
        (normalized : Bytes)
        → normalize false header ≡ some normalized
        → (let name = trim_right (trim_left normalized) in
            if length name == 0 then none else some (label_prefix ++ known_or known_names name))
          ≡ some label
        → (name : Bytes) × (label ≡ label_prefix ++ name) × IsName name
    named normalized f g =
        let name = trim_right (trim_left normalized) in
        elim (trim_right-words true (trim_left normalized)
          (trim_left-loose false normalized (normalize-loose false header normalized f))) [
            | inl empty ↦ absurd (ground (arith, ap (length {A = ℕ}) empty))
            | inr words ↦ elim (Bool-cases (length name == 0)) [
              | inl z ↦ absurd (cc (rw z at g))
              | inr z ↦
                  let made : some (label_prefix ++ known_or known_names name) ≡ some label =
                    rw z at g in
                  (known_or known_names name, ground arith, known_or-IsName name words)
            ]
          ]
