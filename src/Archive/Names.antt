-- ===== src/Archive/Names.antt =====
-- The names of the payloads of internal/archive/archive.go.
use lark_git_webhook.Base.{
  ◌≡◌, ◌<◌, refl, ap, ◌∙◌, suc, true, false, ◌||◌, none, some, [], ◌∷◌, ◌++◌, arith, length,
}
use lark_git_webhook.Base.Bytes.{Bytes, same, same_refl}
use lark_git_webhook.Archive.Payloads.{
  payload_prefix, payload_suffix, payload_name, before_suffix, is_payload_name, event_of_name,
  has_slash, base_name,
}

same-longer : (a b : Bytes) → length a < length b → same a b ≡ false
unfolding same
same-longer [] (y ∷ ys) h = refl
same-longer (x ∷ xs) (y ∷ ys) h = ground (arith, same-longer xs ys)
same-longer a [] h = absurd (omega arith)

length-suffix : (a b : Bytes) → length b < suc (length (a ++ b))
length-suffix [] b = omega arith
length-suffix (x ∷ a) b = omega (arith, length-suffix a b)

before_suffix-append : (suffix kept : Bytes) → before_suffix suffix (kept ++ suffix) ≡ some kept
unfolding before_suffix same
before_suffix-append [] [] = refl
before_suffix-append (c ∷ suffix) [] = rw (before_suffix, same_refl (c ∷ suffix)) refl
before_suffix-append suffix (c ∷ kept) =
    rw
      (
        before_suffix,
        same-longer suffix (c ∷ kept ++ suffix) (length-suffix kept suffix),
        before_suffix-append suffix kept,
      )
      refl

pub payload_name-IsPayload : (event : Bytes) → is_payload_name (payload_name event) ≡ true
unfolding is_payload_name payload_name
payload_name-IsPayload event =
    ap (λ o. elim o [ none ↦ false | some kept ↦ true ])
      (before_suffix-append payload_suffix (payload_prefix ++ event))

pub event_of_name-payload_name : (event : Bytes) → event_of_name (payload_name event) ≡ event
unfolding event_of_name payload_name
event_of_name-payload_name event =
    ap (λ o. elim o [ none ↦ event ++ payload_suffix | some kept ↦ kept ])
      (before_suffix-append payload_suffix event)

has_slash-append : (a b : Bytes) → has_slash (a ++ b) ≡ (has_slash a || has_slash b)
unfolding has_slash
has_slash-append [] b = refl
has_slash-append (x ∷ a) b = ground (arith, has_slash-append a b)

base_name-plain : (name : Bytes) → has_slash name ≡ false → base_name name ≡ name
unfolding base_name has_slash
base_name-plain [] h = refl
base_name-plain (c ∷ rest) h = ground arith

pub base_name-payload_name :
    (event : Bytes) → has_slash event ≡ false → base_name (payload_name event) ≡ payload_name event
unfolding payload_name has_slash
base_name-payload_name event h =
    base_name-plain (payload_prefix ++ (event ++ payload_suffix))
      (has_slash-append event payload_suffix ∙ rw h refl)
