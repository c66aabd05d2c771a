-- ===== src/Store/Error.antt =====
-- The errors that the store returns (internal/store/store.go), and the result of a call.
use lark_git_webhook.Base.{◌≡◌, refl}

pub data Error : Type 0 where
  queue_full : Error
  not_open : Error
  not_found : Error
  duplicate_item : Error
  delivery_conflict : Error
  form_conflict : Error
  message_mismatch : Error
  validation_cooldown : Error
  stats_underflow : Error
  stats_overflow : Error
  -- a stored value that does not decode
  malformed_value : Error
  -- `errors.New("... required")`
  missing_argument : Error
  -- a cancelled context, or one whose deadline is too near
  deadline_exceeded : Error

pub data Result {ℓ} (A : Type ℓ) : Type ℓ where
  err : Error → Result A
  ok : A → Result A

infixl 5 ◌>>=◌
abbrev pub ◌>>=◌ {ℓ κ} : {A : Type ℓ} {B : Type κ} → Result A → (A → Result B) → Result B
err why >>= next = err why
ok done >>= next = next done

-- What a successful chain went through.
pub >>=-eq_ok {ℓ κ} :
    {A : Type ℓ} {B : Type κ} {last : B} (first : Result A) (next : A → Result B)
    → (first >>= next) ≡ ok last
    → (middle : A) × (first ≡ ok middle) × (next middle ≡ ok last)
>>=-eq_ok (err why) next h = cc
>>=-eq_ok (ok done) next h = (done, refl, h)
