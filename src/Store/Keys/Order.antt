-- ===== src/Store/Keys/Order.antt =====
-- The byte order of the keys of internal/store/store.go.
use Prim.Native.Nat.{◌*◌}
use native.Mathlib.Nat.{
  pow-succ', mod-lt, div-add-mod', mod-eq_of_lt, add-mul-mod_self_right, mul-le-mul_right,
}
use lark_git_webhook.Base.{
  ℕ, zero, suc, ◌+◌, ◌/◌, ◌%◌, ◌^◌, ◌<◌, ◌≡◌, lt→ltb, ltb, ◌==◌, arith, if◌then◌else◌, ap, ◌∙◌,
  length, true, ◌-◌, ◌≤◌, refl, sym, [], ◌∷◌, ◌++◌,
}
use lark_git_webhook.Base.Bytes.{before, Bytes}
use lark_git_webhook.Base.Words.{u64}
use lark_git_webhook.Store.Keys.{
  dedupe_index_key, big_endian, number_key, time_key, unix_nano, Time, unix_epoch,
}

pub pow256_pos : (w : ℕ) → 0 < 256 ^ w
pow256_pos zero = omega arith
pow256_pos (suc w) = rw pow-succ' (omega (arith, pow256_pos w))

digit_bound : (n p : ℕ) → 0 < p → (n / p % 256) * p + n % p < 256 * p
digit_bound n p h = grind arith

-- One more digit in front.
pub digit_split : (n p : ℕ) → 0 < p → n % (256 * p) ≡ (n / p % 256) * p + n % p
digit_split n p h =
    ap (λ m. m % (256 * p)) regroup
    ∙ add-mul-mod_self_right ((n / p % 256) * p + n % p) (n / p / 256) (256 * p)
    ∙ mod-eq_of_lt (digit_bound n p h)
  where
    regroup : n ≡ ((n / p % 256) * p + n % p) + (n / p / 256) * (256 * p)
    regroup = omega (arith, div-add-mod' n p, ap (λ (t : ℕ). t * p) (div-add-mod' (n / p) 256))

digit_gap : (x y p r s : ℕ) → x < y → r < p → x * p + r < y * p + s
digit_gap x y p r s h k = grind (arith, mul-le-mul_right)

compare_digits :
    (x y p r s : ℕ)
    → r < p
    → s < p
    → (if x == y then ltb r s else ltb x y) ≡ ltb (x * p + r) (y * p + s)
compare_digits x y p r s h k = ground (arith, digit_gap x y p r s, digit_gap y x p s r)

before-big_endian :
    (w a b : ℕ) → before (big_endian w a) (big_endian w b) ≡ ltb (a % 256 ^ w) (b % 256 ^ w)
unfolding big_endian before
before-big_endian zero a b = ground arith
before-big_endian (suc w) a b =
    rw
      (
        pow-succ' 256 w,
        digit_split a (256 ^ w) (pow256_pos w),
        digit_split b (256 ^ w) (pow256_pos w),
        before-big_endian w a b,
      )
      (compare_digits (a / 256 ^ w % 256) (b / 256 ^ w % 256) (256 ^ w) (a % 256 ^ w) (b % 256 ^ w)
        (mod-lt a (pow256_pos w)) (mod-lt b (pow256_pos w)))

-- A cursor over sequence numbers visits them in numeric order.
pub before-number_key :
    (a b : ℕ) → a < u64 → b < u64 → before (number_key a) (number_key b) ≡ ltb a b
unfolding number_key
before-number_key a b h k = before-big_endian 8 a b ∙ rw (mod-eq_of_lt h, mod-eq_of_lt k)

before-append :
    (p q x y : Bytes) → length p ≡ length q → before p q ≡ true → before (p ++ x) (q ++ y) ≡ true
unfolding before
before-append [] [] x y e h = cc
before-append [] (b ∷ q) x y e h = cc
before-append (a ∷ p) [] x y e h = cc
before-append (a ∷ p) (b ∷ q) x y e h = ground (arith, before-append p q x y)

pub length-big_endian : (w n : ℕ) → length (big_endian w n) ≡ w
unfolding big_endian
length-big_endian zero n = refl
length-big_endian (suc w) n = ap suc (length-big_endian w n)

-- From 1970 on, within the range of `UnixNano`, an earlier time has a smaller index key, whatever
-- identifiers follow.
pub before-dedupe_index_key :
    (a b : Time) (x y : Bytes)
    → unix_epoch ≤ a
    → a < b
    → b < unix_epoch + u64
    → before (dedupe_index_key a x) (dedupe_index_key b y) ≡ true
unfolding dedupe_index_key time_key unix_nano number_key
before-dedupe_index_key a b x y low h high =
    before-append (time_key a) (time_key b) x y
      (length-big_endian 8 ((a + 4 * u64 - unix_epoch) % u64)
        ∙ sym (length-big_endian 8 ((b + 4 * u64 - unix_epoch) % u64)))
      (before-number_key ((a + 4 * u64 - unix_epoch) % u64) ((b + 4 * u64 - unix_epoch) % u64)
          (omega arith) (omega arith)
        ∙ lt→ltb ((a + 4 * u64 - unix_epoch) % u64) ((b + 4 * u64 - unix_epoch) % u64)
            (omega arith))
