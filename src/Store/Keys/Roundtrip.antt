-- ===== src/Store/Keys/Roundtrip.antt =====
-- What `getUint` and `decodeTime` read back from the keys that the store writes.
use Prim.Native.Nat.{◌*◌}
use native.Mathlib.Nat.{pow-succ'}
use lark_git_webhook.Base.{
  ℕ, zero, suc, ◌+◌, ◌/◌, ◌%◌, ◌^◌, ◌<◌, ◌≤◌, ◌≡◌, refl, ◌∷◌, ◌++◌, arith, length, ap, ◌∙◌,
  length-append,
}
use lark_git_webhook.Base.Bytes.{Bytes}
use lark_git_webhook.Base.Words.{u64}
use lark_git_webhook.Store.Types.{Time}
use lark_git_webhook.Store.Keys.{
  big_endian, read_big_endian, first_bytes, get_uint, number_key, time_key, unix_nano,
  from_unix_nano, decode_time, unix_epoch,
}
use lark_git_webhook.Store.Keys.Order.{length-big_endian, digit_split, pow256_pos}

read-big_endian : (w acc n : ℕ) → read_big_endian acc (big_endian w n) ≡ acc * 256 ^ w + n % 256 ^ w
unfolding read_big_endian big_endian
read-big_endian zero acc n = omega arith
read-big_endian (suc w) acc n =
    rw
      (
        read-big_endian w (acc * 256 + n / 256 ^ w % 256) n,
        pow-succ' 256 w,
        digit_split n (256 ^ w) (pow256_pos w),
      )
      (omega arith)

first-big_endian :
    (w n : ℕ) (rest : Bytes) → first_bytes w (big_endian w n ++ rest) ≡ big_endian w n
unfolding first_bytes big_endian
first-big_endian zero n rest = refl
first-big_endian (suc w) n rest = ap (◌∷◌ (n / 256 ^ w % 256)) (first-big_endian w n rest)

read_key : (n : ℕ) → n < u64 → read_big_endian 0 (big_endian 8 n) ≡ n
read_key n h = omega (arith, read-big_endian 8 0 n)

pub get_uint-number_key : (n : ℕ) → n < u64 → get_uint (number_key n) ≡ n
unfolding get_uint number_key
get_uint-number_key n h = read_key n h

from-unix_nano :
    (t : Time)
    → unix_epoch ≤ t + 2 ^ 63
    → t < unix_epoch + 2 ^ 63
    → from_unix_nano (unix_nano t) ≡ t
unfolding from_unix_nano unix_nano
from-unix_nano t low high = ground arith

unix_nano-lt : (t : Time) → unix_nano t < u64
unfolding unix_nano
unix_nano-lt t = omega arith

decode_long :
    (v : Bytes)
    → 8 ≤ length v
    → decode_time v ≡ from_unix_nano (read_big_endian 0 (first_bytes 8 v))
unfolding decode_time
decode_long v h = ground arith

time_key-length : (t : Time) (rest : Bytes) → 8 ≤ length (time_key t ++ rest)
unfolding time_key number_key
time_key-length t rest =
    omega
      (arith, length-append (big_endian 8 (unix_nano t)) rest, length-big_endian 8 (unix_nano t))

-- A time within the range of `UnixNano` is read back exactly from the first eight bytes of a key.
pub decode_time-time_key :
    (t : Time) (rest : Bytes)
    → unix_epoch ≤ t + 2 ^ 63
    → t < unix_epoch + 2 ^ 63
    → decode_time (time_key t ++ rest) ≡ t
unfolding time_key number_key
decode_time-time_key t rest low high =
    decode_long (time_key t ++ rest) (time_key-length t rest)
    ∙ ap (λ v. from_unix_nano (read_big_endian 0 v)) (first-big_endian 8 (unix_nano t) rest)
    ∙ ap from_unix_nano (read_key (unix_nano t) (unix_nano-lt t))
    ∙ from-unix_nano t low high
