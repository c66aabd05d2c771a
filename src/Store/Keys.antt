-- ===== src/Store/Keys.antt =====
-- The binary keys of internal/store/store.go: uint64 and times as eight big-endian bytes.
pub mod Order
pub mod Roundtrip
use Prim.Native.Nat.{◌*◌}
use lark_git_webhook.Base.{
  ℕ, zero, suc, ◌+◌, ◌-◌, ◌/◌, ◌%◌, ◌^◌, ◌<◌, ◌≤◌, ◌≡◌, refl, Bool, List, [], ◌∷◌, ◌++◌, ltb, leb,
  ◌==◌, arith, if◌then◌else◌, length,
}
use lark_git_webhook.Base.Bytes.{Bytes}
use lark_git_webhook.Base.Words.{u64}
use lark_git_webhook.Store.Types.{Time}

-- The `w` low bytes of `n`, the most significant first.
unfoldable pub big_endian : ℕ → ℕ → Bytes
big_endian zero n = []
big_endian (suc w) n = (n / 256 ^ w % 256) ∷ big_endian w n

unfoldable pub read_big_endian : ℕ → Bytes → ℕ
read_big_endian acc [] = acc
read_big_endian acc (b ∷ bs) = read_big_endian (acc * 256 + b) bs

unfoldable pub number_key : ℕ → Bytes
unfolding big_endian
number_key n = big_endian 8 n

unfoldable pub get_uint : Bytes → ℕ
unfolding read_big_endian
get_uint v = if length v == 8 then read_big_endian 0 v else 0

-- The first eight bytes, if there are as many.
unfoldable pub first_bytes : ℕ → Bytes → Bytes
first_bytes zero v = []
first_bytes (suc n) [] = []
first_bytes (suc n) (b ∷ bs) = b ∷ first_bytes n bs

-- 1970-01-01 in nanoseconds since the start of year 1.
abbrev pub unix_epoch : ℕ
unix_epoch = 62_135_596_800_000_000_000

-- `uint64(t.UnixNano())`, which wraps outside of 1678 to 2262.
unfoldable pub unix_nano : Time → ℕ
unix_nano t = (t + 4 * u64 - unix_epoch) % u64

unfoldable pub time_key : Time → Bytes
unfolding number_key unix_nano
time_key t = number_key (unix_nano t)

-- `time.Unix(0, int64(n))`.
unfoldable pub from_unix_nano : ℕ → Time
from_unix_nano n = if ltb n (2 ^ 63) then unix_epoch + n else unix_epoch + n - u64

unfoldable pub decode_time : Bytes → Time
unfolding read_big_endian first_bytes from_unix_nano
decode_time v = if ltb (length v) 8 then 0 else from_unix_nano (read_big_endian 0 (first_bytes 8 v))

unfoldable pub dedupe_index_key : Time → Bytes → Bytes
unfolding time_key
dedupe_index_key expiry delivery_id = time_key expiry ++ delivery_id

key_bytes : number_key 258 ≡ 0 ∷ 0 ∷ 0 ∷ 0 ∷ 0 ∷ 0 ∷ 1 ∷ 2 ∷ []
unfolding number_key
key_bytes = refl

key_value : get_uint (number_key 0x1234_5678_9abc_def0) ≡ 0x1234_5678_9abc_def0
unfolding number_key get_uint
key_value = refl
