-- ===== src/Base/Bytes.antt =====
-- Byte strings: equality, the byte-wise order of keys, and prefixes.
use Prim.Native.Nat.{ℕ}
use mathlib.Core.Path.{◌≡◌, refl}
use mathlib.Core.Logic.{◌↔◌}
use mathlib.Core.Bool.{Bool, true, false, ◌&&◌}
use mathlib.Core.Option.{Option, none, some}
use mathlib.Core.List.{List, [], ◌∷◌, ◌++◌}
use native.Mathlib.Omega.{arith}
use Prim.Native.Char.{code}
use Prim.Native.String.{String}
use lark_git_webhook.Base.Tests.{ltb, ◌==◌, if◌then◌else◌}

abbrev pub Bytes : Type 0
Bytes = List ℕ

-- `a == b` of strings and byte slices.
unfoldable pub same : Bytes → Bytes → Bool
same [] [] = true
same [] (y ∷ ys) = false
same (x ∷ xs) [] = false
same (x ∷ xs) (y ∷ ys) = (x == y) && same xs ys

pub same_iff : (a b : Bytes) → (same a b ≡ true) ↔ (a ≡ b)
unfolding same
same_iff [] [] = (λ _. refl, λ _. refl)
same_iff [] (y ∷ ys) = (λ h. cc, λ h. cc)
same_iff (x ∷ xs) [] = (λ h. cc, λ h. cc)
same_iff (x ∷ xs) (y ∷ ys) = ground (arith, same_iff xs ys)

pub same_refl : (a : Bytes) → same a a ≡ true
same_refl a = (same_iff a a).1 refl

-- `bytes.Compare(a, b) < 0`, the order of the keys of a bucket.
unfoldable pub before : Bytes → Bytes → Bool
before a [] = false
before [] (y ∷ ys) = true
before (x ∷ xs) (y ∷ ys) = let rest = before xs ys in if x == y then rest else ltb x y

pub before_irrefl : (a : Bytes) → before a a ≡ false
unfolding before
before_irrefl [] = refl
before_irrefl (x ∷ xs) = ground (arith, before_irrefl xs)

pub before_trans : (a b c : Bytes) → before a b ≡ true → before b c ≡ true → before a c ≡ true
unfolding before
before_trans [] [] c h k = cc
before_trans [] (y ∷ ys) [] h k = cc
before_trans [] (y ∷ ys) (z ∷ zs) h k = refl
before_trans (x ∷ xs) [] c h k = cc
before_trans (x ∷ xs) (y ∷ ys) [] h k = cc
before_trans (x ∷ xs) (y ∷ ys) (z ∷ zs) h k = ground (arith, before_trans xs ys zs)

-- Two keys that differ are in order one way or the other.
pub before_total : (a b : Bytes) → same a b ≡ false → before a b ≡ false → before b a ≡ true
unfolding before same
before_total [] [] h k = cc
before_total [] (y ∷ ys) h k = cc
before_total (x ∷ xs) [] h k = refl
before_total (x ∷ xs) (y ∷ ys) h k = ground (arith, before_total xs ys)

-- What follows `prefix` in `key`, if `key` begins with it.
unfoldable pub after_prefix : Bytes → Bytes → Option Bytes
after_prefix [] key = some key
after_prefix (p ∷ ps) [] = none
after_prefix (p ∷ ps) (k ∷ ks) = let rest = after_prefix ps ks in if p == k then rest else none

pub after_prefix-append : (prefix rest : Bytes) → after_prefix prefix (prefix ++ rest) ≡ some rest
unfolding after_prefix
after_prefix-append [] rest = refl
after_prefix-append (p ∷ ps) rest = ground (arith, after_prefix-append ps rest)

pub after_prefix-eq_some :
    (prefix key rest : Bytes) → after_prefix prefix key ≡ some rest → key ≡ prefix ++ rest
unfolding after_prefix
after_prefix-eq_some [] key rest h = ground arith
after_prefix-eq_some (p ∷ ps) [] rest h = cc
after_prefix-eq_some (p ∷ ps) (k ∷ ks) rest h = ground (arith, after_prefix-eq_some ps ks rest)

-- The bytes of a text literal.
abbrev pub ascii : String → Bytes
ascii String.[] = []
ascii (String.◌∷◌ c s) = code c ∷ ascii s
