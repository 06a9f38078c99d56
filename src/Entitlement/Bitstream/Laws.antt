-- ===== src/Entitlement/Bitstream/Laws.antt =====
-- The bits and the numbers that a stream yields.
use mathlib.Core.List.{reverse, reverse-append}
use native.Mathlib.Numerals.{towards_suc}
use subscription_manager.Base.{
  ◌&&◌, ℕ_discrete, ℕ, zero, suc, ◌+◌, ◌*◌, ◌^◌, ◌<◌, ◌≡◌, refl, ap, Bool, true, Option, none, some,
  List, [], ◌∷◌, ◌++◌, nat_eq, ◌==◌, if◌then◌else◌, arith,
}
use subscription_manager.Entitlement.Bitstream.{
  Bits, Bits-discrete, bits_eq, GhettoBitStream, _byte_to_bits, _bin_backport, __next__,
  shifted_sum, combine_bytes,
}

-- the number that binary digits stand for, the highest first
abbrev value_of : ℕ → Bits → ℕ
value_of acc [] = acc
value_of acc (b ∷ bits) = value_of (2 * acc + (if b then 1 else 0)) bits

-- Both functions at all values below a bound.
bytes_agree : ℕ → Bool
bytes_agree zero = true
bytes_agree (suc n) =
    (value_of 0 (_byte_to_bits n) == n) && (_bin_backport n == _byte_to_bits n) && bytes_agree n

bytes_agree_at :
    (n x : ℕ)
    → bytes_agree n ≡ true
    → x < n
    → (value_of 0 (_byte_to_bits x) ≡ x) × (_bin_backport x ≡ _byte_to_bits x)
unfolding bytes_agree
bytes_agree_at zero x h lt = absurd (omega arith)
bytes_agree_at (suc n) x h lt = ground (arith, bytes_agree_at n x)

bytes_agree_all : bytes_agree 256 ≡ true
unfolding bytes_agree _byte_to_bits _bin_backport ℕ_discrete Bits-discrete
bytes_agree_all = refl

-- The digits of a byte, read as a binary number, are the byte, and the fallback for old versions of
-- Python computes the same digits.
byte_to_bits_value :
    (x : ℕ) → x < 256 → (value_of 0 (_byte_to_bits x) ≡ x) × (_bin_backport x ≡ _byte_to_bits x)
byte_to_bits_value x h = bytes_agree_at 256 x bytes_agree_all h

-- every bit that is left in a stream
abbrev pub all_bits : List ℕ → Bits
all_bits [] = []
all_bits (byte ∷ bytes) = _byte_to_bits byte ++ all_bits bytes

abbrev pub remaining : GhettoBitStream → Bits
remaining s = s.bit_buffer ++ all_bits s.bytes

-- Iteration yields the bits that are left one by one, and ends when there is none.
abbrev pub Yields : Bits → Option (Bool × GhettoBitStream) → Type 0
Yields bits none = bits ≡ []
Yields bits (some (b, s)) = bits ≡ b ∷ remaining s

pub next-Yields : (s : GhettoBitStream) → Yields (remaining s) (__next__ s)
unfolding __next__
next-Yields s = yields s.bit_buffer s.bytes
  where
    yields :
        (bits : Bits) (bytes : List ℕ)
        → Yields (bits ++ all_bits bytes) (__next__ (record { bytes = bytes; bit_buffer = bits }))
    yields [] [] = refl
    yields [] (byte ∷ bytes) = refl
    yields (b ∷ bits) bytes = refl

times_eight : (n : ℕ) → (n + 1) * 8 ≡ n * 8 + 8
times_eight n = omega arith

shifted_sum_step : (n : ℕ) (xs : List ℕ) → shifted_sum (n + 1) xs ≡ 256 * shifted_sum n xs
unfolding shifted_sum
shifted_sum_step n [] = omega arith
shifted_sum_step n (x ∷ xs) =
    let power : 2 ^ ((n + 1) * 8) ≡ 256 * 2 ^ (n * 8) =
      rw (times_eight n) (simp towards_suc (omega arith)) in
    omega (arith, shifted_sum_step (n + 1) xs, ap (λ (p : ℕ). x * p) power)

-- Bytes are combined in big-endian order: one more byte at the end multiplies by 256 and adds it.
combine_bytes-append :
    (xs : List ℕ) (x : ℕ) → combine_bytes (xs ++ x ∷ []) ≡ combine_bytes xs * 256 + x
unfolding combine_bytes
combine_bytes-append xs x =
    rw (reverse-append xs (x ∷ [])) (omega (arith, shifted_sum_step 0 (reverse xs)))
