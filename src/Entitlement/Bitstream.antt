-- ===== src/Entitlement/Bitstream.antt =====
-- `GhettoBitStream` of src/rhsm/bitstream.py. The characters '1' and '0' are `true` and `false`.
pub mod Laws
use mathlib.Core.Bool.{Bool-discrete}
use mathlib.Core.List.{reverse}
use subscription_manager.Base.{
  ℕ, zero, suc, ◌+◌, ◌-◌, ◌*◌, ◌/◌, ◌%◌, ◌^◌, Bool, true, false, Option, none, some, List, [], ◌∷◌,
  ◌++◌, leb, Eq, nat_eq, ◌==◌, if◌then◌else◌,
}
use subscription_manager.Base.Result.{Result, ok, err, index_error}

abbrev pub Bits : Type 0
Bits = List Bool

unfoldable pub Bits-discrete : Discrete Bits
Bits-discrete = hlevel Bool-discrete

instance abbrev pub bits_eq : Eq Bits
bits_eq = record { dec = Bits-discrete }

pub record GhettoBitStream : Type 0 where
  pub bytes : List ℕ
  pub bit_buffer : Bits

-- The `n` lowest binary digits of a number, the highest first.
abbrev pub digits : ℕ → ℕ → Bits
digits zero x = []
digits (suc n) x = (x / 2 ^ n % 2 == 1) ∷ digits n x

-- "{0:08b}".format(byte), on a byte
unfoldable pub _byte_to_bits : ℕ → Bits
_byte_to_bits byte = digits 8 byte

-- the loop of `_bin_backport`, for n in range(n - 1, -1, -1)
unfoldable pub bin_backport_loop : ℕ → ℕ → Bits
bin_backport_loop zero x = []
bin_backport_loop (suc n) x =
    if leb (2 ^ n) x then true ∷ bin_backport_loop n (x - 2 ^ n) else false ∷ bin_backport_loop n x

unfoldable pub _bin_backport : ℕ → Bits
unfolding bin_backport_loop
_bin_backport x = bin_backport_loop 8 x

unfoldable pub pop_byte : GhettoBitStream → Result (ℕ × GhettoBitStream)
pop_byte s = elim s.bytes [
  | [] ↦ err index_error
  | byte ∷ rest ↦ ok (byte, record s { bytes = rest })
]

-- `deque.popleft` of the bit buffer; `none` is `StopIteration`
abbrev pop_bit : Bits → List ℕ → Option (Bool × GhettoBitStream)
pop_bit [] bytes = none
pop_bit (b ∷ bits) bytes = some (b, record { bytes = bytes; bit_buffer = bits })

-- `__next__`
abbrev next_of : Bits → List ℕ → Option (Bool × GhettoBitStream)
next_of [] [] = none
next_of [] (byte ∷ bytes) = pop_bit (_byte_to_bits byte) bytes
next_of (b ∷ bits) bytes = pop_bit (b ∷ bits) bytes

unfoldable pub __next__ : GhettoBitStream → Option (Bool × GhettoBitStream)
unfolding _byte_to_bits
__next__ s = next_of s.bit_buffer s.bytes

-- sum(x << n * 8 for n, x in enumerate(data, n))
unfoldable pub shifted_sum : ℕ → List ℕ → ℕ
shifted_sum n [] = 0
shifted_sum n (x ∷ data') = x * 2 ^ (n * 8) + shifted_sum (n + 1) data'

unfoldable pub combine_bytes : List ℕ → ℕ
unfolding shifted_sum
combine_bytes xs = shifted_sum 0 (reverse xs)
