-- ===== src/Base/Bytes.antt =====
-- Bytes as numbers below 256, and what holds of each of them.
use Prim.Native.Nat.{ℕ, zero, suc, ◌<◌, bit_xor}
use mathlib.Core.Path.{◌≡◌, refl}
use mathlib.Core.Bool.{Bool, true, false, ◌&&◌}
use mathlib.Core.List.{List}
use native.Mathlib.Omega.{arith}
use c_development_on_linux.Base.Tests.{◌==◌, ltb, if◌then◌else◌}
use c_development_on_linux.Base.Lists.{All}

abbrev pub IsByte : ℕ → Type 0
IsByte b = b < 256

abbrev pub AreBytes : List ℕ → Type 0
AreBytes bs = All IsByte bs

-- Whether a test accepts the `count` least numbers.
accepts : (ℕ → Bool) → ℕ → Bool
accepts test zero = true
accepts test (suc count) = let before = accepts test count in if test count then before else false

accepts_lem :
    (test : ℕ → Bool) (count b : ℕ) → b < count → accepts test count ≡ true → test b ≡ true
unfolding accepts
accepts_lem test zero b small passed = absurd (omega arith)
accepts_lem test (suc count) b small passed = ground (arith, accepts_lem test count b)

flips : ℕ → Bool
flips b = let flipped = bit_xor b 0x20 in (bit_xor flipped 0x20 == b) && ltb flipped 256

bytes_flip : accepts flips 256 ≡ true
unfolding accepts flips
bytes_flip = refl

-- `b ^ 0x20` is a byte, and flips back.
pub flip_lem : (b : ℕ) → IsByte b → (bit_xor (bit_xor b 0x20) 0x20 ≡ b) × (bit_xor b 0x20 < 256)
unfolding flips
flip_lem b h = ground (arith, accepts_lem flips 256 b h bytes_flip)
