-- ===== src/Prelude/Words.antt =====
-- Machine integers of a 64-bit target: `usize` and `u64`, with what the standard library's
-- arithmetic does at the end of their range.
use Prim.Native.Nat.{ℕ, ◌+◌, ◌*◌, ◌%◌, ◌<◌}
use mathlib.Core.Path.{◌≡◌}
use mathlib.Core.Option.{Option, none, some}
use native.Mathlib.Nat.{mod-eq_of_lt}
use barebones_reverse_proxy.Prelude.Tests.{ltb, if◌then◌else◌}

abbrev pub u16_mod : ℕ
u16_mod = 65_536

abbrev pub word_mod : ℕ
word_mod = 18_446_744_073_709_551_616

-- `a + b` on `usize` in a release build: it wraps.
unfoldable pub usize_add : ℕ → ℕ → ℕ
usize_add a b = (a + b) % word_mod

-- `usize::checked_mul`.
unfoldable pub checked_mul : ℕ → ℕ → Option ℕ
checked_mul a b = if ltb (a * b) word_mod then some (a * b) else none

-- Below the end of the range the sum is the sum.
pub usize_add_lem : (a b : ℕ) → a + b < word_mod → usize_add a b ≡ a + b
unfolding usize_add
usize_add_lem a b h = mod-eq_of_lt h
