-- ===== src/Prelude/Utf8.antt =====
-- `std::str::from_utf8`: the code points of a list of bytes, if it is valid UTF-8.
use Prim.Native.Nat.{ℕ, ◌+◌, ◌-◌, ◌*◌, ◌/◌, ◌%◌, ◌<◌}
use mathlib.Core.Path.{◌≡◌, refl}
use mathlib.Core.Bool.{◌&&◌}
use mathlib.Core.List.{List, [], ◌∷◌, ◌++◌}
use mathlib.Core.Option.{Option, none, some}
use native.Mathlib.Omega.{arith}
use barebones_reverse_proxy.Prelude.Tests.{ltb, leb, ◌==◌, if◌then◌else◌}
use barebones_reverse_proxy.Prelude.Lists.{All}
use barebones_reverse_proxy.Prelude.Texts.{Text}

-- How many bytes are still to come, the value so far, and the range of the next byte.
record Decoder : Type 0 where
  need : ℕ
  acc : ℕ
  lo : ℕ
  hi : ℕ

abbrev idle : Decoder
idle = record { need = 0; acc = 0; lo = 0x80; hi = 0xbf }

abbrev more : ℕ → ℕ → ℕ → ℕ → Option (Option ℕ × Decoder)
more need acc lo hi = some (none, record { need = need; acc = acc; lo = lo; hi = hi })

-- The first byte of a code point.
start : ℕ → Option (Option ℕ × Decoder)
start b =
    if ltb b 0x80
    then some (some b, idle)
    else if leb 0xc2 b && leb b 0xdf
    then more 1 (b - 0xc0) 0x80 0xbf
    else if b == 0xe0
    then more 2 0 0xa0 0xbf
    else if b == 0xed
    then more 2 13 0x80 0x9f
    else if leb 0xe1 b && leb b 0xef
    then more 2 (b - 0xe0) 0x80 0xbf
    else if b == 0xf0
    then more 3 0 0x90 0xbf
    else if leb 0xf1 b && leb b 0xf3
    then more 3 (b - 0xf0) 0x80 0xbf
    else if b == 0xf4
    then more 3 4 0x80 0x8f
    else none

step : Decoder → ℕ → Option (Option ℕ × Decoder)
unfolding start
step d b =
    if d.need == 0
    then start b
    else if leb d.lo b && leb b d.hi
    then (let acc = d.acc * 64 + (b - 0x80) in
        if d.need == 1 then some (some acc, idle) else more (d.need - 1) acc 0x80 0xbf)
    else none

abbrev emit : Option ℕ → Text → Text
emit none t = t
emit (some c) t = c ∷ t

decode : Decoder → List ℕ → Option Text
unfolding step
decode d [] = if d.need == 0 then some [] else none
decode d (b ∷ bytes) = elim (step d b) [
  | none ↦ none
  | some (out, d') ↦ elim (decode d' bytes) [ none ↦ none | some t ↦ some (emit out t) ]
]

unfoldable pub from_utf8 : List ℕ → Option Text
unfolding decode
from_utf8 = decode idle

-- ASCII is its own decoding.
pub from_utf8_ascii : (s : List ℕ) → All (λ b. b < 128) s → from_utf8 s ≡ some s
unfolding from_utf8
from_utf8_ascii [] h = refl
from_utf8_ascii (b ∷ s) h = ground (arith, from_utf8_ascii s h.1)

-- `char::encode_utf8`.
abbrev encode : ℕ → List ℕ
encode c =
    if ltb c 0x80
    then c ∷ []
    else if ltb c 0x800
    then (0xc0 + c / 64) ∷ (0x80 + c % 64) ∷ []
    else if ltb c 0x10000
    then (0xe0 + c / 4096) ∷ (0x80 + c / 64 % 64) ∷ (0x80 + c % 64) ∷ []
    else (0xf0 + c / 262144) ∷ (0x80 + c / 4096 % 64) ∷ (0x80 + c / 64 % 64) ∷ (0x80 + c % 64) ∷ []

-- `String::into_bytes`.
unfoldable pub to_utf8 : Text → List ℕ
to_utf8 [] = []
to_utf8 (c ∷ t) = encode c ++ to_utf8 t
