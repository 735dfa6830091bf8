-- ===== src/Common/Utf8.antt =====
-- `str::as_bytes` and `str::from_utf8`. A byte is a number below 256.
use Prim.Native.Nat.{ℕ, ◌+◌, ◌-◌, ◌*◌, ◌/◌, ◌%◌}
use mathlib.Core.Path.{◌≡◌, refl}
use native.Mathlib.Omega.{arith}
use mathlib.Core.Bool.{Bool, true}
use mathlib.Core.List.{List, [], ◌∷◌, ◌++◌}
use mathlib.Core.Option
use mathlib.Core.Option.{Option, none, some}
use oppa.Common.Tests.{ltb, ◌==◌, within, if◌then◌else◌}
use oppa.Common.Lists.{all, length}
use oppa.Common.Text.{Text, byte_len}

-- `char::encode_utf8`
unfoldable pub encode_utf8 : ℕ → List ℕ
encode_utf8 c =
    if ltb c 0x80
    then c ∷ []
    else if ltb c 0x800
    then (0xC0 + c / 64) ∷ (0x80 + c % 64) ∷ []
    else if ltb c 0x10000
    then (0xE0 + c / 4096) ∷ (0x80 + c / 64 % 64) ∷ (0x80 + c % 64) ∷ []
    else (0xF0 + c / 262144) ∷ (0x80 + c / 4096 % 64) ∷ (0x80 + c / 64 % 64) ∷ (0x80 + c % 64) ∷ []

-- `str::as_bytes`
unfoldable pub as_bytes : Text → List ℕ
unfolding encode_utf8
as_bytes [] = []
as_bytes (c ∷ s) = encode_utf8 c ++ as_bytes s

-- Between two bytes: how many more bytes the character has, in which range the next one is, and the
-- bits read so far.
pub record Utf8State : Type 0 where
  pub remaining : ℕ
  pub low : ℕ
  pub high : ℕ
  pub bits : ℕ

abbrev pub between_characters : Utf8State
between_characters = record { remaining = 0; low = 0; high = 0; bits = 0 }

abbrev leading : ℕ → ℕ → ℕ → ℕ → Option (List ℕ × Utf8State)
leading remaining low high bits =
    some ([], record { remaining = remaining; low = low; high = high; bits = bits })

-- The first byte of a character: no surrogate, nothing above U+10FFFF, no overlong form.
unfoldable pub first_byte : ℕ → Option (List ℕ × Utf8State)
first_byte b =
    if ltb b 0x80
    then some (b ∷ [], between_characters)
    else if within 0xC2 0xDF b
    then leading 1 0x80 0xBF (b - 0xC0)
    else if b == 0xE0
    then leading 2 0xA0 0xBF 0
    else if b == 0xED
    then leading 2 0x80 0x9F 13
    else if within 0xE1 0xEF b
    then leading 2 0x80 0xBF (b - 0xE0)
    else if b == 0xF0
    then leading 3 0x90 0xBF 0
    else if within 0xF1 0xF3 b
    then leading 3 0x80 0xBF (b - 0xF0)
    else if b == 0xF4
    then leading 3 0x80 0x8F 4
    else none

unfoldable pub next_byte : Utf8State → ℕ → Option (List ℕ × Utf8State)
unfolding first_byte
next_byte state b =
    if state.remaining == 0
    then first_byte b
    else if within state.low state.high b
    then (let bits = state.bits * 64 + (b - 0x80) in
        if state.remaining == 1
        then some (bits ∷ [], between_characters)
        else leading (state.remaining - 1) 0x80 0xBF bits)
    else none

unfoldable pub decode_from : Utf8State → List ℕ → Option Text
unfolding next_byte
decode_from state [] = if state.remaining == 0 then some [] else none
decode_from state (b ∷ rest) = elim (next_byte state b) [
  | none ↦ none
  | some (characters, after) ↦ Option.map (λ s. characters ++ s) (decode_from after rest)
]

-- `str::from_utf8`
unfoldable pub from_utf8 : List ℕ → Option Text
unfolding decode_from
from_utf8 = decode_from between_characters

abbrev pub is_ascii : List ℕ → Bool
is_ascii = all (λ b. ltb b 0x80)

-- ASCII is its own UTF-8.
ascii-next_byte :
    (b : ℕ) → ltb b 0x80 ≡ true → next_byte between_characters b ≡ some (b ∷ [], between_characters)
unfolding next_byte first_byte
ascii-next_byte b low = rw low refl

decode-ascii : (s : Text) → is_ascii s ≡ true → decode_from between_characters s ≡ some s
unfolding decode_from
decode-ascii [] h = refl
decode-ascii (b ∷ s) h =
    let low : ltb b 0x80 ≡ true = ground arith in
    let rest : is_ascii s ≡ true = ground arith in
    rw (decode_from, ascii-next_byte b low, decode-ascii s rest) refl

pub from_utf8-ascii : (s : Text) → is_ascii s ≡ true → from_utf8 s ≡ some s
unfolding from_utf8
from_utf8-ascii s h = decode-ascii s h

pub as_bytes-ascii : (s : Text) → is_ascii s ≡ true → as_bytes s ≡ s
unfolding as_bytes encode_utf8
as_bytes-ascii [] h = refl
as_bytes-ascii (c ∷ s) h =
    let low : ltb c 0x80 ≡ true = ground arith in
    let rest : is_ascii s ≡ true = ground arith in rw (low, as_bytes-ascii s rest) refl

pub byte_len-ascii : (s : Text) → is_ascii s ≡ true → byte_len s ≡ length s
byte_len-ascii [] h = refl
byte_len-ascii (c ∷ s) h = ground (arith, byte_len-ascii s)
