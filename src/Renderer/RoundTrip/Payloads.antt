-- ===== src/Renderer/RoundTrip/Payloads.antt =====
-- Payloads and their lengths, as the encoder writes and the interpreter takes them.
use oppa.Common.{
  ℕ, ◌+◌, ◌*◌, ◌/◌, ◌%◌, ◌<◌, ◌≡◌, refl, ap, true, List, [], ◌∷◌, ◌++◌, ok, arith, length,
  length-append, take, drop, leb,
}
use oppa.Renderer.Interpreter.{Parser, take_payload}

module _ {ℓ} {A : Type ℓ} where
  pub take-append_length : (xs ys : List A) → take (length xs) (xs ++ ys) ≡ xs
  take-append_length [] ys = refl
  take-append_length (x ∷ xs) ys = ap (λ l. x ∷ l) (take-append_length xs ys)

  pub drop-append_length : (xs ys : List A) → drop (length xs) (xs ++ ys) ≡ ys
  drop-append_length [] ys = refl
  drop-append_length (x ∷ xs) ys = drop-append_length xs ys

-- A payload that is there is taken whole.
pub take_payload-append :
    (size at : ℕ) (payload tail : List ℕ) (p : Parser)
    → size ≡ length payload
    → take_payload size at (record p { rest = payload ++ tail })
      ≡ ok (payload, record p { rest = tail; offset = p.offset + size })
unfolding take_payload
take_payload-append size at payload tail p e =
    let enough : leb size (length (payload ++ tail)) ≡ true =
      ground (arith, e, length-append payload tail) in
    rw (enough, e, take-append_length payload tail, drop-append_length payload tail) refl

-- The length of a stored payload, in two bytes.
abbrev pub low_byte : ℕ → ℕ
low_byte n = n % 256

abbrev pub high_byte : ℕ → ℕ
high_byte n = n / 256 % 256

pub two_bytes : (n : ℕ) → n < 65536 → low_byte n + 256 * high_byte n ≡ n
two_bytes n h = omega arith
