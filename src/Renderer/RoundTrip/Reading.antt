-- ===== src/Renderer/RoundTrip/Reading.antt =====
-- Parsers between two commands, and the commands of one line each.
use oppa.Common.{
  ℕ, zero, suc, ◌+◌, ◌<◌, ◌≤◌, ◌≡◌, refl, ap, Bool, true, false, List, [], ◌∷◌, ◌++◌, arith, length,
  ◌==◌, if◌then◌else◌,
}
use oppa.Common.Utf8.{from_utf8}
use oppa.Renderer.{ReceiptWidth, mm58, mm80, columns, ReceiptElement, divider, feed, cut}
use oppa.Renderer.Wrapping.{repeated}
use oppa.Renderer.Interpreter.{Parser, EscPosDiagnostics}
use oppa.Renderer.Interpreter.Commands.{run}

-- A parser between two commands, with these bytes to come.
abbrev pub standing : ReceiptWidth → Parser → List ℕ → Parser
standing width p bytes = record p { width = width; rest = bytes; pending = []; stopped = false }

-- The offset after some bytes.
abbrev pub past : ℕ → ℕ → ℕ
past zero offset = offset
past (suc n) offset = past n offset + 1

abbrev pub more : ℕ → ℕ → ℕ
more zero fuel = fuel
more (suc rounds) fuel = suc (more rounds fuel)

-- The bytes are read as the element, in at most as many rounds as there are bytes.
pub record Reads (width : ReceiptWidth) (e : ReceiptElement) (bytes : List ℕ) (p : Parser)
    : Type 0 where
  pub rounds : ℕ
  pub few : rounds ≤ length bytes
  pub after : Parser
  pub pushed : after.elements ≡ p.elements ++ e ∷ []
  pub reads :
      (tail : List ℕ) (fuel : ℕ)
      → run (more rounds fuel) (standing width p (bytes ++ tail))
        ≡ run fuel (standing width after tail)

pub if-false {ℓ} : {A : Type ℓ} (test : Bool) (x y : A) → test ≡ false → (if test then x else y) ≡ y
if-false true x y h = cc
if-false false x y h = refl

abbrev pub commands : ℕ → EscPosDiagnostics → EscPosDiagnostics
commands n d = record d { interpreted_commands = past n d.interpreted_commands }

module _ (width : ReceiptWidth) (p : Parser) where
  pub cut-Reads : Reads width cut (0x1D ∷ b'V' ∷ 0 ∷ []) p
  unfolding run
  cut-Reads = record {
    rounds = 1;
    few = omega arith;
    after = record p {
      elements = p.elements ++ cut ∷ [];
      offset = p.offset + 1 + 1 + 1;
      diagnostics = record (commands 1 p.diagnostics) { cut_requested = true };
    };
    pushed = refl;
    reads = λ tail fuel. refl;
  }

  pub feed-Reads : (lines : ℕ) → 0 < lines → Reads width (feed lines) (0x1B ∷ b'd' ∷ lines ∷ []) p
  unfolding run
  feed-Reads lines positive = record {
    rounds = 1;
    few = omega arith;
    after = record p {
      elements = p.elements ++ feed lines ∷ [];
      offset = p.offset + 1 + 1 + 1;
      diagnostics = record (commands 1 p.diagnostics) {
        feed_lines = p.diagnostics.feed_lines + lines;
      };
    };
    pushed = refl;
    reads = λ tail fuel. ap (run fuel) (if-false (lines == 0) _ _ (ground arith));
  }

pub divider-Reads :
    (width : ReceiptWidth) (p : Parser)
    → Reads width divider (repeated b'-' (columns width) ++ 0x0A ∷ []) p
unfolding run from_utf8
divider-Reads mm58 p = record {
  rounds = 33;
  few = omega arith;
  after = record p {
    elements = p.elements ++ divider ∷ [];
    offset = past 33 p.offset;
    diagnostics = record p.diagnostics { text_lines = p.diagnostics.text_lines + 1 };
  };
  pushed = refl;
  reads = λ tail fuel. refl;
}
divider-Reads mm80 p = record {
  rounds = 49;
  few = omega arith;
  after = record p {
    elements = p.elements ++ divider ∷ [];
    offset = past 49 p.offset;
    diagnostics = record p.diagnostics { text_lines = p.diagnostics.text_lines + 1 };
  };
  pushed = refl;
  reads = λ tail fuel. refl;
}
