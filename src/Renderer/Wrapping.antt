-- ===== src/Renderer/Wrapping.antt =====
-- crates/oppa-renderer/src/lib.rs: wrapping of text and rows to a number of columns. The display width
-- of a text and its grapheme clusters are those of the unicode_width and unicode_segmentation crates.
use oppa.Common.{
  zero, suc, ℕ, ◌+◌, ◌-◌, ◌*◌, ◌/◌, max, not, ◌&&◌, List, [], ◌∷◌, ◌++◌, ltb, ◌==◌, if◌then◌else◌,
}
use oppa.Common.Text.{Text, is_empty, is_whitespace}

pub record Unicode : Type 0 where
  pub width : Text → ℕ
  pub graphemes : Text → List Text

abbrev pub repeated : ℕ → ℕ → Text
repeated c zero = []
repeated c (suc n) = c ∷ repeated c n

-- One more character at the start of the first line.
abbrev pub extend_first : ℕ → List Text → List Text
extend_first c [] = (c ∷ []) ∷ []
extend_first c (line ∷ rest) = (c ∷ line) ∷ rest

-- `value.split('\n')`
unfoldable pub split_lines : Text → List Text
split_lines [] = [] ∷ []
split_lines (c ∷ s) =
    let rest = split_lines s in if c == 0x0A then [] ∷ rest else extend_first c rest

abbrev pub push_word : Text → List Text → List Text
push_word [] words = words
push_word (c ∷ w) words = (c ∷ w) ∷ words

-- The words of a text, with the word that is being read.
pub words_after : Text → Text → List Text
words_after word [] = push_word word []
words_after word (c ∷ s) =
    let space = is_whitespace c in
    let rest = words_after (if space then [] else word ++ c ∷ []) s in
    if space then push_word word rest else rest

-- `str::split_whitespace`
unfoldable pub split_whitespace : Text → List Text
unfolding words_after is_whitespace
split_whitespace = words_after []

module _ (unicode : Unicode) (width : ℕ) where
  -- The loop over a long word's graphemes: the lines so far and the segment.
  pub break_word : List Text → Text → List Text → List Text × Text
  break_word result segment [] = (result, segment)
  break_word result segment (g ∷ rest) =
      let full = not (is_empty segment) && ltb width (unicode.width segment + unicode.width g) in
      break_word (if full then result ++ segment ∷ [] else result)
        ((if full then [] else segment) ++ g) rest

  -- The body of the loop over the words of a line.
  pub wrap_word : Text → List Text × Text → List Text × Text
  unfolding break_word is_empty
  wrap_word word (result, current) =
      let candidate_width =
        unicode.width current + (if is_empty current then 0 else 1) + unicode.width word in
      let full = not (is_empty current) && ltb width candidate_width in
      let pushed = if full then result ++ current ∷ [] else result in
      let open_line = if full then [] else current in
      if ltb width (unicode.width word)
      then break_word (if is_empty open_line then pushed else pushed ++ open_line ∷ []) []
          (unicode.graphemes word)
      else (pushed, if is_empty open_line then word else open_line ++ 0x20 ∷ word)

  pub wrap_words : List Text × Text → List Text → List Text × Text
  unfolding wrap_word
  wrap_words state [] = state
  wrap_words state (word ∷ rest) = wrap_words (wrap_word word state) rest

  pub wrap_line : Text → List Text → List Text
  unfolding wrap_words split_whitespace
  wrap_line [] result = result ++ [] ∷ []
  wrap_line (c ∷ line) result =
      let (pushed, current) = wrap_words (result, []) (split_whitespace (c ∷ line)) in
      if is_empty current then pushed else pushed ++ current ∷ []

  pub wrap_lines : List Text → List Text → List Text
  unfolding wrap_line
  wrap_lines result [] = result
  wrap_lines result (line ∷ rest) = wrap_lines (wrap_line line result) rest

  unfoldable pub wrap_text : Text → List Text
  unfolding wrap_lines split_lines
  wrap_text value = wrap_lines [] (split_lines value)

  -- One line of a wrapped row.
  unfoldable pub row_line : Text → Text → Text
  row_line left right =
      left ++ repeated 0x20 (max (width - (unicode.width left + unicode.width right)) 1) ++ right

  unfoldable pub row_lines : List Text → List Text → List Text
  unfolding row_line
  row_lines [] [] = []
  row_lines [] (r ∷ right) = row_line [] r ∷ row_lines [] right
  row_lines (l ∷ left) [] = row_line l [] ∷ row_lines left []
  row_lines (l ∷ left) (r ∷ right) = row_line l r ∷ row_lines left right

-- `saturating_mul` does not saturate at a number of columns.
unfoldable pub layout_row : Unicode → Text → Text → ℕ → List Text
unfolding wrap_text row_lines
layout_row unicode left right width =
    let left_width = width * 3 / 5 in
    let right_width = width - (left_width + 1) in
    if ltb (unicode.width left + unicode.width right) width
    then (left ++ repeated 0x20 (width - unicode.width left - unicode.width right) ++ right) ∷ []
    else row_lines unicode width (wrap_text unicode (max left_width 1) left)
        (wrap_text unicode (max right_width 1) right)
