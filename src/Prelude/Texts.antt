-- ===== src/Prelude/Texts.antt =====
-- Texts as lists of the UTF-16 code units of a JavaScript string, byte buffers as lists of bytes,
-- and `===`, the length in UTF-8 and the code points of texts.
use Prim.Native.Nat.{ℕ, ◌+◌}
use Prim.Native.Char.{code}
use Prim.Native.String.{String}
use mathlib.Core.Path.{◌≡◌, refl}
use mathlib.Core.Logic.{◌↔◌}
use mathlib.Core.Bool.{Bool, true, false, ◌&&◌}
use mathlib.Core.List.{List, [], ◌∷◌, ◌++◌}
use native.Mathlib.Omega.{arith}
use agentmesh_mcp.Prelude.Tests.{if◌then◌else◌, ◌==◌, ltb, leb}

abbrev pub Text : Type 0
Text = List ℕ

-- The code units of a literal of the basic plane, where a character is one unit.
abbrev pub codes : String → Text
codes String.[] = []
codes (String.◌∷◌ c s) = code c ∷ codes s

unfoldable pub text_eq : Text → Text → Bool
text_eq [] [] = true
text_eq (x ∷ xs) (y ∷ ys) = (x == y) && text_eq xs ys
text_eq _ _ = false

pub text_eq_iff : (s t : Text) → (text_eq s t ≡ true) ↔ (s ≡ t)
unfolding text_eq
text_eq_iff [] [] = ground arith
text_eq_iff [] (y ∷ ys) = ground arith
text_eq_iff (x ∷ xs) [] = ground arith
text_eq_iff (x ∷ xs) (y ∷ ys) = ground (arith, text_eq_iff xs ys)

pub text_eq_refl : (s : Text) → text_eq s s ≡ true
text_eq_refl s = (text_eq_iff s s).1 refl

unfoldable pub texts_eq : List Text → List Text → Bool
texts_eq [] [] = true
texts_eq (x ∷ xs) (y ∷ ys) = text_eq x y && texts_eq xs ys
texts_eq _ _ = false

pub texts_eq_refl : (ss : List Text) → texts_eq ss ss ≡ true
unfolding texts_eq
texts_eq_refl [] = refl
texts_eq_refl (s ∷ ss) = ground (arith, text_eq_refl s, texts_eq_refl ss)

-- `toLowerCase` on the ASCII letters; the texts that it is applied to are ASCII.
unfoldable pub lower : ℕ → ℕ
lower c = if leb b'A' c && leb c b'Z' then c + 32 else c

-- The surrogates, of which a high one and a low one after it are one code point.
abbrev pub is_high : ℕ → Bool
is_high c = leb 0xD800 c && leb c 0xDBFF

abbrev pub is_low : ℕ → Bool
is_low c = leb 0xDC00 c && leb c 0xDFFF

-- What a unit adds to the length in UTF-8: a pair of surrogates has 3 + 1 bytes, and a lone one is
-- replaced by U+FFFD, of 3 bytes. The flag says that a high surrogate comes before.
unfoldable pub utf8_width : Bool → ℕ → ℕ
utf8_width after_high c =
    if after_high && is_low c then 1 else if ltb c 0x80 then 1 else if ltb c 0x800 then 2 else 3

unfoldable pub utf8_length : Bool → Text → ℕ
unfolding utf8_width
utf8_length after_high [] = 0
utf8_length after_high (c ∷ cs) = utf8_width after_high c + utf8_length (is_high c) cs

-- `Buffer.byteLength(text, "utf8")`

unfoldable pub byte_length : Text → ℕ
unfolding utf8_length
byte_length text = utf8_length false text

unfoldable pub starts_low : Text → Bool
starts_low [] = false
starts_low (c ∷ cs) = is_low c

unfoldable pub join_first : ℕ → List Text → List Text
join_first c [] = (c ∷ []) ∷ []
join_first c (p ∷ ps) = (c ∷ p) ∷ ps

-- `[...text]`: the code points, each with its one or two units.
unfoldable pub points : Text → List Text
unfolding starts_low join_first
points [] = []
points (c ∷ cs) =
    let rest = points cs in
    if is_high c && starts_low cs then join_first c rest else (c ∷ []) ∷ rest

-- `join("")`
unfoldable pub joined : List Text → Text
joined [] = []
joined (p ∷ ps) = p ++ joined ps
