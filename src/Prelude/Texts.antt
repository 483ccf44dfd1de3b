-- ===== src/Prelude/Texts.antt =====
-- `str` and `String`: the list of the Unicode scalar values, with the standard library's measures and
-- classes that the program uses. Only `char::is_alphanumeric` and `to_lowercase` are not here: they
-- are large Unicode tables, and enter as parameters where they are used.
use Prim.Native.Nat.{ℕ, ◌+◌}
use Prim.Native.Char.{code}
use Prim.Native.String.{String}
use mathlib.Core.Path.{◌≡◌, refl}
use mathlib.Core.Logic.{◌↔◌}
use mathlib.Core.Bool.{Bool, true, false, ◌&&◌, ◌||◌}
use mathlib.Core.Option.{Option, none, some, map as option_map}
use mathlib.Core.List.{List, [], ◌∷◌, ◌++◌, reverse}
use native.Mathlib.Omega.{arith}
use voicetext_gateway.Prelude.Tests.{ltb, leb, ◌==◌, if◌then◌else◌}
use voicetext_gateway.Prelude.Lists.{is_empty}

abbrev pub Text : Type 0
Text = List ℕ

-- The scalar values of a literal.
abbrev pub text : String → Text
text String.[] = []
text (String.◌∷◌ c s) = code c ∷ text s

unfoldable pub text_eq : Text → Text → Bool
text_eq [] [] = true
text_eq [] (d ∷ u) = false
text_eq (c ∷ t) [] = false
text_eq (c ∷ t) (d ∷ u) = c == d && text_eq t u

pub text_eq_iff : (t u : Text) → (text_eq t u ≡ true) ↔ (t ≡ u)
unfolding text_eq
text_eq_iff [] [] = (λ h. refl, λ h. refl)
text_eq_iff [] (d ∷ u) = (λ h. cc, λ h. cc)
text_eq_iff (c ∷ t) [] = (λ h. cc, λ h. cc)
text_eq_iff (c ∷ t) (d ∷ u) = ground (arith, text_eq_iff t u)

-- `char::is_whitespace`, the Unicode property White_Space.
unfoldable pub is_whitespace : ℕ → Bool
is_whitespace c =
    (leb 9 c && leb c 13)
    || c == 32
    || c == 0x85
    || c == 0xa0
    || c == 0x1680
    || (leb 0x2000 c && leb c 0x200a)
    || c == 0x2028
    || c == 0x2029
    || c == 0x202f
    || c == 0x205f
    || c == 0x3000

-- `char::is_control`, the Unicode category Cc.
unfoldable pub is_control : ℕ → Bool
is_control c = ltb c 32 || (leb 0x7f c && ltb c 0xa0)

-- `str::len`: the bytes of the UTF-8 encoding.
abbrev utf8_width : ℕ → ℕ
utf8_width c =
    if ltb c 0x80 then 1 else (if ltb c 0x800 then 2 else (if ltb c 0x10000 then 3 else 4))

unfoldable pub byte_len : Text → ℕ
byte_len [] = 0
byte_len (c ∷ t) = utf8_width c + byte_len t

-- `str::encode_utf16().count()`
abbrev utf16_width : ℕ → ℕ
utf16_width c = if ltb c 0x10000 then 1 else 2

unfoldable pub utf16_len : Text → ℕ
utf16_len [] = 0
utf16_len (c ∷ t) = utf16_width c + utf16_len t

unfoldable pub trim_start : Text → Text
trim_start [] = []
trim_start (c ∷ t) = let rest = trim_start t in if is_whitespace c then rest else c ∷ t

-- `str::trim`
unfoldable pub trim : Text → Text
unfolding trim_start
trim t = reverse (trim_start (reverse (trim_start t)))

-- `str::split_whitespace`, with the word read so far.
unfoldable pub words_from : Text → Text → List Text
words_from [] [] = []
words_from (w ∷ word) [] = (w ∷ word) ∷ []
words_from word (c ∷ t) =
    if is_whitespace c
    then (let rest = words_from [] t in if is_empty word then rest else word ∷ rest)
    else words_from (word ++ c ∷ []) t

unfoldable pub split_whitespace : Text → List Text
unfolding words_from
split_whitespace t = words_from [] t

-- `join(" ")`
unfoldable pub join_spaces : List Text → Text
join_spaces [] = []
join_spaces (w ∷ []) = w
join_spaces (w ∷ v ∷ ws) = w ++ 32 ∷ join_spaces (v ∷ ws)

-- The Unicode tables: `char::is_alphanumeric`, `char::to_lowercase` and `str::to_lowercase`.
pub record Unicode : Type 0 where
  pub is_alphanumeric : ℕ → Bool
  pub char_to_lowercase : ℕ → Text
  pub str_to_lowercase : Text → Text

-- `str::strip_prefix`, the prefix first.
unfoldable pub strip_prefix : Text → Text → Option Text
strip_prefix [] t = some t
strip_prefix (c ∷ p) [] = none
strip_prefix (c ∷ p) (d ∷ t) = if c == d then strip_prefix p t else none

-- `str::strip_suffix`, the suffix first.
unfoldable pub strip_suffix : Text → Text → Option Text
strip_suffix s [] = if is_empty s then some [] else none
strip_suffix s (c ∷ t) =
    let rest = strip_suffix s t in
    if text_eq s (c ∷ t) then some [] else option_map (λ u. c ∷ u) rest
