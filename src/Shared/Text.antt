-- ===== src/Shared/Text.antt =====
-- Python's `str` as the list of its code points, with the methods that the platform calls.
-- `lower` maps the letters A to Z only: the names of schemas, tables and columns, and the
-- keywords that the code compares after `.lower()`, are taken to be ASCII.
use Prim.Native.Nat.{ℕ, ◌+◌, ◌-◌, ◌≤◌}
use Prim.Native.Char.{code}
use Prim.Native.String.{String}
use mathlib.Core.Path.{◌≡◌, refl, ap₂}
use mathlib.Core.Logic.{◌↔◌, dite}
use mathlib.Core.Bool.{Bool, true, false, ◌&&◌, ◌||◌, Bool-discrete}
use mathlib.Core.List.{List, [], ◌∷◌, ◌++◌, map, reverse, reverse_aux}
use native.Mathlib.Omega.{arith}
use multi_tenant_data_chat_p.Shared.Basics.{Eq, ◌==◌, nat_eq, leb, if◌then◌else◌}
use multi_tenant_data_chat_p.Shared.Lists.{length, take, drop, is_empty}

abbrev pub Text : Type 0
Text = List ℕ

-- A literal of the source.
abbrev pub text : String → Text
text String.[] = []
text (String.◌∷◌ c s) = code c ∷ text s

unfoldable pub same_text : Text → Text → Bool
unfolding nat_eq
same_text [] [] = true
same_text (c ∷ s) (d ∷ t) = c == d && same_text s t
same_text _ _ = false

pub same_text_iff : (s t : Text) → (same_text s t ≡ true) ↔ (s ≡ t)
unfolding same_text
same_text_iff [] [] = ground arith
same_text_iff [] (d ∷ t) = ground arith
same_text_iff (c ∷ s) [] = ground arith
same_text_iff (c ∷ s) (d ∷ t) = ground (arith, same_text_iff s t)

text_dec : Discrete Text
unfolding same_text
text_dec s t =
    dite (Bool-discrete (same_text s t) true) (λ same. yes ((same_text_iff s t).0 same))
      (λ differ. no (λ p. differ ((same_text_iff s t).1 p)))

instance unfoldable pub text_eq : Eq Text
unfolding text_dec
text_eq = record { dec = text_dec }

-- `c.lower()` of one ASCII character.
unfoldable pub lower_char : ℕ → ℕ
lower_char c = if leb b'A' c && leb c b'Z' then c + 32 else c

unfoldable pub lower : Text → Text
unfolding lower_char
lower = map lower_char

-- `c.isspace()`
unfoldable pub is_space : ℕ → Bool
unfolding nat_eq
is_space c =
    leb 9 c && leb c 13
    || leb 28 c && leb c 32
    || c == 0x85
    || c == 0xa0
    || c == 0x1680
    || leb 0x2000 c && leb c 0x200a
    || c == 0x2028
    || c == 0x2029
    || c == 0x202f
    || c == 0x205f
    || c == 0x3000

unfoldable pub lstrip : Text → Text
unfolding is_space
lstrip [] = []
lstrip (c ∷ s) = let rest = lstrip s in if is_space c then rest else c ∷ s

-- `s.strip()`
unfoldable pub strip : Text → Text
unfolding lstrip
strip s = reverse (lstrip (reverse (lstrip s)))

-- `s.startswith(t)`
unfoldable pub starts_with : Text → Text → Bool
unfolding nat_eq
starts_with s [] = true
starts_with [] (d ∷ t) = false
starts_with (c ∷ s) (d ∷ t) = c == d && starts_with s t

-- `t in s`
unfoldable pub has_text : Text → Text → Bool
unfolding starts_with
has_text [] t = is_empty t
has_text (c ∷ s) t = starts_with (c ∷ s) t || has_text s t

-- `s[start:end]`, for bounds that are not negative.
abbrev pub slice : Text → ℕ → ℕ → Text
slice s start end = take (end - start) (drop start s)

-- `sep.join(parts)`
unfoldable pub join : Text → List Text → Text
join sep [] = []
join sep (s ∷ []) = s
join sep (s ∷ t ∷ parts) = s ++ sep ++ join sep (t ∷ parts)

-- `f"{schema}.{table}"`
unfoldable pub qualify : Text → Text → Text
qualify schema table = schema ++ (b'.' ∷ table)

-- Lower case is reached in one step.
pub lower_char_idem : (c : ℕ) → lower_char (lower_char c) ≡ lower_char c
unfolding lower_char
lower_char_idem c = ground arith

pub lower_idem : (s : Text) → lower (lower s) ≡ lower s
unfolding lower
lower_idem [] = refl
lower_idem (c ∷ s) = ap₂ ◌∷◌ (lower_char_idem c) (lower_idem s)

-- Stripping does not lengthen.
length-lstrip : (s : Text) → length (lstrip s) ≤ length s
unfolding lstrip
length-lstrip [] = omega arith
length-lstrip (c ∷ s) = ground (arith, length-lstrip s)

length-reverse_aux : (s t : Text) → length (reverse_aux s t) ≡ length s + length t
length-reverse_aux [] t = omega arith
length-reverse_aux (c ∷ s) t = omega (arith, length-reverse_aux s (c ∷ t))

pub length-strip : (s : Text) → length (strip s) ≤ length s
unfolding strip
length-strip s =
    let t = reverse_aux (lstrip s) [] in
    omega (
      arith,
      length-reverse_aux (lstrip t) [],
      length-lstrip t,
      length-reverse_aux (lstrip s) [],
      length-lstrip s,
    )
