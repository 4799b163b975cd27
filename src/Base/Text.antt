-- ===== src/Base/Text.antt =====
-- Texts as lists of code points, and the character classes that the tools' patterns name.
use Prim.Native.Nat.{ℕ, ◌+◌}
use Prim.Native.Char.{code}
use Prim.Native.String.{String}
use mathlib.Core.Bool.{Bool, true, false, ◌&&◌, ◌||◌, not}
use mathlib.Core.List.{List, [], ◌∷◌, ◌++◌}
use mathlib.Core.Path.{◌≡◌, refl}
use native.Mathlib.Omega.{arith}
use text.Mathlib.Text.{◌==◌ as str_eq}
use text.Mathlib.TextEquality.{eq_iff}
use nscscc_cpu.Base.Tests.{leb, ◌==◌, if◌then◌else◌}
use nscscc_cpu.Base.Lists.{all, any, length}

-- A Python `str` is a sequence of code points.
abbrev pub codes : String → List ℕ
codes String.[] = []
codes (String.◌∷◌ c s) = code c ∷ codes s

-- `[0-9a-f]`
abbrev pub is_hex : ℕ → Bool
is_hex c = leb b'0' c && leb c b'9' || leb b'a' c && leb c b'f'

-- `[0-9a-f]{n}` against a whole text
abbrev pub is_hex_text : ℕ → String → Bool
is_hex_text n s = (length (codes s) == n) && all is_hex (codes s)

-- what `str.strip` takes off
abbrev pub is_space : ℕ → Bool
is_space c =
    leb 9 c && leb c 13
    || leb 28 c && leb c 32
    || c == 0x85
    || c == 0xa0
    || c == 0x1680
    || leb 0x2000 c && leb c 0x200a
    || c == 0x2028
    || c == 0x2029
    || c == 0x202f
    || c == 0x205f
    || c == 0x3000

-- `bool(text.strip())`
abbrev pub is_nonblank : String → Bool
is_nonblank s = any (λ c. not (is_space c)) (codes s)

-- `s == t`, on code points
abbrev pub text_eq : List ℕ → List ℕ → Bool
text_eq [] [] = true
text_eq [] (d ∷ t) = false
text_eq (c ∷ s) [] = false
text_eq (c ∷ s) (d ∷ t) = (c == d) && text_eq s t

-- `s in ts`
abbrev pub text_elem : List ℕ → List (List ℕ) → Bool
text_elem s ts = any (text_eq s) ts

-- `text.startswith(prefix)`
abbrev pub has_prefix : List ℕ → List ℕ → Bool
has_prefix [] t = true
has_prefix (c ∷ p) [] = false
has_prefix (c ∷ p) (d ∷ t) = (c == d) && has_prefix p t

-- `text.endswith(suffix)`
abbrev pub has_suffix : List ℕ → List ℕ → Bool
has_suffix p [] = text_eq p []
has_suffix p (d ∷ t) = text_eq p (d ∷ t) || has_suffix p t

-- `needle in text`
abbrev pub contains : List ℕ → List ℕ → Bool
contains p [] = has_prefix p []
contains p (c ∷ t) = has_prefix p (c ∷ t) || contains p t

abbrev pub lstrip : List ℕ → List ℕ
lstrip [] = []
lstrip (c ∷ t) = if is_space c then lstrip t else c ∷ t

abbrev pub rstrip : List ℕ → List ℕ
rstrip [] = []
rstrip (c ∷ t) = unless_blank c (rstrip t)
  where
    unless_blank : ℕ → List ℕ → List ℕ
    unless_blank c [] = if is_space c then [] else c ∷ []
    unless_blank c (d ∷ r) = c ∷ d ∷ r

-- `text.strip()`
abbrev pub strip : List ℕ → List ℕ
strip t = rstrip (lstrip t)

-- `bool(text.strip())`, of code points
abbrev pub has_ink : List ℕ → Bool
has_ink t = any (λ c. not (is_space c)) t

abbrev attach : ℕ → List (List ℕ) → List (List ℕ)
attach c [] = (c ∷ []) ∷ []
attach c (l ∷ ls) = (c ∷ l) ∷ ls

-- the line boundaries of `str.splitlines`
abbrev pub is_line_break : ℕ → Bool
is_line_break c =
    leb 10 c && leb c 13 || leb 28 c && leb c 30 || c == 0x85 || c == 0x2028 || c == 0x2029

-- `text.splitlines()`; the flag says that the character before was a carriage return.
unfoldable pub lines_after : Bool → List ℕ → List (List ℕ)
lines_after after_cr [] = []
lines_after after_cr (c ∷ t) =
    let rest = lines_after (c == 13) t in
    if after_cr && c == 10 then rest else if is_line_break c then [] ∷ rest else attach c rest

abbrev pub splitlines : List ℕ → List (List ℕ)
splitlines = lines_after false

abbrev split_spaces : List ℕ → List (List ℕ)
split_spaces [] = [] ∷ []
split_spaces (c ∷ t) = let rest = split_spaces t in if is_space c then [] ∷ rest else attach c rest

abbrev nonempty : List (List ℕ) → List (List ℕ)
nonempty [] = []
nonempty ([] ∷ ts) = nonempty ts
nonempty ((c ∷ t) ∷ ts) = (c ∷ t) ∷ nonempty ts

-- `text.split()`
unfoldable pub words : List ℕ → List (List ℕ)
words t = nonempty (split_spaces t)

-- `text.replace(old, new)` for one character `old`
abbrev pub replace_char : ℕ → List ℕ → List ℕ → List ℕ
replace_char old new [] = []
replace_char old new (c ∷ t) =
    let rest = replace_char old new t in if c == old then new ++ rest else c ∷ rest

-- `text.lower()`, of ASCII letters
abbrev pub lower : List ℕ → List ℕ
lower [] = []
lower (c ∷ t) = (if leb b'A' c && leb c b'Z' then c + 32 else c) ∷ lower t

pub str_eq_refl : (s : String) → str_eq s s ≡ true
str_eq_refl s = (eq_iff s s).1 refl

pub text_eq-eq : (s t : List ℕ) → text_eq s t ≡ true → s ≡ t
text_eq-eq [] [] h = refl
text_eq-eq [] (d ∷ t) h = cc
text_eq-eq (c ∷ s) [] h = cc
text_eq-eq (c ∷ s) (d ∷ t) h = ground (arith, text_eq-eq s t)

pub text_eq_refl : (s : List ℕ) → text_eq s s ≡ true
text_eq_refl [] = refl
text_eq_refl (c ∷ s) = ground (arith, text_eq_refl s)
