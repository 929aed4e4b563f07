-- ===== src/Base/Text.antt =====
-- `str.strip`, `str.lower` and Python's truth of a text. Letters outside ASCII have no case here.
use Prim.Native.Nat.{ℕ}
use Prim.Native.Char.{Char, code}
use Prim.Native.String.{String}
use mathlib.Core.Bool.{Bool, true, false, ◌||◌, ◌&&◌}
use mathlib.Core.List.{[], ◌∷◌}
use sams_backend.Base.Tests.{nat_eq, string_eq, ◌==◌, ltb, if◌then◌else◌}
use sams_backend.Base.Lists.{contains}

-- The code points that `str.isspace` accepts.
abbrev is_space_code : ℕ → Bool
is_space_code c =
    contains c (32 ∷ 133 ∷ 160 ∷ 0x1680 ∷ 0x2028 ∷ 0x2029 ∷ 0x202f ∷ 0x205f ∷ 0x3000 ∷ [])
    || ltb 8 c && ltb c 14
    || ltb 27 c && ltb c 32
    || ltb 0x1fff c && ltb c 0x200b

is_space : Char → Bool
is_space c = is_space_code (code c)

lstrip : String → String
lstrip String.[] = String.[]
lstrip (String.◌∷◌ c s) = let rest = lstrip s in if is_space c then rest else String.◌∷◌ c s

rstrip : String → String
rstrip String.[] = String.[]
rstrip (String.◌∷◌ c s) =
    let rest = rstrip s in
    elim rest [
      | String.[] ↦ if is_space c then String.[] else String.◌∷◌ c String.[]
      | String.◌∷◌ d r ↦ String.◌∷◌ c (String.◌∷◌ d r)
    ]

unfoldable pub strip : String → String
unfolding lstrip rstrip is_space
strip s = rstrip (lstrip s)

-- Python's truth of a text.
abbrev pub is_text : String → Bool
is_text String.[] = false
is_text (String.◌∷◌ c s) = true

-- The letter of `to` in the place where `from` has the character.
swap_letter : String → String → Char → Char
swap_letter (String.◌∷◌ x from) (String.◌∷◌ y to) c =
    let rest = swap_letter from to c in if code x == code c then y else rest
swap_letter _ _ c = c

lower_letter : Char → Char
unfolding swap_letter
lower_letter = swap_letter "ABCDEFGHIJKLMNOPQRSTUVWXYZ" "abcdefghijklmnopqrstuvwxyz"

unfoldable pub lower : String → String
unfolding lower_letter
lower String.[] = String.[]
lower (String.◌∷◌ c s) = String.◌∷◌ (lower_letter c) (lower s)

-- `email.strip().lower()`
unfoldable pub normal_email : String → String
unfolding strip lower
normal_email email = lower (strip email)

-- Equality of `CITEXT`, and `UPPER(x) = UPPER(y)`.
unfoldable pub same_text : String → String → Bool
unfolding lower
same_text x y = lower x == lower y

-- `text.startswith(prefix)`, and `LIKE 'prefix%'`.
unfoldable pub starts_with : String → String → Bool
starts_with String.[] s = true
starts_with (String.◌∷◌ c p) String.[] = false
starts_with (String.◌∷◌ c p) (String.◌∷◌ d s) =
    let rest = starts_with p s in if code c == code d then rest else false
