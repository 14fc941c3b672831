-- ===== src/Prelude/Text.antt =====
-- `str.strip` and `str.lower` on ASCII text: other characters are kept as they are.
use Prim.Native.Char.{Char, code}
use Prim.Native.String.{String, [], ◌∷◌}
use ai_dm.Prelude.{◌≡◌, refl, ℕ, ◌-◌, Bool, ◌&&◌, ◌||◌, ◌==◌, leb, if◌then◌else◌, zero, suc}

letters : String
letters = "abcdefghijklmnopqrstuvwxyz"

letter : String → ℕ → Char → Char
letter [] i c = c
letter (a ∷ s) zero c = a
letter (a ∷ s) (suc i) c = letter s i c

-- `c.lower()`
unfoldable pub lower_char : Char → Char
unfolding letters letter
lower_char c = if leb 65 (code c) && leb (code c) 90 then letter letters (code c - 65) c else c

unfoldable pub lower : String → String
unfolding lower_char
lower [] = []
lower (c ∷ s) = lower_char c ∷ lower s

-- Space, and the control characters from tab to carriage return and from 28 to 31.
is_space : Char → Bool
is_space c =
    code c == 32 || ((leb 9 (code c) && leb (code c) 13) || (leb 28 (code c) && leb (code c) 31))

strip_left : String → String
unfolding is_space
strip_left [] = []
strip_left (c ∷ s) = let rest = strip_left s in if is_space c then rest else c ∷ s

strip_right : String → String
unfolding is_space
strip_right [] = []
strip_right (c ∷ s) = drop_space c (strip_right s)
  where
    drop_space : Char → String → String
    drop_space c [] = if is_space c then [] else c ∷ []
    drop_space c (d ∷ r) = c ∷ d ∷ r

unfoldable pub strip : String → String
unfolding strip_left strip_right
strip s = strip_right (strip_left s)

-- `s.strip().lower()`
unfoldable pub normalise : String → String
unfolding lower strip
normalise s = lower (strip s)

normalise_runs : normalise "  Prone " ≡ "prone"
unfolding normalise
normalise_runs = refl
