-- ===== src/Text/Case.antt =====
-- Lower case is the same taken twice.
use Prim.Native.Char.{Char}
use yuna.Prelude.{◌≡◌, refl, arith, String}
use yuna.Text.{lower_char, to_lower}

pub lower_char_idempotent : (c : Char) → lower_char (lower_char c) ≡ lower_char c
unfolding lower_char
lower_char_idempotent c = ground arith

pub to_lower_idempotent : (s : String) → to_lower (to_lower s) ≡ to_lower s
unfolding to_lower
to_lower_idempotent String.[] = refl
to_lower_idempotent (String.◌∷◌ c s) = cc (lower_char_idempotent c, to_lower_idempotent s)
