-- ===== src/Prelude/Text.antt =====
-- Texts that the program walks: their code points, and the pattern of a SHA-256 digest.
use Prim.Native.Char.{code}
use Prim.Native.Nat.{ℕ}
use Prim.Native.Nat.{Ordering}
use Prim.Native.String.{String, compare as compare_texts}
use mathlib.Core.Bool.{Bool, true, false, ◌&&◌, ◌||◌}
use mathlib.Core.List.{List, [], ◌∷◌}
use fin_serve.Prelude.Tests.{leb, nat_beq}
use fin_serve.Prelude.Lists.{length, all}

abbrev pub codes : String → List ℕ
codes String.[] = []
codes (String.◌∷◌ c s) = code c ∷ codes s

-- one of 0-9 and a-f
abbrev pub is_hex : ℕ → Bool
is_hex c = (leb b'0' c && leb c b'9') || (leb b'a' c && leb c b'f')

-- `^[0-9a-f]{64}$`
unfoldable pub is_sha256 : String → Bool
is_sha256 s = nat_beq (length (codes s)) 64 && all is_hex (codes s)

-- `s < t` on texts
abbrev pub text_lt : String → String → Bool
text_lt s t = elim (compare_texts s t) [ Ordering.lt ↦ true | _ ↦ false ]

-- one of A-Z, a-z, 0-9 and the four marks
abbrev pub is_identifier_code : ℕ → Bool
is_identifier_code c =
    (leb b'A' c && leb c b'Z')
    || (leb b'a' c && leb c b'z')
    || (leb b'0' c && leb c b'9')
    || nat_beq c b'_'
    || nat_beq c b'.'
    || nat_beq c b':'
    || nat_beq c b'-'

-- `^[A-Za-z0-9_.:-]+$`, of 1 to 128 characters
unfoldable pub is_identifier : String → Bool
is_identifier s =
    leb 1 (length (codes s)) && leb (length (codes s)) 128 && all is_identifier_code (codes s)

abbrev pub is_letter : ℕ → Bool
is_letter c = (leb b'A' c && leb c b'Z') || (leb b'a' c && leb c b'z')

-- `[A-Za-z0-9_-]`
abbrev pub is_name_code : ℕ → Bool
is_name_code c = is_letter c || (leb b'0' c && leb c b'9') || nat_beq c b'_' || nat_beq c b'-'
