-- ===== src/Base/Text.antt =====
-- The tests that the services make on strings: `!s.trim()` and `/^[A-Z]{3}$/`.
use Prim.Native.Nat.{ℕ, zero, suc, ◌/◌, ◌%◌}
use Prim.Native.Char.{code}
use Prim.Native.String.{String, ◌++◌ as ◌+text◌}
use Prim.Native.String.append
use mathlib.Core.Path.{◌≡◌, ap, ◌∙◌}
use mathlib.Core.Bool.{Bool, true, false, ◌&&◌, ◌||◌}
use mathlib.Core.List.{List, [], ◌∷◌, ◌++◌}
use amazingchance.Base.Tests.{leb, ◌==◌, if◌then◌else◌}
use amazingchance.Base.Lists.{get_or}

-- The code points of a text.
abbrev pub codes : String → List ℕ
codes String.[] = []
codes (String.◌∷◌ c s) = code c ∷ codes s

abbrev pub all_codes : (ℕ → Bool) → List ℕ → Bool
all_codes p [] = true
all_codes p (c ∷ s) = p c && all_codes p s

-- The characters that `String.prototype.trim` takes off.
unfoldable pub is_space : ℕ → Bool
is_space c =
    (leb 9 c && leb c 13)
    || c == 32
    || c == 0xa0
    || c == 0x1680
    || (leb 0x2000 c && leb c 0x200a)
    || c == 0x2028
    || c == 0x2029
    || c == 0x202f
    || c == 0x205f
    || c == 0x3000
    || c == 0xfeff

-- `!s.trim()`
unfoldable pub is_blank : String → Bool
unfolding is_space
is_blank s = all_codes is_space (codes s)

unfoldable pub is_upper : ℕ → Bool
is_upper c = leb b'A' c && leb c b'Z'

three_upper : List ℕ → Bool
unfolding is_upper
three_upper (a ∷ b ∷ c ∷ []) = is_upper a && is_upper b && is_upper c
three_upper s = false

-- `/^[A-Z]{3}$/.test(s)`
unfoldable pub is_currency_code : String → Bool
unfolding three_upper
is_currency_code s = three_upper (codes s)

digit : ℕ → String
digit n = get_or ("0" ∷ "1" ∷ "2" ∷ "3" ∷ "4" ∷ "5" ∷ "6" ∷ "7" ∷ "8" ∷ "9" ∷ []) n ""

-- The decimal digits of a number, with fuel above it.
decimal_text : ℕ → ℕ → String
unfolding digit
decimal_text zero n = ""
decimal_text (suc fuel) n =
    let front = decimal_text fuel (n / 10) in
    if n / 10 == 0 then digit n else front +text digit (n % 10)

-- `String(n)`
unfoldable pub number_text : ℕ → String
unfolding decimal_text
number_text n = decimal_text (suc n) n

-- A template that puts a text behind a prefix.
unfoldable pub prefixed : String → String → String
prefixed prefix s = prefix +text s

codes-append : (s t : String) → codes (s +text t) ≡ codes s ++ codes t
codes-append String.[] t = ap codes (append.nil t)
codes-append (String.◌∷◌ c s) t =
    ap codes (append.cons c s t) ∙ ap (◌∷◌ (code c)) (codes-append s t)

pub codes-prefixed : (s t : String) → codes (prefixed s t) ≡ codes s ++ codes t
unfolding prefixed
codes-prefixed s t = codes-append s t
