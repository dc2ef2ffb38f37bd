-- ===== src/Base/CString.antt =====
-- C strings as lists of bytes, without the terminating zero, and the functions of the C library
-- that the program calls on them.
use Prim.Native.Nat.{ℕ, zero, suc, ◌+◌, ◌-◌, ◌*◌, ◌/◌, ◌%◌, ◌^◌}
use Prim.Native.Char.{code}
use Prim.Native.String.{String}
use mathlib.Core.Path.{◌≡◌, refl}
use mathlib.Core.Bool.{Bool, true, false, ◌&&◌, ◌||◌}
use mathlib.Core.List.{List, [], ◌∷◌, map}
use native.Mathlib.Omega.{arith}
use moonlight_embedded_for_d.Base.Tests.{leb, ◌==◌, if◌then◌else◌}
use moonlight_embedded_for_d.Base.Int.{ℤ, pos, negsuc, neg}
use moonlight_embedded_for_d.Base.Lists.{take}

abbrev pub Text : Type 0
Text = List ℕ

abbrev pub chars : String → Text
chars String.[] = []
chars (String.◌∷◌ c s) = code c ∷ chars s

-- `strcmp(a, b) == 0`
unfoldable pub str_eq : Text → Text → Bool
str_eq [] [] = true
str_eq [] (b ∷ bs) = false
str_eq (a ∷ as') [] = false
str_eq (a ∷ as') (b ∷ bs) = a == b && str_eq as' bs

pub str_eq_refl : (a : Text) → str_eq a a ≡ true
unfolding str_eq
str_eq_refl [] = refl
str_eq_refl (a ∷ as') = ground (arith, str_eq_refl as')

pub eq_of_str_eq : (a b : Text) → str_eq a b ≡ true → a ≡ b
unfolding str_eq
eq_of_str_eq [] [] h = refl
eq_of_str_eq [] (b ∷ bs) h = cc
eq_of_str_eq (a ∷ as') [] h = cc
eq_of_str_eq (a ∷ as') (b ∷ bs) h = ground (arith, eq_of_str_eq as' bs)

unfoldable pub is_prefix : Text → Text → Bool
is_prefix [] s = true
is_prefix (p ∷ ps) [] = false
is_prefix (p ∷ ps) (c ∷ s) = p == c && is_prefix ps s

-- `strstr(s, p) != NULL`
unfoldable pub contains : Text → Text → Bool
unfolding is_prefix
contains [] p = is_prefix p []
contains (c ∷ s) p = is_prefix p (c ∷ s) || contains s p

unfoldable pub is_digit : ℕ → Bool
is_digit c = leb b'0' c && leb c b'9'

-- `isspace` in the C locale: space and the five control characters from tab on.
unfoldable pub is_space : ℕ → Bool
is_space c = c == 32 || (leb 9 c && leb c 13)

-- The value of the digits that `s` begins with.
unfoldable pub digits_value : ℕ → Text → ℕ
unfolding is_digit
digits_value acc [] = acc
digits_value acc (c ∷ s) =
    let rest = digits_value (acc * 10 + (c - b'0')) s in if is_digit c then rest else acc

unfoldable pub signed_value : Text → ℤ
unfolding digits_value
signed_value [] = pos 0
signed_value (c ∷ s) =
    if c == b'-'
    then neg (pos (digits_value 0 s))
    else if c == b'+'
    then pos (digits_value 0 s)
    else pos (digits_value 0 (c ∷ s))

-- `atoi`, on a number that fits an `int`.
unfoldable pub atoi : Text → ℤ
unfolding signed_value is_space
atoi [] = pos 0
atoi (c ∷ s) = let rest = atoi s in if is_space c then rest else signed_value (c ∷ s)

unfoldable pub to_lower : ℕ → ℕ
to_lower c = if leb b'A' c && leb c b'Z' then c + 32 else c

-- `strcasecmp(a, b) == 0`
unfoldable pub str_case_eq : Text → Text → Bool
unfolding to_lower str_eq
str_case_eq a b = str_eq (map to_lower a) (map to_lower b)

-- The decimal digits of `n` before `acc`, with fuel for the digits.
unfoldable pub show_fuel : ℕ → ℕ → Text → Text
show_fuel zero n acc = acc
show_fuel (suc f) n acc =
    let rest = show_fuel f (n / 10) ((b'0' + n % 10) ∷ acc) in if n == 0 then acc else rest

-- `%d` for a number that is not negative.
unfoldable pub show_nat : ℕ → Text
unfolding show_fuel
show_nat n = if n == 0 then b'0' ∷ [] else show_fuel (n + 1) n []

-- `%d`
unfoldable pub show_int : ℤ → Text
unfolding show_nat
show_int (pos n) = show_nat n
show_int (negsuc n) = b'-' ∷ show_nat (suc n)

-- `snprintf` into a buffer of `n` bytes keeps `n - 1` of them.
unfoldable pub snprintf : ℕ → Text → Text
snprintf n s = take (n - 1) s

-- The string that starts a buffer: its bytes up to the first zero.
unfoldable pub c_string : Text → Text
c_string [] = []
c_string (c ∷ s) = if c == 0 then [] else c ∷ c_string s

-- The conversion to `unsigned short`.
unfoldable pub to_u16 : ℤ → ℕ
to_u16 (pos n) = n % 2 ^ 16
to_u16 (negsuc n) = 2 ^ 16 - 1 - n % 2 ^ 16
