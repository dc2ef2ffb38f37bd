-- ===== src/Config/Line.antt =====
-- One line of a configuration file: what `config_save` writes is what `sscanf` and `atoi` read.
use moonlight_embedded_for_d.Base.{
  ℕ, zero, suc, ◌+◌, ◌/◌, ◌%◌, ◌≤◌, ◌==◌, leb, ℤ, pos, negsuc, ◌≡◌, refl, sym, ap, ◌∙◌, Bool, true,
  false, not, ◌&&◌, [], ◌∷◌, ◌++◌, some, Text, chars, atoi, is_digit, is_space, digits_value,
  signed_value, show_fuel, show_nat, show_int, arith, by_test, ==_iff, false_ne_true,
}
use moonlight_embedded_for_d.Config.Options.{all_digits}
use moonlight_embedded_for_d.Config.Files.{
  skip_spaces, read_word, read_line, read_value, scan_setting, scan_rest, with_key, setting,
}

unfoldable pub no_spaces : Text → Bool
no_spaces [] = true
no_spaces (c ∷ s) = not (is_space c) && no_spaces s

unfoldable pub one_line : Text → Bool
one_line [] = true
one_line (c ∷ s) = not (c == 10) && one_line s

-- A key that the scan takes whole.
unfoldable pub is_key : Text → Bool
unfolding no_spaces
is_key [] = false
is_key (c ∷ s) = no_spaces (c ∷ s)

-- A value that the scan takes whole: not empty, on one line, with no space in front.
unfoldable pub is_value : Text → Bool
unfolding one_line
is_value [] = false
is_value (c ∷ s) = not (is_space c) && one_line (c ∷ s)

read_word-key : (key s : Text) → no_spaces key ≡ true → read_word (key ++ (32 ∷ s)) ≡ (key, 32 ∷ s)
unfolding read_word no_spaces is_space
read_word-key [] s h = refl
read_word-key (c ∷ key) s h =
    let c_word : is_space c ≡ false = ground arith in
    rw (read_word-key key s (ground arith), c_word) refl

read_line-value : (value : Text) → one_line value ≡ true → read_line (value ++ (10 ∷ [])) ≡ value
unfolding read_line one_line
read_line-value [] h = refl
read_line-value (c ∷ value) h =
    let c_inside : (c == 10) ≡ false = ground arith in
    rw (read_line-value value (ground arith), c_inside) refl

read_value-value :
    (value : Text)
    → is_value value ≡ true
    → read_value (chars "= " ++ (value ++ (10 ∷ []))) ≡ some value
unfolding read_value is_value skip_spaces is_space
read_value-value [] h = absurd (false_ne_true h)
read_value-value (c ∷ value) h =
    let c_word : is_space c ≡ false = ground arith in
    rw (c_word, read_line-value (c ∷ value) (ground arith)) refl

scan_setting-parts :
    (line rest value key : Text) (c : ℕ)
    → read_word (skip_spaces line) ≡ (c ∷ key, rest)
    → read_value (skip_spaces rest) ≡ some value
    → scan_setting line ≡ some (c ∷ key, value)
unfolding scan_setting scan_rest with_key
scan_setting-parts line rest value key c e f = ap scan_rest e ∙ ap (with_key (c ∷ key)) f

skip_spaces-word : (c : ℕ) (s : Text) → is_space c ≡ false → skip_spaces (c ∷ s) ≡ c ∷ s
unfolding skip_spaces
skip_spaces-word c s h = rw h refl

skip_front : (s : Text) → skip_spaces (chars " = " ++ s) ≡ chars "= " ++ s
unfolding skip_spaces is_space
skip_front s = refl

pub scan_setting-setting :
    (key value : Text)
    → is_key key ≡ true
    → is_value value ≡ true
    → scan_setting (setting key value) ≡ some (key, value)
unfolding is_key no_spaces
scan_setting-setting [] value hk hv = absurd (false_ne_true hk)
scan_setting-setting (c ∷ key) value hk hv =
    scan_setting-parts _ (chars " = " ++ (value ++ (10 ∷ []))) value key c
      (ap read_word (skip_spaces-word c _ (ground arith))
        ∙ read_word-key (c ∷ key) (chars "= " ++ (value ++ (10 ∷ []))) hk)
      (skip_equals ∙ read_value-value value hv)
  where
    skip_equals :
        read_value (skip_spaces (chars " = " ++ (value ++ (10 ∷ []))))
        ≡ read_value (chars "= " ++ (value ++ (10 ∷ [])))
    skip_equals = ap read_value (skip_front _)

-- Digits written before `acc` are read back.
digits-show_fuel :
    (f n : ℕ) (acc : Text) → n ≤ f → digits_value 0 (show_fuel f n acc) ≡ digits_value n acc
unfolding show_fuel digits_value is_digit
digits-show_fuel zero n acc h = ap (λ m. digits_value m acc) (omega arith)
digits-show_fuel (suc f) n acc h =
    by_test (λ s. digits_value 0 s ≡ digits_value n acc) (n == 0)
      (λ z. ap (λ m. digits_value m acc) (sym ((==_iff n 0).0 z)))
      (λ z.
        digits-show_fuel f (n / 10) ((48 + n % 10) ∷ acc) (smaller z)
        ∙ rw digit (ap (λ m. digits_value m acc) (omega arith)))
  where
    smaller : (n == 0) ≡ false → n / 10 ≤ f
    smaller z = ground arith

    digit : (leb 48 (48 + n % 10) && leb (48 + n % 10) 57) ≡ true
    digit = ground arith

pub digits-show_nat : (n : ℕ) → digits_value 0 (show_nat n) ≡ n
unfolding show_nat digits_value is_digit
digits-show_nat n =
    by_test (λ s. digits_value 0 s ≡ n) (n == 0) (λ z. sym ((==_iff n 0).0 z))
      (λ z. digits-show_fuel (n + 1) n [] (omega arith))

-- Text that begins with a digit and has nothing else.
abbrev pub is_numeral : Text → Bool
is_numeral [] = false
is_numeral (c ∷ s) = all_digits (c ∷ s)

show_fuel-is_numeral :
    (f n d : ℕ) (acc : Text)
    → is_numeral (d ∷ acc) ≡ true
    → is_numeral (show_fuel f n (d ∷ acc)) ≡ true
unfolding show_fuel all_digits is_digit
show_fuel-is_numeral zero n d acc h = h
show_fuel-is_numeral (suc f) n d acc h =
    by_test (λ s. is_numeral s ≡ true) (n == 0) (λ z. h)
      (λ z. show_fuel-is_numeral f (n / 10) (48 + n % 10) (d ∷ acc) (ground arith))

pub show_nat-is_numeral : (n : ℕ) → is_numeral (show_nat n) ≡ true
unfolding show_nat show_fuel all_digits is_digit
show_nat-is_numeral n =
    by_test (λ s. is_numeral s ≡ true) (n == 0) (λ z. refl)
      (λ z. ap (λ f. is_numeral (show_fuel f n [])) {y = suc n} (omega arith) ∙ first_digit z)
  where
    first_digit : (n == 0) ≡ false → is_numeral (show_fuel (suc n) n []) ≡ true
    first_digit z = rw z (show_fuel-is_numeral n (n / 10) (48 + n % 10) [] (ground arith))

atoi-is_numeral : (s : Text) → is_numeral s ≡ true → atoi s ≡ pos (digits_value 0 s)
unfolding atoi signed_value all_digits is_digit is_space
atoi-is_numeral [] h = absurd (false_ne_true h)
atoi-is_numeral (c ∷ s) h = ground arith

pub atoi-show_int : (n : ℤ) → atoi (show_int n) ≡ n
unfolding show_int atoi signed_value is_space
atoi-show_int (pos n) =
    atoi-is_numeral (show_nat n) (show_nat-is_numeral n) ∙ ap pos (digits-show_nat n)
atoi-show_int (negsuc n) = rw (digits-show_nat (suc n)) (ground arith)

one_line-all_digits : (s : Text) → all_digits s ≡ true → one_line s ≡ true
unfolding all_digits one_line is_digit
one_line-all_digits [] h = refl
one_line-all_digits (c ∷ s) h = let rest = one_line-all_digits s (ground arith) in ground arith

is_numeral-is_value : (s : Text) → is_numeral s ≡ true → is_value s ≡ true
unfolding is_value one_line is_space all_digits is_digit
is_numeral-is_value [] h = absurd (false_ne_true h)
is_numeral-is_value (c ∷ s) h = let rest = one_line-all_digits s (ground arith) in ground arith

all_digits-is_numeral : (s : Text) → is_numeral s ≡ true → all_digits s ≡ true
all_digits-is_numeral [] h = absurd (false_ne_true h)
all_digits-is_numeral (c ∷ s) h = h

pub show_int-is_value : (n : ℤ) → is_value (show_int n) ≡ true
unfolding show_int is_value one_line is_space
show_int-is_value (pos n) = is_numeral-is_value (show_nat n) (show_nat-is_numeral n)
show_int-is_value (negsuc n) =
    one_line-all_digits (show_nat (suc n)) (all_digits-is_numeral _ (show_nat-is_numeral (suc n)))
