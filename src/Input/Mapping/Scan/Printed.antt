-- ===== src/Input/Mapping/Scan/Printed.antt =====
-- What src/input/mapping.c prints, taken apart again.
use moonlight_embedded_for_d.Base.{
  ℕ, suc, ◌+◌, ◌-◌, ◌*◌, ◌==◌, ℤ, pos, negsuc, ◌≡◌, refl, sym, ap, ◌∙◌, Bool, true, false, not,
  ◌&&◌, some, List, [], ◌∷◌, ◌++◌, Text, is_digit, is_space, signed_value, digits_value, show_int,
  show_nat, arith, false_ne_true,
}
use moonlight_embedded_for_d.Config.Options.{all_digits}
use moonlight_embedded_for_d.Config.Files.{skip_spaces, read_word}
use moonlight_embedded_for_d.Config.Line.{
  is_numeral, digits-show_nat, show_nat-is_numeral, no_spaces,
}
use moonlight_embedded_for_d.Input.Mapping.Scan.{
  add_token, split_commas, tokens, read_key, word_after, scan_pair, scan_option, skip_digits,
  has_digit, is_sign, scan_int,
}

-- A character does not occur.
unfoldable pub lacks : ℕ → Text → Bool
lacks c [] = true
lacks c (d ∷ s) = not (d == c) && lacks c s

pub lacks-append :
    (c : ℕ) (s t : Text) → lacks c s ≡ true → lacks c t ≡ true → lacks c (s ++ t) ≡ true
unfolding lacks
lacks-append c [] t h k = k
lacks-append c (d ∷ s) t h k = ground (arith, lacks-append c s t)

pub no_spaces-append :
    (s t : Text) → no_spaces s ≡ true → no_spaces t ≡ true → no_spaces (s ++ t) ≡ true
unfolding no_spaces
no_spaces-append [] t h k = k
no_spaces-append (d ∷ s) t h k = ground (arith, no_spaces-append s t)

split_commas-token :
    (s rest : Text) → lacks b',' s ≡ true → split_commas (s ++ (b',' ∷ rest)) ≡ (s, tokens rest)
unfolding split_commas tokens lacks
split_commas-token [] rest h = refl
split_commas-token (c ∷ s) rest h =
    let inside : (c == b',') ≡ false = ground arith in
    rw (split_commas-token s rest (ground arith), inside) refl

-- The first token of a text.
pub tokens-token :
    (c : ℕ) (s rest : Text)
    → lacks b',' (c ∷ s) ≡ true
    → tokens ((c ∷ s) ++ (b',' ∷ rest)) ≡ (c ∷ s) ∷ tokens rest
unfolding tokens add_token
tokens-token c s rest h =
    ap (λ (p : Text × List Text). add_token p.0 p.1) (split_commas-token (c ∷ s) rest h)

read_key-key :
    (key v : Text) → lacks b':' key ≡ true → read_key (key ++ (b':' ∷ v)) ≡ (key, b':' ∷ v)
unfolding read_key lacks
read_key-key [] v h = refl
read_key-key (c ∷ key) v h =
    let inside : (c == b':') ≡ false = ground arith in
    rw (read_key-key key v (ground arith), inside) refl

read_word-word : (s : Text) → no_spaces s ≡ true → read_word s ≡ (s, [])
unfolding read_word no_spaces is_space
read_word-word [] h = refl
read_word-word (c ∷ s) h =
    let inside : is_space c ≡ false = ground arith in
    rw (read_word-word s (ground arith), inside) refl

skip_spaces-word : (c : ℕ) (s : Text) → no_spaces (c ∷ s) ≡ true → skip_spaces (c ∷ s) ≡ c ∷ s
unfolding skip_spaces no_spaces
skip_spaces-word c s e = ground (arith, e)

pub scan_option-option :
    (k : ℕ) (key : Text) (d : ℕ) (value : Text)
    → lacks b':' (k ∷ key) ≡ true
    → no_spaces (d ∷ value) ≡ true
    → scan_option ((k ∷ key) ++ (b':' ∷ (d ∷ value))) ≡ some (k ∷ key, d ∷ value)
unfolding scan_option scan_pair word_after
scan_option-option k key d value h w =
    ap scan_pair (read_key-key (k ∷ key) (d ∷ value) h)
    ∙ ap (λ s. word_after (k ∷ key) (read_word s).0) (skip_spaces-word d value w)
    ∙ ap (λ (p : Text × Text). word_after (k ∷ key) p.0) (read_word-word (d ∷ value) w)

digits_value-append :
    (acc : ℕ) (s t : Text)
    → all_digits s ≡ true
    → has_digit t ≡ false
    → digits_value acc (s ++ t) ≡ digits_value acc s
unfolding digits_value all_digits has_digit
digits_value-append acc [] [] h k = refl
digits_value-append acc [] (c ∷ t) h k = rw k refl
digits_value-append acc (c ∷ s) t h k =
    ground (arith, digits_value-append (acc * 10 + (c - b'0')) s t)

skip_digits-append :
    (s t : Text) → all_digits s ≡ true → has_digit t ≡ false → skip_digits (s ++ t) ≡ t
unfolding skip_digits all_digits has_digit
skip_digits-append [] [] h k = refl
skip_digits-append [] (c ∷ t) h k = rw k refl
skip_digits-append (c ∷ s) t h k = ground (arith, skip_digits-append s t)

scan_int-numeral :
    (s t : Text) (n : ℕ)
    → is_numeral s ≡ true
    → has_digit t ≡ false
    → digits_value 0 s ≡ n
    → scan_int (s ++ t) ≡ some (pos n, t)
unfolding scan_int signed_value is_sign is_digit all_digits
scan_int-numeral [] t n h k e = absurd (false_ne_true h)
scan_int-numeral (c ∷ s) t n h k e =
    ground (arith, digits_value-append 0 (c ∷ s) t h k, skip_digits-append (c ∷ s) t h k, e)

scan_int-minus :
    (s t : Text) (n : ℕ)
    → is_numeral s ≡ true
    → has_digit t ≡ false
    → digits_value 0 s ≡ suc n
    → scan_int (b'-' ∷ (s ++ t)) ≡ some (negsuc n, t)
unfolding scan_int signed_value is_sign is_digit all_digits has_digit
scan_int-minus [] t n h k e = absurd (false_ne_true h)
scan_int-minus (c ∷ s) t n h k e =
    ground (arith, digits_value-append 0 (c ∷ s) t h k, skip_digits-append (c ∷ s) t h k, e)

pub scan_int-show_int :
    (n : ℤ) (t : Text) → has_digit t ≡ false → scan_int (show_int n ++ t) ≡ some (n, t)
unfolding show_int
scan_int-show_int (pos n) t k =
    scan_int-numeral (show_nat n) t n (show_nat-is_numeral n) k (digits-show_nat n)
scan_int-show_int (negsuc n) t k =
    scan_int-minus (show_nat (suc n)) t n (show_nat-is_numeral (suc n)) k (digits-show_nat (suc n))

append_nil : (s : Text) → s ++ [] ≡ s
append_nil [] = refl
append_nil (c ∷ s) = ap (λ t. c ∷ t) (append_nil s)

pub scan_int-end : (n : ℤ) → scan_int (show_int n) ≡ some (n, [])
unfolding has_digit
scan_int-end n = sym (ap scan_int (append_nil (show_int n))) ∙ scan_int-show_int n [] refl

all_digits-no_spaces : (s : Text) → all_digits s ≡ true → no_spaces s ≡ true
unfolding all_digits no_spaces is_digit is_space
all_digits-no_spaces [] h = refl
all_digits-no_spaces (c ∷ s) h = ground (arith, all_digits-no_spaces s)

all_digits-lacks : (s : Text) → all_digits s ≡ true → lacks b',' s ≡ true
unfolding all_digits lacks is_digit
all_digits-lacks [] h = refl
all_digits-lacks (c ∷ s) h = ground (arith, all_digits-lacks s)

show_nat-all_digits : (n : ℕ) → all_digits (show_nat n) ≡ true
show_nat-all_digits n = numeral (show_nat n) (show_nat-is_numeral n)
  where
    numeral : (s : Text) → is_numeral s ≡ true → all_digits s ≡ true
    numeral [] h = absurd (false_ne_true h)
    numeral (c ∷ s) h = h

pub show_int-no_spaces : (n : ℤ) → no_spaces (show_int n) ≡ true
unfolding show_int no_spaces is_space
show_int-no_spaces (pos n) = all_digits-no_spaces (show_nat n) (show_nat-all_digits n)
show_int-no_spaces (negsuc n) =
    all_digits-no_spaces (show_nat (suc n)) (show_nat-all_digits (suc n))

pub show_int-lacks : (n : ℤ) → lacks b',' (show_int n) ≡ true
unfolding show_int lacks
show_int-lacks (pos n) = all_digits-lacks (show_nat n) (show_nat-all_digits n)
show_int-lacks (negsuc n) = all_digits-lacks (show_nat (suc n)) (show_nat-all_digits (suc n))
