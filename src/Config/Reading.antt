-- ===== src/Config/Reading.antt =====
-- `config_file_parse` of src/config.c on a few lines that `config_save` wrote.
use moonlight_embedded_for_d.Base.{
  ℤ, ◌==ℤ◌, ◌≡◌, refl, sym, ap, ◌∙◌, Bool, true, false, not, List, [], ◌∷◌, ◌++◌, some, Text, chars,
  atoi, show_int, is_space, arith, by_test,
}
use moonlight_embedded_for_d.Config.{Config, System, Parsed, parsed, cannot_open, quits, too_deep}
use moonlight_embedded_for_d.Config.Files.{
  and_then, scan_setting, parse_setting, parse_lines, setting, write_int, write_bool,
}
use moonlight_embedded_for_d.Config.Line.{
  is_key, is_value, one_line, scan_setting-setting, atoi-show_int, show_int-is_value,
}

eq_of_==ℤ : (a b : ℤ) → (a ==ℤ b) ≡ true → a ≡ b
eq_of_==ℤ a b h = ground arith

pub not-false : (b : Bool) → not b ≡ false → b ≡ true
not-false true h = refl
not-false false h = sym h

and_then_assoc :
    (o : Parsed) (f g : Config → Parsed)
    → and_then (and_then o f) g ≡ and_then o (λ b. and_then (f b) g)
and_then_assoc (parsed b) f g = refl
and_then_assoc cannot_open f g = refl
and_then_assoc quits f g = refl
and_then_assoc too_deep f g = refl

and_then-congr :
    (o : Parsed) {f g : Config → Parsed} → ((b : Config) → f b ≡ g b) → and_then o f ≡ and_then o g
and_then-congr (parsed b) h = h b
and_then-congr cannot_open h = refl
and_then-congr quits h = refl
and_then-congr too_deep h = refl

and_then-parsed : (o : Parsed) → and_then o parsed ≡ o
and_then-parsed (parsed b) = refl
and_then-parsed cannot_open = refl
and_then-parsed quits = refl
and_then-parsed too_deep = refl

module _ (sys : System) (fp : Text → Config → Parsed) where
  -- A file read in two parts, where the first part is read to its end.
  parse_lines-append :
      (xs ys : List Text) (b : Config)
      → parse_lines sys fp (xs ++ ys) b ≡ and_then (parse_lines sys fp xs b) (parse_lines sys fp ys)
  unfolding parse_lines
  parse_lines-append [] ys b = refl
  parse_lines-append (x ∷ xs) ys b =
      and_then-congr (parse_setting sys fp (scan_setting x) b) (parse_lines-append xs ys)
      ∙ sym (and_then_assoc (parse_setting sys fp (scan_setting x) b) _ _)

  pub parse_lines-step :
      (xs ys : List Text) (b b' : Config)
      → parse_lines sys fp xs b ≡ parsed b'
      → parse_lines sys fp (xs ++ ys) b ≡ parse_lines sys fp ys b'
  parse_lines-step xs ys b b' e =
      parse_lines-append xs ys b ∙ ap (λ o. and_then o (parse_lines sys fp ys)) e

  -- A line that was written, read back.
  pub one_setting :
      (key value : Text) (b : Config)
      → is_key key ≡ true
      → is_value value ≡ true
      → parse_lines sys fp (setting key value ∷ []) b ≡ parse_setting sys fp (some (key, value)) b
  unfolding parse_lines
  one_setting key value b hk hv =
      ap (λ o. and_then (parse_setting sys fp o b) parsed) (scan_setting-setting key value hk hv)
      ∙ and_then-parsed (parse_setting sys fp (some (key, value)) b)

  pub int_line :
      (key : Text) (n d : ℤ) (put : ℤ → Config) (b : Config)
      → is_key key ≡ true
      → ((v : Text) → parse_setting sys fp (some (key, v)) b ≡ parsed (put (atoi v)))
      → (n ≡ d → b ≡ put n)
      → parse_lines sys fp (write_int key n d) b ≡ parsed (put n)
  unfolding parse_lines
  int_line key n d put b hk reads stays =
      by_test (λ lines. parse_lines sys fp lines b ≡ parsed (put n)) (not (n ==ℤ d))
        (λ e.
          one_setting key (show_int n) b hk (show_int-is_value n)
          ∙ reads (show_int n)
          ∙ ap (λ m. parsed (put m)) (atoi-show_int n))
        (λ e. ap parsed (stays (eq_of_==ℤ n d (not-false _ e))))

  pub bool_line :
      (key : Text) (v d : Bool) (put : Bool → Config) (b : Config)
      → is_key key ≡ true
      → parse_setting sys fp (some (key, chars "true")) b ≡ parsed (put true)
      → parse_setting sys fp (some (key, chars "false")) b ≡ parsed (put false)
      → (v ≡ d → b ≡ put v)
      → parse_lines sys fp (write_bool key v d) b ≡ parsed (put v)
  unfolding parse_lines is_value one_line is_space
  bool_line key true true put b hk e f stays = ap parsed (stays refl)
  bool_line key true false put b hk e f stays = one_setting key (chars "true") b hk refl ∙ e
  bool_line key false true put b hk e f stays = one_setting key (chars "false") b hk refl ∙ f
  bool_line key false false put b hk e f stays = ap parsed (stays refl)
