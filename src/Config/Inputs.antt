-- ===== src/Config/Inputs.antt =====
-- The array `inputs` of `CONFIGURATION` of src/config.c has MAX_INPUTS places.
use moonlight_embedded_for_d.Base.{
  ℕ, zero, suc, ◌≤◌, ◌==◌, leb, ◌≡◌, refl, sym, ap, ◌∙◌, false, not, List, [], ◌∷◌, Option, none,
  some, Text, chars, str_eq, length, length-append, arith, by_test, Option-cases, inl, inr,
}
use mathlib.Core.Path.{subst}
use moonlight_embedded_for_d.Config.{
  Config, System, Parsed, parsed, cannot_open, quits, too_deep, Encryption, default_config,
}
use moonlight_embedded_for_d.Config.Options.{
  stream_argument, session_argument, add_input, set_mapping, or_quit, add_word, parse_argument,
}
use moonlight_embedded_for_d.Config.Files.{
  LongOption, long_options, and_then, scan_setting, option_setting, parse_setting, parse_lines,
  config_file_parse, parse_arguments, or_keep, read_options, read_conf_file, read_command_line,
}

-- A configuration that is returned has at most MAX_INPUTS inputs.
pub record FitsInputs (o : Parsed) : Type 0 where
  pub bound : (c : Config) → o ≡ parsed c → length c.inputs ≤ 6

-- The configuration that `parsed` holds.
abbrev held : Config → Parsed → Config
held d (parsed c) = c
held d o = d

parsed-FitsInputs : (c : Config) → length c.inputs ≤ 6 → FitsInputs (parsed c)
parsed-FitsInputs c h = record { bound = λ d e. subst (λ k. length k.inputs ≤ 6) (ap (held c) e) h }

bound_of : (c : Config) → FitsInputs (parsed c) → length c.inputs ≤ 6
bound_of c h = h.bound c refl

quits-FitsInputs : FitsInputs quits
quits-FitsInputs = record { bound = λ c e. absurd cc }

cannot_open-FitsInputs : FitsInputs cannot_open
cannot_open-FitsInputs = record { bound = λ c e. absurd cc }

too_deep-FitsInputs : FitsInputs too_deep
too_deep-FitsInputs = record { bound = λ c e. absurd cc }

-- A step that never leaves the bound.
abbrev Keeps : (Config → Parsed) → Type 0
Keeps f = (c : Config) → length c.inputs ≤ 6 → FitsInputs (f c)

and_then-FitsInputs :
    (o : Parsed) (f : Config → Parsed) → FitsInputs o → Keeps f → FitsInputs (and_then o f)
and_then-FitsInputs (parsed c) f h k = k c (bound_of c h)
and_then-FitsInputs cannot_open f h k = h
and_then-FitsInputs quits f h k = h
and_then-FitsInputs too_deep f h k = h

stream-inputs : (c : ℕ) (v : Text) (d : Config) → (stream_argument c v d).inputs ≡ d.inputs
unfolding stream_argument
stream-inputs c v d = ground arith

session-inputs : (c : ℕ) (v : Text) (d : Config) → (session_argument c v d).inputs ≡ d.inputs
unfolding session_argument
session-inputs c v d = ground arith

add_input-FitsInputs : (v : Text) → Keeps (add_input v)
unfolding add_input
add_input-FitsInputs v c h =
    by_test FitsInputs (leb 6 (length c.inputs)) (λ e. quits-FitsInputs)
      (λ e. parsed-FitsInputs _ (omega (arith, length-append c.inputs (v ∷ []), room e)))
  where
    room : leb 6 (length c.inputs) ≡ false → length c.inputs ≤ 5
    room e = ground arith

mapping-FitsInputs : (o : Option Text) → Keeps (set_mapping o)
unfolding set_mapping
mapping-FitsInputs none c h = quits-FitsInputs
mapping-FitsInputs (some path) c h = parsed-FitsInputs _ h

or_quit-FitsInputs : (o : Parsed) → FitsInputs o → FitsInputs (or_quit o)
unfolding or_quit
or_quit-FitsInputs (parsed c) h = h
or_quit-FitsInputs cannot_open h = quits-FitsInputs
or_quit-FitsInputs quits h = h
or_quit-FitsInputs too_deep h = h

word-FitsInputs : (v : Text) (action address : Option Text) → Keeps (add_word v action address)
unfolding add_word
word-FitsInputs v none address c h = parsed-FitsInputs _ h
word-FitsInputs v (some action) none c h = parsed-FitsInputs _ h
word-FitsInputs v (some action) (some address) c h = quits-FitsInputs

module _ (sys : System) where
  module _ (fp : Text → Config → Parsed) (k : (file : Text) → Keeps (fp file)) where
    argument-FitsInputs : (c : ℕ) (v : Text) → Keeps (parse_argument sys fp c v)
    unfolding parse_argument
    argument-FitsInputs c v d h =
        by_test FitsInputs (c == b'j') (λ e. add_input-FitsInputs v d h)
          (λ e.
            by_test FitsInputs (c == b'k') (λ e'. mapping-FitsInputs _ d h)
              (λ e'.
                by_test FitsInputs (c == b'o') (λ o. or_quit-FitsInputs (fp v d) (k v d h))
                  (λ o.
                    by_test FitsInputs (c == 1) (λ w. word-FitsInputs v d.action d.address d h)
                      (λ w. parsed-FitsInputs _ (
                        subst (λ xs. length xs ≤ 6)
                          (sym (session-inputs c v (stream_argument c v d) ∙ stream-inputs c v d))
                          h)))))

    option-FitsInputs :
        (options : List LongOption) (key v : Text) → Keeps (option_setting sys fp options key v)
    unfolding option_setting
    option-FitsInputs [] key v d h = parsed-FitsInputs d h
    option-FitsInputs (option ∷ options) key v d h =
        and_then-FitsInputs _ _
          (by_test FitsInputs (not (str_eq option.name key)) (λ e. parsed-FitsInputs d h)
            (λ e.
              by_test FitsInputs option.required_argument
                (λ r. argument-FitsInputs option.val v d h)
                (λ r.
                  by_test FitsInputs (str_eq (chars "true") v)
                    (λ t. argument-FitsInputs option.val [] d h) (λ t. parsed-FitsInputs d h))))
          (option-FitsInputs options key v)

    setting-FitsInputs : (o : Option (Text × Text)) → Keeps (parse_setting sys fp o)
    unfolding parse_setting
    setting-FitsInputs none d h = parsed-FitsInputs d h
    setting-FitsInputs (some (key, v)) d h =
        by_test FitsInputs (str_eq key (chars "address")) (λ e. parsed-FitsInputs _ h)
          (λ e.
            by_test FitsInputs (str_eq key (chars "sops")) (λ s. parsed-FitsInputs _ h)
              (λ s. option-FitsInputs long_options key v d h))

    lines-FitsInputs : (lines : List Text) → Keeps (parse_lines sys fp lines)
    unfolding parse_lines
    lines-FitsInputs [] d h = parsed-FitsInputs d h
    lines-FitsInputs (line ∷ lines) d h =
        and_then-FitsInputs _ _ (setting-FitsInputs (scan_setting line) d h)
          (lines-FitsInputs lines)

    arguments-FitsInputs : (arguments : List (ℕ × Text)) → Keeps (parse_arguments sys fp arguments)
    unfolding parse_arguments
    arguments-FitsInputs [] d h = parsed-FitsInputs d h
    arguments-FitsInputs ((c, v) ∷ rest) d h =
        and_then-FitsInputs _ _ (argument-FitsInputs c v d h) (arguments-FitsInputs rest)

  file-FitsInputs : (fuel : ℕ) (file : Text) → Keeps (config_file_parse sys fuel file)
  unfolding config_file_parse
  file-FitsInputs zero file d h = too_deep-FitsInputs
  file-FitsInputs (suc fuel) file d h = elim (Option-cases (sys.lines file)) [
    | inl e ↦ rw (e, config_file_parse) cannot_open-FitsInputs
    | inr (lines, e) ↦
        rw (e, config_file_parse)
          (lines-FitsInputs (config_file_parse sys fuel) (file-FitsInputs fuel) lines d h)
  ]

  -- A file of the system that is passed over.
  keep-FitsInputs :
      (c : Config) (o : Parsed) → length c.inputs ≤ 6 → FitsInputs o → FitsInputs (or_keep c o)
  unfolding or_keep
  keep-FitsInputs c (parsed d) h k = k
  keep-FitsInputs c cannot_open h k = parsed-FitsInputs c h
  keep-FitsInputs c quits h k = k
  keep-FitsInputs c too_deep h k = k

  conf_file-FitsInputs :
      (fuel : ℕ) (o : Option Text) (c : Config)
      → length c.inputs ≤ 6
      → FitsInputs (read_conf_file sys fuel o c)
  unfolding read_conf_file
  conf_file-FitsInputs fuel none c h = parsed-FitsInputs c h
  conf_file-FitsInputs fuel (some path) c h = keep-FitsInputs c _ h (file-FitsInputs fuel path c h)

  command_line-FitsInputs :
      (fuel : ℕ) (file : Option Text) (arguments : List (ℕ × Text))
      → Keeps (read_command_line sys fuel file arguments)
  unfolding read_command_line
  command_line-FitsInputs fuel none arguments c h =
      arguments-FitsInputs (config_file_parse sys fuel) (file-FitsInputs fuel) arguments c h
  command_line-FitsInputs fuel (some path) arguments c h = file-FitsInputs fuel path _ h

  -- Whatever the files and the command line hold: a configuration that the options lead to has at
  -- most MAX_INPUTS inputs, so that the array is never written out of its bounds.
  pub read_options-FitsInputs :
      (fuel : ℕ) (encryption : Encryption) (file : Option Text) (arguments : List (ℕ × Text))
      → FitsInputs (read_options sys fuel encryption file arguments)
  unfolding read_options default_config
  read_options-FitsInputs fuel encryption file arguments =
      and_then-FitsInputs _ _ (conf_file-FitsInputs fuel _ _ (omega arith))
        (command_line-FitsInputs fuel file arguments)
