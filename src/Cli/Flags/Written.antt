-- ===== src/Cli/Flags/Written.antt =====
-- Options as they are written, read back (the package `flag`, as internal/cli uses it).
use revolution.Prelude.{
  ◌≡◌, refl, ap, ◌∙◌, Text, codes, Bool, true, false, not, ◌&&◌, ◌||◌, some, List, [], ◌∷◌, ◌++◌,
  map, ◌==◌, arith, All,
}
use mathlib.Core.List.{reverse_aux}
use revolution.Store.Exec.{ok}
use revolution.Cli.Flags.{
  FlagSet, text_flag, formal, Given, cut_rest, sets, on_formal, read_name, read_token,
  before_others, parse,
}

abbrev pub has_equals : Text → Bool
has_equals [] = false
has_equals (c ∷ cs) = c == b'=' || has_equals cs

-- A name that can be written after two minus signs.
abbrev pub is_name : Text → Bool
is_name [] = false
is_name (c ∷ cs) = not (c == b'-') && not (has_equals (c ∷ cs))

-- "--name=value"
abbrev pub written : Text × Text → Text
written (name, value) = b'-' ∷ b'-' ∷ name ++ b'=' ∷ value

-- A text flag of the set.
abbrev pub IsTextFlag : FlagSet → Text × Text → Type 0
IsTextFlag fs (name, value) = (formal name fs ≡ some text_flag) × (is_name name ≡ true)

cut_rest-written :
    (name value : Text)
    → has_equals name ≡ false
    → cut_rest (name ++ b'=' ∷ value) ≡ (name, some value)
cut_rest-written [] value h = refl
cut_rest-written (c ∷ cs) value h = ground (arith, h, cut_rest-written cs value)

read_name-written :
    (fs : FlagSet) (name value : Text)
    → IsTextFlag fs (name, value)
    → read_name fs (name ++ b'=' ∷ value) ≡ sets name value
read_name-written fs [] value (f, h) = cc
read_name-written fs (c ∷ cs) value (f, h) =
    let no_minus : (c == b'-') ≡ false = ground (arith, h) in
    let no_equals : (c == b'=') ≡ false = ground (arith, h) in
    let no_later : has_equals cs ≡ false = ground (arith, h) in
    rw (no_minus, no_equals, cut_rest-written cs value no_later)
      (ap (on_formal (c ∷ cs) (some value)) f)

read_token-written :
    (fs : FlagSet) (s : Text × Text) → IsTextFlag fs s → read_token fs (written s) ≡ sets s.0 s.1
read_token-written fs ([], value) (f, h) = cc
read_token-written fs (c ∷ cs, value) h = read_name-written fs (c ∷ cs) value h

module _ (fs : FlagSet) where
  -- The arguments: the options, "--", and what is left.
  abbrev pub line : List (Text × Text) → List Text → List Text
  line settings args = map written settings ++ codes "--" ∷ args

  parse_end :
      (given : Given) (args : List Text)
      → parse fs given (codes "--" ∷ args) ≡ ok (record { given = given; args = args })
  unfolding parse
  parse_end given [] = refl
  parse_end given (a ∷ args) = refl

  parse_more :
      (s : Text × Text) (given : Given) (b : Text) (rest : List Text)
      → IsTextFlag fs s
      → parse fs given (written s ∷ b ∷ rest) ≡ parse fs (s ∷ given) (b ∷ rest)
  unfolding parse
  parse_more s given b rest h =
      ap
        (before_others (written s) b rest given (λ g. parse fs g (b ∷ rest)) (λ g. parse fs g rest))
        (read_token-written fs s h)

  -- Text options written as "--name=value" before "--" are read back, the last one first, and the arguments after it are left as
  -- they are, also where they begin with a minus sign.
  pub parse-line :
      (settings : List (Text × Text)) (given : Given) (args : List Text)
      → All (IsTextFlag fs) settings
      → parse fs given (line settings args)
        ≡ ok (record { given = reverse_aux settings given; args = args })
  parse-line [] given args h = parse_end given args
  parse-line (s ∷ []) given args h =
      parse_more s given (codes "--") args h.0 ∙ parse-line [] (s ∷ given) args h.1
  parse-line (s ∷ t ∷ more) given args h =
      parse_more s given (written t) (map written more ++ codes "--" ∷ args) h.0
      ∙ parse-line (t ∷ more) (s ∷ given) args h.1
