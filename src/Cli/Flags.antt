-- ===== src/Cli/Flags.antt =====
-- The package `flag`, as internal/cli uses it: `Parse` of a set with ContinueOnError.
pub mod Written
use revolution.Prelude.{
  ℕ, Text, codes, eq_text, Bool, true, false, not, ◌&&◌, ◌||◌, Option, none, some, List, [], ◌∷◌,
  ◌==◌, if◌then◌else◌,
}
use revolution.Store.Exec.{Result, ok, err, bad_flag, flag_help}

pub data Kind : Type 0 where
  text_flag : Kind
  bool_flag : Kind

-- The flags of a set.
abbrev pub FlagSet : Type 0
FlagSet = List (Text × Kind)

abbrev pub formal : Text → FlagSet → Option Kind
formal name [] = none
formal name ((n, k) ∷ fs) = if eq_text n name then some k else formal name fs

-- What is set so far.
abbrev pub Given : Type 0
Given = List (Text × Text)

-- What is set, the last first, and the arguments that are left.
pub record Parsed : Type 0 where
  pub given : Given
  pub args : List Text

-- The name and, after a "=", the value; a "=" in front belongs to the name.
abbrev pub cut_rest : Text → Text × Option Text
cut_rest [] = ([], none)
cut_rest (c ∷ cs) =
    let (name, value) = cut_rest cs in if c == b'=' then ([], some cs) else (c ∷ name, value)

abbrev pub cut_value : Text → Text × Option Text
cut_value [] = ([], none)
cut_value (c ∷ cs) = let (name, value) = cut_rest cs in (c ∷ name, value)

-- `strconv.ParseBool`
abbrev pub true_words : List Text
true_words = codes "1" ∷ codes "t" ∷ codes "T" ∷ codes "true" ∷ codes "TRUE" ∷ codes "True" ∷ []

abbrev pub false_words : List Text
false_words = codes "0" ∷ codes "f" ∷ codes "F" ∷ codes "false" ∷ codes "FALSE" ∷ codes "False" ∷ []

abbrev pub is_word : Text → List Text → Bool
is_word s [] = false
is_word s (w ∷ ws) = eq_text w s || is_word s ws

-- What the first argument is.
pub data Token : Type 0 where
  -- not a flag: this argument and the others are left
  no_flag : Token
  -- "--": the others are left
  terminator : Token
  -- an error
  bad : Token
  help : Token
  -- a flag with its value
  sets : Text → Text → Token
  -- a flag whose value is the next argument
  wants : Text → Token

abbrev pub on_bool : Text → Option Text → Token
on_bool name none = sets name (codes "true")
on_bool name (some v) =
    if is_word v true_words
    then sets name (codes "true")
    else if is_word v false_words
    then sets name (codes "false")
    else bad

abbrev pub on_text : Text → Option Text → Token
on_text name none = wants name
on_text name (some v) = sets name v

abbrev pub on_formal : Text → Option Text → Option Kind → Token
on_formal name value none =
    if eq_text name (codes "help") || eq_text name (codes "h") then help else bad
on_formal name value (some bool_flag) = on_bool name value
on_formal name value (some text_flag) = on_text name value

-- An argument after its minus signs.
abbrev pub read_name : FlagSet → Text → Token
read_name fs [] = bad
read_name fs (c ∷ cs) =
    let (name, value) = cut_value (c ∷ cs) in
    if c == b'-' || c == b'=' then bad else on_formal name value (formal name fs)

abbrev pub read_dashed : FlagSet → Text → Token
read_dashed fs [] = no_flag
read_dashed fs (c ∷ []) = if c == b'-' then terminator else read_name fs (c ∷ [])
read_dashed fs (c ∷ d ∷ cs) = if c == b'-' then read_name fs (d ∷ cs) else read_name fs (c ∷ d ∷ cs)

abbrev pub read_token : FlagSet → Text → Token
read_token fs [] = no_flag
read_token fs (c ∷ cs) = if c == b'-' then read_dashed fs cs else no_flag

-- A token that is the last argument.
abbrev pub at_last : Text → Given → Token → Result Parsed
at_last a given no_flag = ok (record { given = given; args = a ∷ [] })
at_last a given terminator = ok (record { given = given; args = [] })
at_last a given bad = err bad_flag
at_last a given help = err flag_help
at_last a given (sets name value) = ok (record { given = (name, value) ∷ given; args = [] })
at_last a given (wants name) = err bad_flag

-- A token before others: `next` goes on after it, and `skip` after the argument behind it.
module _ (a b : Text) (rest : List Text) (given : Given) (next skip : Given → Result Parsed) where
  abbrev pub before_others : Token → Result Parsed
  before_others no_flag = ok (record { given = given; args = a ∷ b ∷ rest })
  before_others terminator = ok (record { given = given; args = b ∷ rest })
  before_others bad = err bad_flag
  before_others help = err flag_help
  before_others (sets name value) = next ((name, value) ∷ given)
  before_others (wants name) = skip ((name, b) ∷ given)

unfoldable pub parse : FlagSet → Given → List Text → Result Parsed
parse fs given [] = ok (record { given = given; args = [] })
parse fs given (a ∷ []) = at_last a given (read_token fs a)
parse fs given (a ∷ b ∷ rest) =
    before_others a b rest given (λ g. parse fs g (b ∷ rest)) (λ g. parse fs g rest)
      (read_token fs a)

-- The value of a text flag, whose default is "", and of a Boolean one, whose default is false.
abbrev pub value_of : Text → Given → Text
value_of name [] = []
value_of name ((n, v) ∷ given) = if eq_text n name then v else value_of name given

abbrev pub is_set : Text → Given → Bool
is_set name given = eq_text (value_of name given) (codes "true")
