-- ===== src/Command.antt =====
-- The command of a task as a form: CMD_BUILDERS and computeCmdRaw of internal/web/static/views.js.
pub mod Joins
pub mod Pills
pub mod Variable
pub mod Respell
mod Samples
use mathlib.Core.List.{reverse}
use cronova.Base.{
  ℕ, Bool, true, false, not, List, [], ◌∷◌, ◌++◌, length, Option, none, some, Text, codes, text_eq,
  is_empty, is_space, trim, trim_start, span, strip_prefix, if◌then◌else◌, leb, ◌>>=◌,
}

-- The fields of the form for a jar.
pub record JarFields : Type 0 where
  pub jar : Text
  pub mainclass : Text
  pub args : Text

unfoldable pub compose_jar : JarFields → Text
compose_jar f =
    (if is_empty f.mainclass
      then codes "java -jar " ++ f.jar
      else codes "java -cp " ++ (f.jar ++ b' ' ∷ f.mainclass))
    ++ (if is_empty f.args then [] else b' ' ∷ f.args)

-- `(\S+)`, and what follows
unfoldable pub word_of : Text → Option (Text × Text)
unfolding span is_space
word_of s = let run = span (λ c. not (is_space c)) s in if is_empty run.0 then none else some run

-- `(?:\s+([\s\S]+))?$` after a word, its group trimmed: a single white space has nothing after it.
unfoldable pub args_of : Text → Option Text
unfolding trim
args_of [] = some []
args_of (c ∷ s) = if is_empty s then none else some (trim (c ∷ s))

-- `/^java -jar (\S+)(?:\s+([\s\S]+))?$/`
unfoldable pub parse_plain : Text → Option JarFields
unfolding strip_prefix
parse_plain c =
    strip_prefix (codes "java -jar ") c
    >>= word_of
    >>= (λ w. args_of w.1 >>= (λ a. some (record { jar = w.0; mainclass = []; args = a })))

-- `/^java -cp (\S+) (\S+)(?:\s+([\s\S]+))?$/`
unfoldable pub parse_class : Text → Option JarFields
unfolding strip_prefix
parse_class c = strip_prefix (codes "java -cp ") c >>= word_of >>= (λ w.
    strip_prefix (codes " ") w.1
    >>= word_of
    >>= (λ m. args_of m.1 >>= (λ a. some (record { jar = w.0; mainclass = m.0; args = a }))))

unfoldable pub parse_jar : Text → Option JarFields
parse_jar c = elim (parse_plain c) [ some f ↦ some f | none ↦ parse_class c ]

-- Whether a task opens with its raw command: a type with no form, or a command that does not fit it.
unfoldable pub compute_cmd_raw : Text → Text → Bool
unfolding text_eq parse_jar
compute_cmd_raw kind command =
    if not (text_eq kind (codes "jar"))
    then true
    else if is_empty command
    then false
    else elim (parse_jar command) [ none ↦ true | some f ↦ false ]
