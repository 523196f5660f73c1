-- ===== src/Command/Joins.antt =====
-- A command that the form composes is read back into the form.
use mathlib.Core.List.{append-nil, append_assoc}
use cronova.Base.{
  ◌≡◌, refl, ap, ◌∙◌, Bool, true, false, not, [], ◌∷◌, ◌++◌, all, Option, none, some, Text, codes,
  is_empty, is_space, trim, trim_start, span-append, span-all, strip_prefix, if◌then◌else◌, ◌>>=◌,
}
use cronova.Command.{JarFields, compose_jar, word_of, args_of, parse_plain, parse_class, parse_jar}

-- No white space.
abbrev pub is_word : Text → Bool
is_word s = all (λ c. not (is_space c)) s

-- A jar that is a word, a class that is one or is missing, and trimmed arguments.
pub record IsTidy (f : JarFields) : Type 0 where
  pub has_jar : is_empty f.jar ≡ false
  pub jar_word : is_word f.jar ≡ true
  pub class_word : is_word f.mainclass ≡ true
  pub args_trimmed : trim f.args ≡ f.args

-- The arguments after a word.
abbrev tail_of : Text → Text
tail_of a = if is_empty a then [] else b' ' ∷ a

word_of-space :
    (w s : Text)
    → is_empty w ≡ false
    → is_word w ≡ true
    → word_of (w ++ b' ' ∷ s) ≡ some (w, b' ' ∷ s)
unfolding word_of is_space
word_of-space w s n h = rw (span-append (λ c. not (is_space c)) w b' ' s h refl, n) refl

word_of-tail :
    (w a : Text)
    → is_empty w ≡ false
    → is_word w ≡ true
    → word_of (w ++ tail_of a) ≡ some (w, tail_of a)
word_of-tail w [] n h =
    unfold word_of is_space in rw (append-nil w, span-all (λ c. not (is_space c)) w h, n) refl
word_of-tail w (c ∷ a) n h = word_of-space w (c ∷ a) n h

args_of-tail : (a : Text) → trim a ≡ a → args_of (tail_of a) ≡ some a
unfolding args_of trim trim_start is_space
args_of-tail [] h = refl
args_of-tail (c ∷ a) h = ap (λ (t : Text). some t) h

-- The two shapes of a command.
plain_command : (j a : Text) → Text
plain_command j a = codes "java -jar " ++ (j ++ tail_of a)

class_command : (j m a : Text) → Text
class_command j m a = codes "java -cp " ++ (j ++ b' ' ∷ (m ++ tail_of a))

parse_plain-command :
    (j a : Text)
    → is_empty j ≡ false
    → is_word j ≡ true
    → trim a ≡ a
    → parse_plain (plain_command j a) ≡ some (record { jar = j; mainclass = []; args = a })
unfolding parse_plain strip_prefix plain_command
parse_plain-command j a n w t =
    ap
      (λ (o : Option (Text × Text)).
        o >>= (λ v. args_of v.1 >>= (λ r. some (record { jar = v.0; mainclass = []; args = r }))))
      (word_of-tail j a n w)
    ∙ ap (λ (o : Option Text). o >>= (λ r. some (record { jar = j; mainclass = []; args = r })))
        (args_of-tail a t)

parse_jar-plain :
    (j a : Text)
    → is_empty j ≡ false
    → is_word j ≡ true
    → trim a ≡ a
    → parse_jar (plain_command j a) ≡ some (record { jar = j; mainclass = []; args = a })
unfolding parse_jar
parse_jar-plain j a n w t =
    ap
      (λ (o : Option JarFields). elim o [
        | some f ↦ some f
        | none ↦ parse_class (plain_command j a)
      ])
      (parse_plain-command j a n w t)

parse_jar-class :
    (j m a : Text)
    → is_empty j ≡ false
    → is_word j ≡ true
    → is_empty m ≡ false
    → is_word m ≡ true
    → trim a ≡ a
    → parse_jar (class_command j m a) ≡ some (record { jar = j; mainclass = m; args = a })
unfolding parse_jar parse_plain parse_class strip_prefix class_command
parse_jar-class j m a n w k v t =
    ap
      (λ (o : Option (Text × Text)). o >>= (λ w.
        strip_prefix (codes " ") w.1
        >>= word_of
        >>= (λ c. args_of c.1 >>= (λ r. some (record { jar = w.0; mainclass = c.0; args = r })))))
      (word_of-space j (m ++ tail_of a) n w)
    ∙ ap
        (λ (o : Option (Text × Text)).
          o >>= (λ c. args_of c.1 >>= (λ r. some (record { jar = j; mainclass = c.0; args = r }))))
        (word_of-tail m a k v)
    ∙ ap (λ (o : Option Text). o >>= (λ r. some (record { jar = j; mainclass = m; args = r })))
        (args_of-tail a t)

fields-compose_jar :
    (j m a : Text)
    → IsTidy (record { jar = j; mainclass = m; args = a })
    → parse_jar (compose_jar (record { jar = j; mainclass = m; args = a }))
      ≡ some (record { jar = j; mainclass = m; args = a })
unfolding compose_jar plain_command class_command
fields-compose_jar j [] a h = parse_jar-plain j a h.has_jar h.jar_word h.args_trimmed
fields-compose_jar j (c ∷ m) a h =
    ap (λ s. parse_jar (codes "java -cp " ++ s)) (append_assoc j (b' ' ∷ c ∷ m) (tail_of a))
    ∙ parse_jar-class j (c ∷ m) a h.has_jar h.jar_word refl h.class_word h.args_trimmed

-- A command that the form composes is read back into the same fields, where the jar and the class
-- hold no white space, the jar is given, and the arguments have no white space around them.
parse_jar-compose_jar : (f : JarFields) → IsTidy f → parse_jar (compose_jar f) ≡ some f
parse_jar-compose_jar f h = fields-compose_jar f.jar f.mainclass f.args h
