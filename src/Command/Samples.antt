-- ===== src/Command/Samples.antt =====
-- Tests of the form of a command, and its theorem at a concrete command.
use cronova.Base.{is_alnum, is_digit, ◌≡◌, refl, true, codes, is_space, span, strip_prefix, text_eq}
use cronova.Command.{parse_jar, compute_cmd_raw, parse_plain, parse_class, word_of, args_of}
use cronova.Command.Pills.{
  text_first, fill_editor, read_editor, match_template, is_name_char, spell,
}
use cronova.Command.Respell.{Respells, read_editor-fill_editor}

trailing_space_test : compute_cmd_raw (codes "jar") (codes "java -jar app.jar ") ≡ true
unfolding compute_cmd_raw parse_jar parse_plain parse_class word_of args_of span strip_prefix
    is_space text_eq
trailing_space_test = refl

-- A space on either side goes or comes; what is no variable stands.
respelled_test :
    read_editor (fill_editor (codes "run {{run_id}} {{  a.b}} {{a b}}"))
    ≡ codes "run {{ run_id }} {{ a.b }} {{a b}}"
unfolding read_editor fill_editor match_template strip_prefix span is_space is_name_char is_alnum
    text_first is_digit spell
respelled_test = refl

read_editor-fill_editor_example :
    Respells
      (codes "run {{run_id}} { {{a b}}")
      (read_editor (fill_editor (codes "run {{run_id}} { {{a b}}")))
read_editor-fill_editor_example = read_editor-fill_editor (codes "run {{run_id}} { {{a b}}") refl
