-- ===== src/Esc.antt =====
-- `esc` of internal/web/static/base.js, through which every text goes into the markup of a page.
pub mod Reads
mod Samples
use cronova.Base.{ℕ, ◌==◌, Bool, List, [], ◌∷◌, ◌++◌, Text, codes, if◌then◌else◌}

-- What a code unit is replaced by.
unfoldable pub esc_char : ℕ → Text
esc_char c =
    if c == b'&'
    then codes "&amp;"
    else if c == b'<'
    then codes "&lt;"
    else if c == b'>'
    then codes "&gt;"
    else if c == b'"'
    then codes "&quot;"
    else c ∷ []

unfoldable pub esc : Text → Text
unfolding esc_char
esc [] = []
esc (c ∷ s) = esc_char c ++ esc s
