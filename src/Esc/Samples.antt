-- ===== src/Esc/Samples.antt =====
-- An escaped text.
use cronova.Base.{◌≡◌, refl, false, Text, codes, any}
use cronova.Esc.{esc_char, esc}
use cronova.Esc.Reads.{is_delimiter, Reads, esc_safe}

abbrev quoted : Text
quoted = codes "a<b & \"c\""

esc-quoted : esc quoted ≡ codes "a&lt;b &amp; &quot;c&quot;"
unfolding esc esc_char
esc-quoted = refl

esc_safe_example : (any is_delimiter (esc quoted) ≡ false) × Reads (esc quoted) quoted
esc_safe_example = esc_safe quoted
