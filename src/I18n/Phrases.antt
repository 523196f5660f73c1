-- ===== src/I18n/Phrases.antt =====
-- The entries of the dictionaries of internal/web/static/base.js: texts, and functions of one or
-- two arguments.
use Prim.Native.String.{String as NativeString}
use cronova.Base.{ℕ, Bool, false, Text, print_nat, ltb}

abbrev pub String : Type 0
String = NativeString

-- What a phrase is given: a text, or a number.
pub data Value : Type 0 where
  word : Text → Value
  count : ℕ → Value

pub data Phrase : Type 0 where
  words : String → Phrase
  with1 : (Value → Text) → Phrase
  with2 : (Value → Value → Text) → Phrase

-- `${v}`
unfoldable pub show : Value → Text
show (word s) = s
show (count n) = print_nat n

-- `v > n`, for the counts that the phrases compare.
unfoldable pub above : ℕ → Value → Bool
above n (word s) = false
above n (count m) = ltb n m
