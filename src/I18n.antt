-- ===== src/I18n.antt =====
-- Texts in two languages: the dictionaries and the labels of internal/web/static/base.js, and `t`.
-- A key is never one of the names that plain objects inherit.
pub mod Phrases
pub mod Zh1
pub mod Zh2
pub mod Zh3
pub mod Zh4
pub mod Zh5
pub mod Zh6
pub mod En1
pub mod En2
pub mod En3
pub mod En4
pub mod En5
pub mod En6
pub mod Labels
pub mod Complete
pub mod Known
mod Samples
use cronova.Base.{List, [], ◌∷◌, ◌++◌, Option, none, some, Text, codes, text_eq, if◌then◌else◌}
use cronova.I18n.Phrases.{String, Value, word, Phrase, words, with1, with2}
use cronova.I18n.Zh1.{zh_1}
use cronova.I18n.Zh2.{zh_2}
use cronova.I18n.Zh3.{zh_3}
use cronova.I18n.Zh4.{zh_4}
use cronova.I18n.Zh5.{zh_5}
use cronova.I18n.Zh6.{zh_6}
use cronova.I18n.En1.{en_1}
use cronova.I18n.En2.{en_2}
use cronova.I18n.En3.{en_3}
use cronova.I18n.En4.{en_4}
use cronova.I18n.En5.{en_5}
use cronova.I18n.En6.{en_6}

pub data Lang : Type 0 where
  zh en : Lang

unfoldable pub dict : Lang → List (String × Phrase)
unfolding zh_1 zh_2 zh_3 zh_4 zh_5 zh_6 en_1 en_2 en_3 en_4 en_5 en_6
dict zh = zh_1 ++ zh_2 ++ zh_3 ++ zh_4 ++ zh_5 ++ zh_6
dict en = en_1 ++ en_2 ++ en_3 ++ en_4 ++ en_5 ++ en_6

-- The entry under a key.
unfoldable pub entry {ℓ} : {A : Type ℓ} → List (String × A) → Text → Option A
unfolding text_eq
entry [] k = none
entry ((j, p) ∷ m) k = let rest = entry m k in if text_eq (codes j) k then some p else rest

-- An argument that is not given.
abbrev undefined : Value
undefined = word (codes "undefined")

-- `typeof v === "function" ? v(...a) : v`
unfoldable pub call : Phrase → List Value → Text
call (words s) a = codes s
call (with1 f) [] = f undefined
call (with1 f) (a ∷ r) = f a
call (with2 f) [] = f undefined undefined
call (with2 f) (a ∷ []) = f a undefined
call (with2 f) (a ∷ b ∷ r) = f a b

-- `DICT[lang][k] ?? DICT.zh[k] ?? k`
unfoldable pub translate : Option Phrase → Option Phrase → Text → List Value → Text
unfolding call
translate (some p) o k a = call p a
translate none (some p) k a = call p a
translate none none k a = k

unfoldable pub t : Lang → Text → List Value → Text
unfolding translate dict entry
t l k a = translate (entry (dict l) k) (entry (dict zh) k) k a
