-- ===== src/Pplib/Samples.antt =====
-- Concrete strings, a resolver and memories, for runs of the program's functions.
use text.Mathlib.Text.{◌==◌ as str_eq}
use dnsmeter.Base.{[], ◌∷◌, none, some, arith, leb, if◌then◌else◌, Memory, IsBytes}
use dnsmeter.Pplib.{Strings, Resolver, ByteArray}

-- One line has two tokens.
abbrev pub sample_strings : Strings
sample_strings = record {
  explode = λ text delimiter.
      if str_eq text "example.com MX" then "example.com" ∷ "MX" ∷ [] else text ∷ [];
  to_upper_case = λ text. text;
  trim = λ text. text;
}

abbrev pub sample_message : ByteArray
sample_message = record { bytes = λ _. 1; size = 29 }

abbrev pub sample_resolver : Resolver
sample_resolver name type room = if leb 29 room then some sample_message else none

-- A resolver whose messages fill the room.
abbrev pub filling_resolver : Resolver
filling_resolver name type room = some (record { bytes = λ _. 1; size = room })

abbrev pub zeros : Memory
zeros _ = 0

abbrev pub ones : Memory
ones _ = 1

pub zeros-IsBytes : IsBytes zeros
zeros-IsBytes i = omega arith

pub ones-IsBytes : IsBytes ones
ones-IsBytes i = omega arith
