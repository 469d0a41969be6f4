-- ===== src/SystemStat/Arrays/Tests.antt =====
-- src/system_stat.cpp: the round trip of a sample through arrays that keep all that is set.
use Prim.Native.String.{String}
use text.Mathlib.Text.{◌==◌ as str_eq}
use dnsmeter.Base.{
  ℤ, pos, negsuc, ℕ, zero, suc, ◌+◌, ◌/◌, ◌%◌, ◌≡◌, refl, ap, ◌∙◌, true, List, [], ◌∷◌, arith, ◌==◌,
  if◌then◌else◌,
}
use dnsmeter.SystemStat.{Network, Interface}
use dnsmeter.SystemStat.Arrays.{SystemStat, AssocArray, Format, export_to_array, import_from_array}
use dnsmeter.SystemStat.Arrays.Imported.{IsFormat, IsAssocArray}
use dnsmeter.SystemStat.Arrays.RoundTrip.{IsSample, IsSame, import_from_array-export_to_array}

-- An array as what has been set in it, the last first.
data Kept : Type 0 where
  nothing : Kept
  string_at : String → String → Kept → Kept
  array_at : String → Kept → Kept → Kept

abbrev find_string : Kept → String → String
find_string nothing key = ""
find_string (string_at k v rest) key =
    let later = find_string rest key in if str_eq k key then v else later
find_string (array_at k d rest) key = find_string rest key

abbrev list_arrays : Kept → List (String × Kept)
list_arrays nothing = []
list_arrays (string_at k v rest) = list_arrays rest
list_arrays (array_at k d rest) = (k, d) ∷ list_arrays rest

abbrev arrays : AssocArray Kept
arrays = record {
  empty = nothing;
  set_string = λ a key v. string_at key v a;
  get_string = find_string;
  set_array = λ a key d. array_at key d a;
  get_arrays = λ a key. list_arrays a;
}

-- A number as so many characters, and an integer as twice its amount, or one more below 0.
abbrev unary : ℕ → String
unary zero = String.[]
unary (suc n) = String.◌∷◌ "I" (unary n)

abbrev count : String → ℕ
count String.[] = 0
count (String.◌∷◌ c s) = suc (count s)

count-unary : (n : ℕ) → count (unary n) ≡ n
count-unary zero = refl
count-unary (suc n) = ap suc (count-unary n)

abbrev double : ℤ → ℕ
double (pos n) = n + n
double (negsuc n) = n + n + 1

abbrev half : ℕ → ℤ
half n = if n % 2 == 0 then pos (n / 2) else negsuc (n / 2)

half-double : (z : ℤ) → half (double z) ≡ z
half-double (pos n) = ground arith
half-double (negsuc n) = ground arith

abbrev format : Format
format = record {
  f6 = unary;
  lu = unary;
  d = λ z. unary (double z);
  ld = λ z. unary (double z);
  interface_key = λ name. name;
  to_double = count;
  to_unsigned_long = count;
  to_int = λ s. half (count s);
  to_long = λ s. half (count s);
}

reads : IsFormat format
reads = record {
  double = count-unary;
  unsigned = λ n _. count-unary n;
  int = λ z _. ap half (count-unary (double z)) ∙ half-double z;
  long = λ z _. ap half (count-unary (double z)) ∙ half-double z;
}

law : IsAssocArray arrays format (λ _. true)
law = record {
  strings = λ ks a key v other _ _ _. refl;
  apart = λ a d name other _. refl;
  below = λ a key v _. refl;
  named = λ a d name other _. refl;
}

abbrev some_bytes : Network
some_bytes = record { bytes = 9; packets = 3; errs = 0; drop = 1 }

abbrev eth0 : Interface
eth0 = record { name = "eth0"; receive = some_bytes; transmit = some_bytes }

abbrev lo : Interface
lo = record { name = "lo"; receive = some_bytes; transmit = some_bytes }

abbrev sample : SystemStat
sample = record {
  sample_time = 5;
  cpu = record { user = pos 1; nice = pos 0; system = negsuc 2; idle = pos 4; iowait = pos 0 };
  sysinfo = record {
    uptime = pos 7;
    freeswap = pos 0;
    totalswap = pos 0;
    freeram = pos 2;
    bufferram = pos 0;
    totalram = pos 3;
    sharedram = pos 0;
    procs = pos 6;
  };
  net_total = record { name = ""; receive = some_bytes; transmit = some_bytes };
  interfaces = eth0 ∷ lo ∷ [];
}

is_sample : IsSample (λ _. true) sample
is_sample = record {
  receive = (omega arith, omega arith, omega arith, omega arith);
  transmit = (omega arith, omega arith, omega arith, omega arith);
  user = (omega arith, omega arith);
  nice = (omega arith, omega arith);
  system = (omega arith, omega arith);
  idle = (omega arith, omega arith);
  iowait = (omega arith, omega arith);
  uptime = (omega arith, omega arith);
  freeswap = (omega arith, omega arith);
  totalswap = (omega arith, omega arith);
  freeram = (omega arith, omega arith);
  bufferram = (omega arith, omega arith);
  totalram = (omega arith, omega arith);
  sharedram = (omega arith, omega arith);
  procs = (omega arith, omega arith);
  names = (refl, (refl, tt));
  words = (
    (
      (omega arith, omega arith, omega arith, omega arith),
      (omega arith, omega arith, omega arith, omega arith),
    ),
    (
      (
        (omega arith, omega arith, omega arith, omega arith),
        (omega arith, omega arith, omega arith, omega arith),
      ),
      tt,
    ),
  );
  map = (refl, (refl, tt));
}

abbrev emptied : SystemStat
emptied = record sample { interfaces = [] }

import_from_array-export_to_array_example :
    IsSame sample
      (import_from_array arrays format emptied (export_to_array arrays format sample nothing))
import_from_array-export_to_array_example =
    import_from_array-export_to_array arrays format (λ _. true) law reads sample nothing is_sample
      emptied refl (λ m. refl)
