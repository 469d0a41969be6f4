-- ===== src/SystemStat/Arrays/Imported.antt =====
-- src/system_stat.cpp: what `importFromArray` gives of an array that `exportToArray` has filled.
use Prim.Native.String.{String}
use text.Mathlib.Text.{◌==◌ as str_eq}
use dnsmeter.Base.{
  ℤ, pos_part, neg_part, ℕ, ◌^◌, ◌≤◌, ◌<◌, ◌≡◌, refl, ap, ◌∙◌, Bool, true, false, ◌||◌, ◌⊎◌, List,
  [], ◌∷◌, Option, none, some, if◌then◌else◌, inl,
}
use dnsmeter.SystemStat.{Interface}
use dnsmeter.SystemStat.Arrays.{
  SystemStat, AssocArray, Format, set_all, total_entries, interface_entries, set_interfaces,
  system_entries, export_to_array,
}

-- An `int` and a `long`.
abbrev pub IsInt : ℤ → Type 0
IsInt z = (pos_part z < 2 ^ 31) × (neg_part z ≤ 2 ^ 31)

abbrev pub IsLong : ℤ → Type 0
IsLong z = (pos_part z < 2 ^ 63) × (neg_part z ≤ 2 ^ 63)

-- Numbers are read back as they were printed.
pub record IsFormat (format : Format) : Type 0 where
  pub double : (n : ℕ) → format.to_double (format.f6 n) ≡ n
  pub unsigned : (n : ℕ) → n < 2 ^ 64 → format.to_unsigned_long (format.lu n) ≡ n
  pub int : (z : ℤ) → IsInt z → format.to_int (format.d z) ≡ z
  pub long : (z : ℤ) → IsLong z → format.to_long (format.ld z) ≡ z

-- The keys of the strings that an export sets: none of them is the start of another one.
abbrev pub known : List String → String → Bool
known [] key = false
known (k ∷ ks) key = let rest = known ks key in str_eq k key || rest

abbrev pub keys : List String
keys =
    "sampleTime" ∷ "net_total/receive/bytes" ∷ "net_total/receive/packets"
    ∷ "net_total/receive/errs" ∷ "net_total/receive/drop" ∷ "net_total/transmit/bytes"
    ∷ "net_total/transmit/packets" ∷ "net_total/transmit/errs" ∷ "net_total/transmit/drop"
    ∷ "cpu/user" ∷ "cpu/nice" ∷ "cpu/system" ∷ "cpu/idle" ∷ "cpu/iowait" ∷ "sysinfo/uptime"
    ∷ "sysinfo/freeswap" ∷ "sysinfo/totalswap" ∷ "sysinfo/freeram" ∷ "sysinfo/bufferram"
    ∷ "sysinfo/totalram" ∷ "sysinfo/sharedram" ∷ "sysinfo/procs" ∷ []

abbrev pub interface_keys : List String
interface_keys =
    "receive/bytes" ∷ "receive/packets" ∷ "receive/errs" ∷ "receive/drop" ∷ "transmit/bytes"
    ∷ "transmit/packets" ∷ "transmit/errs" ∷ "transmit/drop" ∷ "name" ∷ []

module _ {Arr : Type 0} (arrays : AssocArray Arr) (format : Format) where
  abbrev pub lookup : String → List (String × Arr) → Option Arr
  lookup key [] = none
  lookup key ((k, a) ∷ rest) = let later = lookup key rest in if str_eq k key then some a else later

  -- The documented behaviour of an array: a string is found under its key and leaves the others, the strings at the
  -- keys of an export and the arrays below "interface" leave each other alone, and the latter have their names as
  -- keys. `plain` says that a name has no separator.
  pub record IsAssocArray (plain : String → Bool) : Type 0 where
    pub strings :
        (ks : List String) (a : Arr) (key text other : String)
        → (ks ≡ keys) ⊎ (ks ≡ interface_keys)
        → known ks key ≡ true
        → known ks other ≡ true
        → arrays.get_string (arrays.set_string a key text) other
          ≡ (if str_eq key other then text else arrays.get_string a other)
    pub apart :
        (a d : Arr) (name other : String)
        → known keys other ≡ true
        → arrays.get_string (arrays.set_array a (format.interface_key name) d) other
          ≡ arrays.get_string a other
    pub below :
        (a : Arr) (key text : String)
        → known keys key ≡ true
        → arrays.get_arrays (arrays.set_string a key text) "interface"
          ≡ arrays.get_arrays a "interface"
    pub named :
        (a d : Arr) (name other : String)
        → plain name ≡ true
        → lookup other
            (arrays.get_arrays (arrays.set_array a (format.interface_key name) d) "interface")
          ≡ (if str_eq name other then some d else lookup other (arrays.get_arrays a "interface"))

  module _ (plain : String → Bool) (law : IsAssocArray plain) where
    abbrev pub AllKnown : List String → List (String × String) → Type 0
    AllKnown ks [] = Unit
    AllKnown ks ((k, t) ∷ es) = (known ks k ≡ true) × AllKnown ks es

    -- What is found under a key after calls of `setf`.
    abbrev pub value : List (String × String) → String → String → String
    value [] q b = b
    value ((k, t) ∷ es) q b = value es q (if str_eq k q then t else b)

    pub get-set_all :
        (ks : List String) (a : Arr) (es : List (String × String)) (q : String)
        → (ks ≡ keys) ⊎ (ks ≡ interface_keys)
        → AllKnown ks es
        → known ks q ≡ true
        → arrays.get_string (set_all arrays format a es) q ≡ value es q (arrays.get_string a q)
    unfolding set_all
    get-set_all ks a [] q which all here = refl
    get-set_all ks a ((k, t) ∷ es) q which (one, all) here =
        get-set_all ks (arrays.set_string a k t) es q which all here
        ∙ ap (value es q) (law.strings ks a k t q which one here)

    get-set_interfaces :
        (a : Arr) (ns : List Interface) (q : String)
        → known keys q ≡ true
        → arrays.get_string (set_interfaces arrays format a ns) q ≡ arrays.get_string a q
    unfolding set_interfaces
    get-set_interfaces a [] q here = refl
    get-set_interfaces a (n ∷ ns) q here =
        let d = set_all arrays format arrays.empty (interface_entries arrays format n) in
        get-set_interfaces (arrays.set_array a (format.interface_key n.name) d) ns q here
        ∙ law.apart a d n.name q here

    pub below-set_all :
        (a : Arr) (es : List (String × String))
        → AllKnown keys es
        → arrays.get_arrays (set_all arrays format a es) "interface"
          ≡ arrays.get_arrays a "interface"
    unfolding set_all
    below-set_all a [] all = refl
    below-set_all a ((k, t) ∷ es) (one, all) =
        below-set_all (arrays.set_string a k t) es all ∙ law.below a k t one

    -- The string under a key of an export.
    pub get-export :
        (s : SystemStat) (a : Arr) (q : String)
        → known keys q ≡ true
        → arrays.get_string (export_to_array arrays format s a) q
          ≡ value
              (system_entries arrays format s)
              q
              (value (total_entries arrays format s) q (arrays.get_string a q))
    unfolding export_to_array
    get-export s a q here =
        let first = set_all arrays format a (total_entries arrays format s) in
        let second = set_interfaces arrays format first s.interfaces in
        get-set_all keys second (system_entries arrays format s) q (inl refl)
          (
            refl,
            (
              refl,
              (
                refl,
                (refl, (refl, (refl, (refl, (refl, (refl, (refl, (refl, (refl, (refl, tt)))))))))),
              ),
            ),
          )
          here
        ∙ ap (value (system_entries arrays format s) q) (
            get-set_interfaces first s.interfaces q here
            ∙ get-set_all keys a (total_entries arrays format s) q (inl refl)
                (refl, (refl, (refl, (refl, (refl, (refl, (refl, (refl, (refl, tt))))))))) here)
