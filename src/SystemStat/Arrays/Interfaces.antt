-- ===== src/SystemStat/Arrays/Interfaces.antt =====
-- src/system_stat.cpp: the interfaces that `importFromArray` gives of an array that `exportToArray` has filled.
use Prim.Native.String.{String}
use text.Mathlib.Text.{◌==◌ as str_eq}
use text.Mathlib.TextEquality.{eq_iff}
use mathlib.Core.Option
use mathlib.Core.Option.{some-injective}
use dnsmeter.Base.{
  ◌^◌, ◌<◌, ◌≡◌, refl, ap, sym, ◌∙◌, Bool, true, List, [], ◌∷◌, Option, none, some, All,
  if◌then◌else◌, Bool-cases, inl, inr,
}
use dnsmeter.SystemStat.{Network, Interface, find, insert}
use dnsmeter.SystemStat.Sample.{find-insert, some-none, find-insert-none}
use dnsmeter.SystemStat.Arrays.{
  SystemStat, AssocArray, Format, set_all, total_entries, interface_entries, set_interfaces,
  system_entries, export_to_array, import_interface, import_interfaces,
}
use dnsmeter.SystemStat.Arrays.Imported.{
  IsFormat, lookup, IsAssocArray, value, known, interface_keys, get-set_all, below-set_all,
}

-- A map holds each name once.
abbrev pub IsMap : List Interface → Type 0
IsMap [] = Unit
IsMap (n ∷ ns) = (find n.name ns ≡ none) × IsMap ns

-- Counters of 64 bits.
abbrev pub IsWords : Network → Type 0
IsWords n = (n.bytes < 2 ^ 64) × (n.packets < 2 ^ 64) × (n.errs < 2 ^ 64) × (n.drop < 2 ^ 64)

module _ {Arr : Type 0} (arrays : AssocArray Arr) (format : Format) (plain : String → Bool)
    (law : IsAssocArray arrays format plain) (reads : IsFormat format) where
  -- The array that an interface is exported to.
  abbrev exported : Interface → Arr
  exported n = set_all arrays format arrays.empty (interface_entries arrays format n)

  field_of :
      (n : Interface) (q : String)
      → known interface_keys q ≡ true
      → arrays.get_string (exported n) q
        ≡ value arrays format plain law
            (interface_entries arrays format n)
            q
            (arrays.get_string arrays.empty q)
  field_of n q here =
      get-set_all arrays format plain law interface_keys arrays.empty
        (interface_entries arrays format n) q (inr refl)
        (refl, (refl, (refl, (refl, (refl, (refl, (refl, (refl, (refl, tt))))))))) here

  import_interface-exported :
      (n : Interface)
      → IsWords n.receive
      → IsWords n.transmit
      → import_interface arrays format n.name (exported n) ≡ n
  import_interface-exported n (a, b, c, d) (a', b', c', d') =
      let receive_bytes =
        ap format.to_unsigned_long (field_of n "receive/bytes" refl)
        ∙ reads.unsigned n.receive.bytes a in
      let receive_packets =
        ap format.to_unsigned_long (field_of n "receive/packets" refl)
        ∙ reads.unsigned n.receive.packets b in
      let receive_errs =
        ap format.to_unsigned_long (field_of n "receive/errs" refl)
        ∙ reads.unsigned n.receive.errs c in
      let receive_drop =
        ap format.to_unsigned_long (field_of n "receive/drop" refl)
        ∙ reads.unsigned n.receive.drop d in
      let transmit_bytes =
        ap format.to_unsigned_long (field_of n "transmit/bytes" refl)
        ∙ reads.unsigned n.transmit.bytes a' in
      let transmit_packets =
        ap format.to_unsigned_long (field_of n "transmit/packets" refl)
        ∙ reads.unsigned n.transmit.packets b' in
      let transmit_errs =
        ap format.to_unsigned_long (field_of n "transmit/errs" refl)
        ∙ reads.unsigned n.transmit.errs c' in
      let transmit_drop =
        ap format.to_unsigned_long (field_of n "transmit/drop" refl)
        ∙ reads.unsigned n.transmit.drop d' in
      λ i. record {
        name = n.name;
        receive = record {
          bytes = receive_bytes i;
          packets = receive_packets i;
          errs = receive_errs i;
          drop = receive_drop i;
        };
        transmit = record {
          bytes = transmit_bytes i;
          packets = transmit_packets i;
          errs = transmit_errs i;
          drop = transmit_drop i;
        };
      }

  -- The array under a name, after the interfaces of a list are exported.
  abbrev latest : List Interface → String → Option Arr → Option Arr
  latest [] m b = b
  latest (n ∷ ns) m b = latest ns m (if str_eq n.name m then some (exported n) else b)

  lookup-set_interfaces :
      (ns : List Interface) (a : Arr) (m : String)
      → All (λ (n : Interface). plain n.name ≡ true) ns
      → lookup arrays format m (arrays.get_arrays (set_interfaces arrays format a ns) "interface")
        ≡ latest ns m (lookup arrays format m (arrays.get_arrays a "interface"))
  unfolding set_interfaces
  lookup-set_interfaces [] a m names = refl
  lookup-set_interfaces (n ∷ ns) a m (name, names) =
      lookup-set_interfaces ns (arrays.set_array a (format.interface_key n.name) (exported n)) m
        names
      ∙ ap (latest ns m) (law.named a (exported n) n.name m name)

  latest-none :
      (ns : List Interface) (m : String) (b : Option Arr) → find m ns ≡ none → latest ns m b ≡ b
  latest-none [] m b e = refl
  latest-none (n ∷ ns) m b e = elim (Bool-cases (str_eq n.name m)) [
    | inl here ↦ absurd (some-none n (rw here at e))
    | inr other ↦ rw other (latest-none ns m b (rw other at e))
  ]

  latest-find :
      (ns : List Interface) (m : String)
      → IsMap ns
      → latest ns m none ≡ Option.map exported (find m ns)
  latest-find [] m map = refl
  latest-find (n ∷ ns) m (once, map) = elim (Bool-cases (str_eq n.name m)) [
    | inl here ↦
        let gone : find m ns ≡ none =
          ap (λ (x : String). find x ns) (sym ((eq_iff n.name m).0 here)) ∙ once in
        rw here (latest-none ns m (some (exported n)) gone)
    | inr other ↦ rw other (latest-find ns m map)
  ]

  find-import_interfaces-some :
      (rest : List (String × Arr)) (is : List Interface) (m : String) (i : Interface)
      → find m is ≡ some i
      → find m (import_interfaces arrays format rest is) ≡ some i
  unfolding import_interfaces
  find-import_interfaces-some [] is m i e = e
  find-import_interfaces-some ((k, a) ∷ rest) is m i e =
      find-import_interfaces-some rest (insert (import_interface arrays format k a) is) m i
        (find-insert m (import_interface arrays format k a) i is e)

  find-import_interfaces :
      (rest : List (String × Arr)) (is : List Interface) (m : String)
      → find m is ≡ none
      → find m (import_interfaces arrays format rest is)
        ≡ Option.map (import_interface arrays format m) (lookup arrays format m rest)
  unfolding import_interfaces
  find-import_interfaces [] is m e = e
  find-import_interfaces ((k, a) ∷ rest) is m e =
      let n = import_interface arrays format k a in
      let inserted = find-insert-none m n is e in
      elim (Bool-cases (str_eq k m)) [
        | inl here ↦ rw here (
            find-import_interfaces-some rest (insert n is) m n (rw here at inserted)
            ∙ ap (λ (x : String). some (import_interface arrays format x a)) ((eq_iff k m).0 here))
        | inr other ↦ rw other (find-import_interfaces rest (insert n is) m (rw other at inserted))
      ]

  -- What an interface that is found is imported as.
  import-find :
      (ns : List Interface) (m : String)
      → All (λ (n : Interface). IsWords n.receive × IsWords n.transmit) ns
      → Option.map (import_interface arrays format m) (Option.map exported (find m ns)) ≡ find m ns
  import-find [] m words = refl
  import-find (n ∷ ns) m ((receive, transmit), words) = elim (Bool-cases (str_eq n.name m)) [
    | inl here ↦ rw here (
        ap (λ (x : String). some (import_interface arrays format x (exported n)))
          (sym ((eq_iff n.name m).0 here))
        ∙ ap some (import_interface-exported n receive transmit))
    | inr other ↦ rw other (import-find ns m words)
  ]

  -- The interfaces of a map, exported to an array without any and imported into an empty map, are found as before.
  pub find-import_interfaces-export :
      (s : SystemStat) (a : Arr) (m : String)
      → lookup arrays format m (arrays.get_arrays a "interface") ≡ none
      → All (λ (n : Interface). plain n.name ≡ true) s.interfaces
      → All (λ (n : Interface). IsWords n.receive × IsWords n.transmit) s.interfaces
      → IsMap s.interfaces
      → find m (
          import_interfaces arrays format
            (arrays.get_arrays (export_to_array arrays format s a) "interface")
            [])
        ≡ find m s.interfaces
  unfolding export_to_array
  find-import_interfaces-export s a m free names words map =
      let first = set_all arrays format a (total_entries arrays format s) in
      let second = set_interfaces arrays format first s.interfaces in
      let tables = below-set_all arrays format plain law second (system_entries arrays format s) (
        refl,
        (
          refl,
          (
            refl,
            (refl, (refl, (refl, (refl, (refl, (refl, (refl, (refl, (refl, (refl, tt)))))))))),
          ),
        ),
      ) in
      let before =
        below-set_all arrays format plain law a (total_entries arrays format s)
          (refl, (refl, (refl, (refl, (refl, (refl, (refl, (refl, (refl, tt))))))))) in
      find-import_interfaces
        (arrays.get_arrays (set_all arrays format second (system_entries arrays format s))
          "interface")
        [] m refl
      ∙ ap
          (λ (rest : List (String × Arr)).
            Option.map (import_interface arrays format m) (lookup arrays format m rest))
          tables
      ∙ ap (Option.map (import_interface arrays format m)) (
          lookup-set_interfaces s.interfaces first m names
          ∙ ap (λ (rest : List (String × Arr)). latest s.interfaces m (lookup arrays format m rest))
              before
          ∙ ap (latest s.interfaces m) free
          ∙ latest-find s.interfaces m map)
      ∙ import-find s.interfaces m words
