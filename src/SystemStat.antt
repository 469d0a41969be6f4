-- ===== src/SystemStat.antt =====
-- src/system_stat.cpp: the counters of the network interfaces, and their differences. The lines of
-- `/proc/net/dev` come read, as interfaces.
pub mod Arrays
pub mod Lines
pub mod Delta
pub mod Sample
pub mod Samplers
mod Tests
use Prim.Native.String.{String}
use text.Mathlib.Text.{◌==◌ as str_eq}
use dnsmeter.Base.{ℕ, ◌+◌, ◌-◌, ◌^◌, List, [], ◌∷◌, Option, none, some, leb, if◌then◌else◌, u64}

-- `SystemStat::Network`, of 64-bit words.
pub record Network : Type 0 where
  pub bytes : ℕ
  pub packets : ℕ
  pub errs : ℕ
  pub drop : ℕ

abbrev pub clear : Network → Network
clear n = record { bytes = 0; packets = 0; errs = 0; drop = 0 }

pub record Interface : Type 0 where
  pub name : String
  pub receive : Network
  pub transmit : Network

-- `ULONG_MAX - sample1 + sample2` where the counter has wrapped.
unfoldable pub delta_with_overflow : ℕ → ℕ → ℕ
delta_with_overflow sample1 sample2 =
    if leb sample1 sample2 then sample2 - sample1 else u64 (2 ^ 64 - 1 - sample1 + sample2)

unfoldable pub get_delta : Network → Network → Network
get_delta sample1 sample2 = record {
  bytes = delta_with_overflow sample1.bytes sample2.bytes;
  packets = delta_with_overflow sample1.packets sample2.packets;
  errs = delta_with_overflow sample1.errs sample2.errs;
  drop = delta_with_overflow sample1.drop sample2.drop;
}

-- `std::map<String, Interface>`, and its `find` and `insert`. `insert` leaves a key that is there as it is.
abbrev pub find : String → List Interface → Option Interface
find name [] = none
find name (i ∷ is) = let later = find name is in if str_eq i.name name then some i else later

abbrev pub insert : Interface → List Interface → List Interface
insert n [] = n ∷ []
insert n (i ∷ is) = let later = insert n is in if str_eq i.name n.name then i ∷ is else i ∷ later

-- `+=` on each counter.
unfoldable pub add_network : Network → Network → Network
add_network a b = record {
  bytes = u64 (a.bytes + b.bytes);
  packets = u64 (a.packets + b.packets);
  errs = u64 (a.errs + b.errs);
  drop = u64 (a.drop + b.drop);
}

-- The loop of `sampleNetwork` over the interfaces that the file names: the map, and the totals of what is
-- received and transmitted.
unfoldable pub sample_lines :
    List Interface → List Interface → Network → Network → List Interface × Network × Network
sample_lines [] interfaces receive transmit = (interfaces, receive, transmit)
sample_lines (n ∷ ns) interfaces receive transmit =
    sample_lines ns (insert n interfaces) (add_network receive n.receive)
      (add_network transmit n.transmit)

-- `sampleNetwork`, as it is compiled for Linux.
unfoldable pub sample_network :
    List Interface → List Interface → Network → Network → List Interface × Network × Network
sample_network ns interfaces receive transmit =
    sample_lines ns interfaces (clear receive) (clear transmit)
