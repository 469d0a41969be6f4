-- ===== src/SystemStat/Lines.antt =====
-- src/system_stat.cpp: the lines of `/proc/net/dev` that `sampleNetwork` reads, and the load of the processors.
use Prim.Native.String.{String}
use dnsmeter.Base.{
  ℤ, pos, ◌-ℤ◌, pos_part, neg_part, ltb_ℤ, ℕ, ◌+◌, ◌*◌, List, [], ◌∷◌, if◌then◌else◌,
}
use dnsmeter.SystemStat.{Network, Interface, sample_network}
use dnsmeter.SystemStat.Arrays.{Cpu}

-- What the reading of a line takes from pplib; `instr` is -1 where there is nothing, and `get` is `operator[]`.
pub record LineLibrary : Type 0 where
  pub trim : String → String
  pub instr : String → String → ℤ
  -- `set(text, length)`
  pub set : String → ℕ → String
  pub replace : String → String → String → String
  pub str_tok : String → String → List String
  pub get : List String → ℕ → String
  pub to_unsigned_long : String → ℕ

module _ (lib : LineLibrary) where
  -- The interface of a trimmed line with the colon at `t`.
  unfoldable pub read_interface : String → ℕ → Interface
  read_interface buffer t =
      let tok = lib.str_tok (lib.replace buffer "\t" " ") " " in
      record {
        name = lib.set buffer t;
        receive = record {
          bytes = lib.to_unsigned_long (lib.get tok 1);
          packets = lib.to_unsigned_long (lib.get tok 2);
          errs = lib.to_unsigned_long (lib.get tok 3);
          drop = lib.to_unsigned_long (lib.get tok 4);
        };
        transmit = record {
          bytes = lib.to_unsigned_long (lib.get tok 9);
          packets = lib.to_unsigned_long (lib.get tok 10);
          errs = lib.to_unsigned_long (lib.get tok 11);
          drop = lib.to_unsigned_long (lib.get tok 12);
        };
      }

  unfoldable pub read_lines : List String → List Interface
  read_lines [] = []
  read_lines (line ∷ lines) =
      let buffer = lib.trim line in
      let t = lib.instr buffer ":" in
      let rest = read_lines lines in
      if ltb_ℤ (pos 1) t then read_interface buffer (pos_part t) ∷ rest else rest

  -- `sampleNetwork` on the lines of the file.
  unfoldable pub sample_network_file :
      List String → List Interface → Network → Network → List Interface × Network × Network
  sample_network_file lines = sample_network (read_lines lines)

abbrev add_ℤ : ℤ → ℤ → ℤ
add_ℤ a b = (pos (pos_part a + pos_part b)) -ℤ (pos (neg_part a + neg_part b))

-- `Cpu::getUsage`: the dividend and the divisor of a percentage, where no sum leaves the range of an `int`.
unfoldable pub get_usage : Cpu → Cpu → ℤ × ℤ
get_usage sample1 sample2 =
    let busy = λ (c : Cpu). add_ℤ (add_ℤ c.user c.nice) c.system in
    let all = λ (c : Cpu). add_ℤ (busy c) c.idle in
    let used = busy sample2 -ℤ busy sample1 in
    (pos (100 * pos_part used) -ℤ pos (100 * neg_part used), all sample2 -ℤ all sample1)
