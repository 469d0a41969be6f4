-- ===== src/SystemStat/Arrays.antt =====
-- src/system_stat.cpp: `exportToArray` and `importFromArray`. The arrays of pplib and its formats are parameters;
-- a sample's time is in whole microseconds, as it is printed.
pub mod Imported
pub mod Interfaces
pub mod RoundTrip
mod Tests
use Prim.Native.String.{String}
use text.Mathlib.Text.{◌==◌ as str_eq}
use dnsmeter.Base.{ℤ, ℕ, List, [], ◌∷◌}
use dnsmeter.SystemStat.{Network, Interface, insert}

pub record Cpu : Type 0 where
  pub user : ℤ
  pub nice : ℤ
  pub system : ℤ
  pub idle : ℤ
  pub iowait : ℤ

pub record Sysinfo : Type 0 where
  pub uptime : ℤ
  pub freeswap : ℤ
  pub totalswap : ℤ
  pub freeram : ℤ
  pub bufferram : ℤ
  pub totalram : ℤ
  pub sharedram : ℤ
  pub procs : ℤ

pub record SystemStat : Type 0 where
  pub sample_time : ℕ
  pub cpu : Cpu
  pub sysinfo : Sysinfo
  pub net_total : Interface
  pub interfaces : List Interface

-- `ppl7::AssocArray`. `get_arrays` has the keys and arrays that an iterator over `getAssocArray` gives.
pub record AssocArray (Arr : Type 0) : Type 0 where
  pub empty : Arr
  pub set_string : Arr → String → String → Arr
  pub get_string : Arr → String → String
  pub set_array : Arr → String → Arr → Arr
  pub get_arrays : Arr → String → List (String × Arr)

-- The formats of `setf`, and the conversions back.
pub record Format : Type 0 where
  pub f6 : ℕ → String
  pub lu : ℕ → String
  pub d : ℤ → String
  pub ld : ℤ → String
  -- `"interface/%s"`
  pub interface_key : String → String
  pub to_double : String → ℕ
  pub to_unsigned_long : String → ℕ
  pub to_int : String → ℤ
  pub to_long : String → ℤ

module _ {Arr : Type 0} (arrays : AssocArray Arr) (format : Format) where
  -- Calls of `setf` one after the other.
  unfoldable pub set_all : Arr → List (String × String) → Arr
  set_all a [] = a
  set_all a ((key, text) ∷ entries) = set_all (arrays.set_string a key text) entries

  abbrev pub total_entries : SystemStat → List (String × String)
  total_entries s =
      ("sampleTime", format.f6 s.sample_time)
      ∷ ("net_total/receive/bytes", format.lu s.net_total.receive.bytes)
      ∷ ("net_total/receive/packets", format.lu s.net_total.receive.packets)
      ∷ ("net_total/receive/errs", format.lu s.net_total.receive.errs)
      ∷ ("net_total/receive/drop", format.lu s.net_total.receive.drop)
      ∷ ("net_total/transmit/bytes", format.lu s.net_total.transmit.bytes)
      ∷ ("net_total/transmit/packets", format.lu s.net_total.transmit.packets)
      ∷ ("net_total/transmit/errs", format.lu s.net_total.transmit.errs)
      ∷ ("net_total/transmit/drop", format.lu s.net_total.transmit.drop)
      ∷ []

  abbrev pub interface_entries : Interface → List (String × String)
  interface_entries n =
      ("receive/bytes", format.lu n.receive.bytes)
      ∷ ("receive/packets", format.lu n.receive.packets)
      ∷ ("receive/errs", format.lu n.receive.errs)
      ∷ ("receive/drop", format.lu n.receive.drop)
      ∷ ("transmit/bytes", format.lu n.transmit.bytes)
      ∷ ("transmit/packets", format.lu n.transmit.packets)
      ∷ ("transmit/errs", format.lu n.transmit.errs)
      ∷ ("transmit/drop", format.lu n.transmit.drop)
      ∷ ("name", n.name)
      ∷ []

  -- The loop of `exportToArray`.
  unfoldable pub set_interfaces : Arr → List Interface → Arr
  set_interfaces a [] = a
  set_interfaces a (n ∷ ns) =
      set_interfaces
        (arrays.set_array a (format.interface_key n.name)
          (set_all arrays.empty (interface_entries n)))
        ns

  abbrev pub system_entries : SystemStat → List (String × String)
  system_entries s =
      ("cpu/user", format.d s.cpu.user)
      ∷ ("cpu/nice", format.d s.cpu.nice)
      ∷ ("cpu/system", format.d s.cpu.system)
      ∷ ("cpu/idle", format.d s.cpu.idle)
      ∷ ("cpu/iowait", format.d s.cpu.iowait)
      ∷ ("sysinfo/uptime", format.ld s.sysinfo.uptime)
      ∷ ("sysinfo/freeswap", format.ld s.sysinfo.freeswap)
      ∷ ("sysinfo/totalswap", format.ld s.sysinfo.totalswap)
      ∷ ("sysinfo/freeram", format.ld s.sysinfo.freeram)
      ∷ ("sysinfo/bufferram", format.ld s.sysinfo.bufferram)
      ∷ ("sysinfo/totalram", format.ld s.sysinfo.totalram)
      ∷ ("sysinfo/sharedram", format.ld s.sysinfo.sharedram)
      ∷ ("sysinfo/procs", format.d s.sysinfo.procs)
      ∷ []

  unfoldable pub export_to_array : SystemStat → Arr → Arr
  export_to_array s arr =
      set_all (set_interfaces (set_all arr (total_entries s)) s.interfaces) (system_entries s)

  abbrev pub get_unsigned : Arr → String → ℕ
  get_unsigned arr key = format.to_unsigned_long (arrays.get_string arr key)

  abbrev pub import_interface : String → Arr → Interface
  import_interface key arr = record {
    name = key;
    receive = record {
      bytes = get_unsigned arr "receive/bytes";
      packets = get_unsigned arr "receive/packets";
      errs = get_unsigned arr "receive/errs";
      drop = get_unsigned arr "receive/drop";
    };
    transmit = record {
      bytes = get_unsigned arr "transmit/bytes";
      packets = get_unsigned arr "transmit/packets";
      errs = get_unsigned arr "transmit/errs";
      drop = get_unsigned arr "transmit/drop";
    };
  }

  -- The loop of `importFromArray`.
  unfoldable pub import_interfaces : List (String × Arr) → List Interface → List Interface
  import_interfaces [] is = is
  import_interfaces ((key, arr) ∷ rest) is =
      import_interfaces rest (insert (import_interface key arr) is)

  -- `importFromArray`, into a sample that may hold something.
  unfoldable pub import_from_array : SystemStat → Arr → SystemStat
  import_from_array s arr = record {
    sample_time = format.to_double (arrays.get_string arr "sampleTime");
    net_total = record {
      name = s.net_total.name;
      receive = record {
        bytes = get_unsigned arr "net_total/receive/bytes";
        packets = get_unsigned arr "net_total/receive/packets";
        errs = get_unsigned arr "net_total/receive/errs";
        drop = get_unsigned arr "net_total/receive/drop";
      };
      transmit = record {
        bytes = get_unsigned arr "net_total/transmit/bytes";
        packets = get_unsigned arr "net_total/transmit/packets";
        errs = get_unsigned arr "net_total/transmit/errs";
        drop = get_unsigned arr "net_total/transmit/drop";
      };
    };
    interfaces = import_interfaces (arrays.get_arrays arr "interface") s.interfaces;
    cpu = record {
      user = format.to_int (arrays.get_string arr "cpu/user");
      nice = format.to_int (arrays.get_string arr "cpu/nice");
      system = format.to_int (arrays.get_string arr "cpu/system");
      idle = format.to_int (arrays.get_string arr "cpu/idle");
      iowait = format.to_int (arrays.get_string arr "cpu/iowait");
    };
    sysinfo = record {
      uptime = format.to_long (arrays.get_string arr "sysinfo/uptime");
      freeswap = format.to_long (arrays.get_string arr "sysinfo/freeswap");
      totalswap = format.to_long (arrays.get_string arr "sysinfo/totalswap");
      freeram = format.to_long (arrays.get_string arr "sysinfo/freeram");
      bufferram = format.to_long (arrays.get_string arr "sysinfo/bufferram");
      totalram = format.to_long (arrays.get_string arr "sysinfo/totalram");
      sharedram = format.to_long (arrays.get_string arr "sysinfo/sharedram");
      procs = format.to_int (arrays.get_string arr "sysinfo/procs");
    };
  }
