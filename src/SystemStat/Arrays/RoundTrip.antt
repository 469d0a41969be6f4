-- ===== src/SystemStat/Arrays/RoundTrip.antt =====
-- src/system_stat.cpp: the round trip of a sample through an array.
use Prim.Native.String.{String}
use dnsmeter.Base.{◌≡◌, refl, ap, ◌∙◌, Bool, true, List, [], none, All}
use dnsmeter.SystemStat.{Interface, find}
use dnsmeter.SystemStat.Arrays.{
  SystemStat, AssocArray, Format, total_entries, system_entries, export_to_array, import_interfaces,
  import_from_array,
}
use dnsmeter.SystemStat.Arrays.Imported.{
  IsInt, IsLong, IsFormat, lookup, IsAssocArray, value, known, keys, get-export,
}
use dnsmeter.SystemStat.Arrays.Interfaces.{IsMap, IsWords, find-import_interfaces-export}

-- A sample whose numbers fit their types, and whose interfaces are a map with names without a separator.
pub record IsSample (plain : String → Bool) (s : SystemStat) : Type 0 where
  pub receive : IsWords s.net_total.receive
  pub transmit : IsWords s.net_total.transmit
  pub user : IsInt s.cpu.user
  pub nice : IsInt s.cpu.nice
  pub system : IsInt s.cpu.system
  pub idle : IsInt s.cpu.idle
  pub iowait : IsInt s.cpu.iowait
  pub uptime : IsLong s.sysinfo.uptime
  pub freeswap : IsLong s.sysinfo.freeswap
  pub totalswap : IsLong s.sysinfo.totalswap
  pub freeram : IsLong s.sysinfo.freeram
  pub bufferram : IsLong s.sysinfo.bufferram
  pub totalram : IsLong s.sysinfo.totalram
  pub sharedram : IsLong s.sysinfo.sharedram
  pub procs : IsInt s.sysinfo.procs
  pub names : All (λ (n : Interface). plain n.name ≡ true) s.interfaces
  pub words : All (λ (n : Interface). IsWords n.receive × IsWords n.transmit) s.interfaces
  pub map : IsMap s.interfaces

-- The same sample, but for the name of the total, with the same interface under each name.
pub record IsSame (s t : SystemStat) : Type 0 where
  pub sample_time : t.sample_time ≡ s.sample_time
  pub receive : t.net_total.receive ≡ s.net_total.receive
  pub transmit : t.net_total.transmit ≡ s.net_total.transmit
  pub cpu : t.cpu ≡ s.cpu
  pub sysinfo : t.sysinfo ≡ s.sysinfo
  pub interfaces : (m : String) → find m t.interfaces ≡ find m s.interfaces

module _ {Arr : Type 0} (arrays : AssocArray Arr) (format : Format) (plain : String → Bool)
    (law : IsAssocArray arrays format plain) (reads : IsFormat format) (s : SystemStat) (a : Arr)
    (sample : IsSample plain s) where
  abbrev written : String → String
  written q = arrays.get_string (export_to_array arrays format s a) q

  -- The string under a key, whatever was there before.
  exported :
      (q : String)
      → known keys q ≡ true
      → written q
        ≡ value arrays format plain law (system_entries arrays format s) q (
            value arrays format plain law (total_entries arrays format s) q (arrays.get_string a q))
  exported q here = get-export arrays format plain law s a q here

  total_receive :
      (t : SystemStat)
      → (import_from_array arrays format t (export_to_array arrays format s a)).net_total.receive
        ≡ s.net_total.receive
  unfolding import_from_array
  total_receive t =
      let (bytes, packets, errs, drop) = sample.receive in
      let bytes_path =
        ap format.to_unsigned_long (exported "net_total/receive/bytes" refl)
        ∙ reads.unsigned s.net_total.receive.bytes bytes in
      let packets_path =
        ap format.to_unsigned_long (exported "net_total/receive/packets" refl)
        ∙ reads.unsigned s.net_total.receive.packets packets in
      let errs_path =
        ap format.to_unsigned_long (exported "net_total/receive/errs" refl)
        ∙ reads.unsigned s.net_total.receive.errs errs in
      let drop_path =
        ap format.to_unsigned_long (exported "net_total/receive/drop" refl)
        ∙ reads.unsigned s.net_total.receive.drop drop in
      λ i. record {
        bytes = bytes_path i;
        packets = packets_path i;
        errs = errs_path i;
        drop = drop_path i;
      }

  total_transmit :
      (t : SystemStat)
      → (import_from_array arrays format t (export_to_array arrays format s a)).net_total.transmit
        ≡ s.net_total.transmit
  unfolding import_from_array
  total_transmit t =
      let (bytes, packets, errs, drop) = sample.transmit in
      let bytes_path =
        ap format.to_unsigned_long (exported "net_total/transmit/bytes" refl)
        ∙ reads.unsigned s.net_total.transmit.bytes bytes in
      let packets_path =
        ap format.to_unsigned_long (exported "net_total/transmit/packets" refl)
        ∙ reads.unsigned s.net_total.transmit.packets packets in
      let errs_path =
        ap format.to_unsigned_long (exported "net_total/transmit/errs" refl)
        ∙ reads.unsigned s.net_total.transmit.errs errs in
      let drop_path =
        ap format.to_unsigned_long (exported "net_total/transmit/drop" refl)
        ∙ reads.unsigned s.net_total.transmit.drop drop in
      λ i. record {
        bytes = bytes_path i;
        packets = packets_path i;
        errs = errs_path i;
        drop = drop_path i;
      }

  same_cpu :
      (t : SystemStat)
      → (import_from_array arrays format t (export_to_array arrays format s a)).cpu ≡ s.cpu
  unfolding import_from_array
  same_cpu t =
      let user_path =
        ap format.to_int (exported "cpu/user" refl) ∙ reads.int s.cpu.user sample.user in
      let nice_path =
        ap format.to_int (exported "cpu/nice" refl) ∙ reads.int s.cpu.nice sample.nice in
      let system_path =
        ap format.to_int (exported "cpu/system" refl) ∙ reads.int s.cpu.system sample.system in
      let idle_path =
        ap format.to_int (exported "cpu/idle" refl) ∙ reads.int s.cpu.idle sample.idle in
      let iowait_path =
        ap format.to_int (exported "cpu/iowait" refl) ∙ reads.int s.cpu.iowait sample.iowait in
      λ i. record {
        user = user_path i;
        nice = nice_path i;
        system = system_path i;
        idle = idle_path i;
        iowait = iowait_path i;
      }

  same_sysinfo :
      (t : SystemStat)
      → (import_from_array arrays format t (export_to_array arrays format s a)).sysinfo ≡ s.sysinfo
  unfolding import_from_array
  same_sysinfo t =
      let uptime_path =
        ap format.to_long (exported "sysinfo/uptime" refl)
        ∙ reads.long s.sysinfo.uptime sample.uptime in
      let freeswap_path =
        ap format.to_long (exported "sysinfo/freeswap" refl)
        ∙ reads.long s.sysinfo.freeswap sample.freeswap in
      let totalswap_path =
        ap format.to_long (exported "sysinfo/totalswap" refl)
        ∙ reads.long s.sysinfo.totalswap sample.totalswap in
      let freeram_path =
        ap format.to_long (exported "sysinfo/freeram" refl)
        ∙ reads.long s.sysinfo.freeram sample.freeram in
      let bufferram_path =
        ap format.to_long (exported "sysinfo/bufferram" refl)
        ∙ reads.long s.sysinfo.bufferram sample.bufferram in
      let totalram_path =
        ap format.to_long (exported "sysinfo/totalram" refl)
        ∙ reads.long s.sysinfo.totalram sample.totalram in
      let sharedram_path =
        ap format.to_long (exported "sysinfo/sharedram" refl)
        ∙ reads.long s.sysinfo.sharedram sample.sharedram in
      let procs_path =
        ap format.to_int (exported "sysinfo/procs" refl) ∙ reads.int s.sysinfo.procs sample.procs in
      λ i. record {
        uptime = uptime_path i;
        freeswap = freeswap_path i;
        totalswap = totalswap_path i;
        freeram = freeram_path i;
        bufferram = bufferram_path i;
        totalram = totalram_path i;
        sharedram = sharedram_path i;
        procs = procs_path i;
      }

  -- What `exportToArray` has put into an array without interfaces is read back by `importFromArray`, into a sample
  -- without interfaces, as the same sample, where the numbers fit their types, the interfaces have names without
  -- a separator, each once, and arrays and formats behave as documented.
  pub import_from_array-export_to_array :
      (t : SystemStat)
      → t.interfaces ≡ []
      → ((m : String) → lookup arrays format m (arrays.get_arrays a "interface") ≡ none)
      → IsSame s (import_from_array arrays format t (export_to_array arrays format s a))
  unfolding import_from_array
  import_from_array-export_to_array t empty free = record {
    sample_time = ap format.to_double (exported "sampleTime" refl) ∙ reads.double s.sample_time;
    receive = total_receive t;
    transmit = total_transmit t;
    cpu = same_cpu t;
    sysinfo = same_sysinfo t;
    interfaces = λ m.
        ap
          (λ (is : List Interface). find m (
            import_interfaces arrays format
              (arrays.get_arrays (export_to_array arrays format s a) "interface") is))
          empty
        ∙ find-import_interfaces-export arrays format plain law reads s a m (free m) sample.names
            sample.words sample.map;
  }
