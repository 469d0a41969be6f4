-- ===== src/SystemStat/Samplers.antt =====
-- src/system_stat.cpp: the samplers of Linux for the processors and the memory, that of FreeBSD for the network,
-- and `sampleSensorData` on Linux. What the system calls give comes from outside.
use dnsmeter.Base.{
  ℤ, pos, negsuc, ℕ, ◌-◌, ◌*◌, ◌^◌, ◌≡◌, refl, Bool, List, [], ◌∷◌, Option, none, some, ltb,
  if◌then◌else◌, Bool-cases, inl, inr, u64,
}
use Prim.Native.String.{String}
use dnsmeter.Exceptions.{Result, ok, throw, system_call_failed}
use dnsmeter.SystemStat.{
  Network, Interface, clear, find, insert, add_network, sample_lines, sample_network,
}
use dnsmeter.SystemStat.Sample.{sample_network-stale}
use dnsmeter.SystemStat.Arrays.{Cpu, Sysinfo, SystemStat}

-- `sampleCpuUsage`: `fscanf` has read these numbers, at most five, and leaves the other fields as they are.
unfoldable pub sample_cpu_usage : List ℤ → Cpu → Cpu
sample_cpu_usage [] c = c
sample_cpu_usage (u ∷ []) c = record c { user = u }
sample_cpu_usage (u ∷ n ∷ []) c = record c { user = u; nice = n }
sample_cpu_usage (u ∷ n ∷ s ∷ []) c = record c { user = u; nice = n; system = s }
sample_cpu_usage (u ∷ n ∷ s ∷ i ∷ []) c = record c { user = u; nice = n; system = s; idle = i }
sample_cpu_usage (u ∷ n ∷ s ∷ i ∷ w ∷ more) c = record {
  user = u;
  nice = n;
  system = s;
  idle = i;
  iowait = w;
}

-- `struct sysinfo`
pub record Info : Type 0 where
  pub uptime : ℤ
  pub freeswap : ℕ
  pub freeram : ℕ
  pub bufferram : ℕ
  pub totalram : ℕ
  pub totalswap : ℕ
  pub sharedram : ℕ
  pub procs : ℕ
  pub mem_unit : ℕ

-- An `unsigned long` as a `long`.
abbrev pub as_long : ℕ → ℤ
as_long n = if ltb n (2 ^ 63) then pos n else negsuc (2 ^ 64 - 1 - n)

-- `sampleSysinfo`. `none` is a call of `sysinfo` that fails.
unfoldable pub sample_sysinfo : Option Info → Sysinfo → Sysinfo
sample_sysinfo none s = s
sample_sysinfo (some info) s = record {
  uptime = info.uptime;
  freeswap = as_long (u64 (info.freeswap * info.mem_unit));
  totalswap = as_long (u64 (info.totalswap * info.mem_unit));
  freeram = as_long (u64 (info.freeram * info.mem_unit));
  bufferram = as_long (u64 (info.bufferram * info.mem_unit));
  totalram = as_long (u64 (info.totalram * info.mem_unit));
  sharedram = as_long (u64 (info.sharedram * info.mem_unit));
  procs = pos info.procs;
}

-- What `sampleSensorData` meets: the clock, and what the three samplers read. The lines of `/proc/net/dev` come
-- as interfaces.
pub record Sensors : Type 0 where
  pub microtime : ℕ
  pub scanned : List ℤ
  pub info : Option Info
  pub lines : List Interface

-- `sampleSensorData`, as it is compiled for Linux.
unfoldable pub sample_sensor_data : Sensors → SystemStat → SystemStat
sample_sensor_data m stat =
    let (interfaces, receive, transmit) =
      sample_network m.lines stat.interfaces stat.net_total.receive stat.net_total.transmit in
    record {
      sample_time = m.microtime;
      cpu = sample_cpu_usage m.scanned stat.cpu;
      sysinfo = sample_sysinfo m.info stat.sysinfo;
      net_total = record stat.net_total { receive = receive; transmit = transmit };
      interfaces = interfaces;
    }

-- An entry of `getifaddrs`: whether its family is `AF_LINK`, and then its name and counters.
pub record IfAddr : Type 0 where
  pub is_link : Bool
  pub interface : Interface

-- The loop of `sampleNetwork` of FreeBSD.
unfoldable pub sample_addresses :
    List IfAddr → List Interface → Network → Network → List Interface × Network × Network
sample_addresses [] interfaces receive transmit = (interfaces, receive, transmit)
sample_addresses (a ∷ rest) interfaces receive transmit =
    let n = a.interface in
    let counted =
      sample_addresses rest (insert n interfaces) (add_network receive n.receive)
        (add_network transmit n.transmit) in
    let skipped = sample_addresses rest interfaces receive transmit in
    if a.is_link then counted else skipped

-- `sampleNetwork`, as it is compiled for FreeBSD, with the map and the totals also where it throws. `none` is a
-- call of `getifaddrs` that fails.
unfoldable pub sample_network_bsd :
    Option (List IfAddr)
    → List Interface
    → Network
    → Network
    → Result (Unit {0}) × List Interface × Network × Network
sample_network_bsd none interfaces receive transmit =
    (throw system_call_failed, interfaces, clear receive, clear transmit)
sample_network_bsd (some addresses) interfaces receive transmit =
    let (interfaces, receive, transmit) =
      sample_addresses addresses interfaces (clear receive) (clear transmit) in
    (ok tt, interfaces, receive, transmit)

-- The interfaces of the entries of the family `AF_LINK`.
abbrev pub links : List IfAddr → List Interface
links [] = []
links (a ∷ rest) = let later = links rest in if a.is_link then a.interface ∷ later else later

sample_addresses-links :
    (addresses : List IfAddr) (is : List Interface) (receive transmit : Network)
    → sample_addresses addresses is receive transmit
      ≡ sample_lines (links addresses) is receive transmit
unfolding sample_addresses sample_lines
sample_addresses-links [] is receive transmit = refl
sample_addresses-links (a ∷ rest) is receive transmit =
    let n = a.interface in
    let counted =
      sample_addresses-links rest (insert n is) (add_network receive n.receive)
        (add_network transmit n.transmit) in
    let skipped = sample_addresses-links rest is receive transmit in
    elim (Bool-cases a.is_link) [
      | inl link ↦ rw (link, sample_addresses, links) counted
      | inr other ↦ rw (other, sample_addresses, links) skipped
    ]

-- On FreeBSD the network is sampled as on Linux, from the interfaces among the addresses.
sample_network_bsd-links :
    (addresses : List IfAddr) (is : List Interface) (receive transmit : Network)
    → let (js, r, t) = sample_network (links addresses) is receive transmit in
      sample_network_bsd (some addresses) is receive transmit ≡ (ok tt, js, r, t)
unfolding sample_network_bsd sample_network
sample_network_bsd-links addresses is receive transmit =
    rw (sample_addresses-links addresses is (clear receive) (clear transmit)) refl

-- A sample of a `SystemStat` that has an interface leaves its counters as they are, whatever the system says.
sample_sensor_data-stale :
    (m : Sensors) (stat : SystemStat) (name : String) (i : Interface)
    → find name stat.interfaces ≡ some i
    → find name (sample_sensor_data m stat).interfaces ≡ some i
unfolding sample_sensor_data
sample_sensor_data-stale m stat name i e =
    sample_network-stale name i m.lines stat.interfaces stat.net_total.receive
      stat.net_total.transmit e
