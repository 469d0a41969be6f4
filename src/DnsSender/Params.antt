-- ===== src/DnsSender/Params.antt =====
-- src/dns_sender.cpp: the command line. An `int` is an integer; its bound is that of `toInt`, a parameter.
pub mod Steps
pub mod Accepted
mod Tests
use Prim.Native.String.{String}
use text.Mathlib.Text.{◌==◌ as str_eq}
use dnsmeter.Base.{
  ℕ, suc, ℤ, pos, negsuc, ltb_ℤ, is_zero, Bool, true, false, not, ◌&&◌, ◌||◌, List, [], ◌∷◌, Option,
  none, some, map, if◌then◌else◌,
}
use dnsmeter.Exceptions.{
  Result, ok, throw, ◌>>=◌, missing_commandline_parameter, invalid_commandline_parameter,
  unsupported_ip_family,
}
use dnsmeter.RawSocketSender.{IpAddress}
use dnsmeter.DnsSenderThread.{Ratio}
use dnsmeter.DnsSender.{range_loop}

-- `ppl7::HaveArgv` and `ppl7::GetArgv` on the command line.
pub record CommandLine : Type 0 where
  pub have_argv : String → Bool
  pub get_argv : String → String

-- `ppl7::IPNetwork`: its family, first address and length of the prefix.
pub record IpNetwork : Type 0 where
  pub is_ipv4 : Bool
  pub first : ℕ
  pub prefixlen : ℕ

-- What the command line takes from pplib.
pub record Library : Type 0 where
  pub explode : String → String → List String
  pub to_lower_case : String → String
  pub to_int : String → ℤ
  pub get_host_by_name : String → Result (List IpAddress)
  -- `IPNetwork::set`
  pub set_network : String → Result IpNetwork
  -- `pregMatch` with the pattern of a range, and the three numbers that it finds
  pub match_range : String → Option (ℕ × ℕ × ℕ)
  -- `addf("%llu", i)`
  pub print_llu : ℕ → String

-- The parameters that a `DNSSender` keeps.
pub record DnsSender : Type 0 where
  pub target_ip : IpAddress
  pub source_ip : IpAddress
  pub source_net : IpNetwork
  pub csv_file_name : String
  pub query_filename : String
  pub rates : List String
  pub interface_name : String
  pub target_port : ℤ
  pub runtime : ℤ
  pub timeout : ℤ
  pub thread_count : ℤ
  pub dnssec_rate : ℤ
  pub timeslices : Ratio
  pub ignore_responses : Bool
  pub spoofing_enabled : Bool
  pub spoof_from_pcap : Bool

-- The constructor.
abbrev pub new_dns_sender : DnsSender
new_dns_sender = record {
  target_ip = record { is_ipv4 = false; addr = 0 };
  source_ip = record { is_ipv4 = false; addr = 0 };
  source_net = record { is_ipv4 = false; first = 0; prefixlen = 0 };
  csv_file_name = "";
  query_filename = "";
  rates = [];
  interface_name = "";
  target_port = pos 53;
  runtime = pos 10;
  timeout = pos 2;
  thread_count = pos 1;
  dnssec_rate = pos 0;
  timeslices = record { num = 1; den = 1 };
  ignore_responses = false;
  spoofing_enabled = false;
  spoof_from_pcap = false;
}

-- What `getParameter` gives: it returns 1 after the help, its loop over a range does not end within the
-- fuel, or it returns 0.
pub data Parsed : Type 0 where
  usage : Parsed
  endless : Parsed
  parsed : DnsSender → Parsed

-- `if (!value) value = default;`
abbrev pub or_default : ℤ → ℤ → ℤ
or_default value default = if is_zero value then default else value

-- `Result.front()`, where `GetHostByName` has found an address.
unfoldable pub front_address : Result (List IpAddress) → Result IpAddress
front_address (ok (ip ∷ ips)) = ok ip
front_address (ok []) = throw invalid_commandline_parameter
front_address (throw e) = throw e

module _ (lib : Library) (args : CommandLine) where
  -- `getQueryRates`, on fuel for the range.
  unfoldable pub get_query_rates : ℕ → String → Option (List String)
  get_query_rates fuel query_rates =
      if str_eq query_rates "" then some ("0" ∷ []) else elim (lib.match_range query_rates) [
        | none ↦ some (lib.explode query_rates ",")
        | some (first, last, step) ↦ elim (range_loop fuel first last step) [
          | none ↦ none
          | some rates ↦ some (map lib.print_llu rates)
        ]
      ]

  -- The host and the port that `-z` names.
  unfoldable pub target_tokens : List String → Result (String × ℤ)
  target_tokens (host ∷ []) = ok (host, pos 53)
  target_tokens (host ∷ port ∷ []) = ok (host, lib.to_int port)
  target_tokens _ = throw invalid_commandline_parameter

  unfoldable pub get_target : DnsSender → Result DnsSender
  get_target s = if not (args.have_argv "-z") then throw missing_commandline_parameter else do
    (host, port) ← target_tokens (lib.explode (args.get_argv "-z") ":")
    ip ←
        if ltb_ℤ port (pos 1) || ltb_ℤ (pos 65535) port
        then throw invalid_commandline_parameter
        else front_address (lib.get_host_by_name host)
    ok (record s { target_port = port; target_ip = ip })

  unfoldable pub get_source : DnsSender → Result DnsSender
  get_source s =
      if args.have_argv "-s"
      then (let tmp = lib.to_lower_case (args.get_argv "-s") in
          if str_eq tmp "pcap"
          then ok (record s { spoof_from_pcap = true; spoofing_enabled = true })
          else lib.set_network tmp >>= λ net.
              if net.is_ipv4
              then ok (record s { source_net = net; spoofing_enabled = true })
              else throw unsupported_ip_family)
      else front_address (lib.get_host_by_name (args.get_argv "-q")) >>= λ ip.
          if ip.is_ipv4
          then ok (record s { source_ip = ip; spoofing_enabled = false })
          else throw unsupported_ip_family

  -- `getParameter` from the numbers on.
  unfoldable pub get_numbers : ℕ → DnsSender → Parsed
  get_numbers fuel s =
      let dnssec_rate =
        if args.have_argv "-d" then lib.to_int (args.get_argv "-d") else s.dnssec_rate in
      let rates = get_query_rates fuel (args.get_argv "-r") in
      if args.have_argv "-d" && (ltb_ℤ dnssec_rate (pos 0) || ltb_ℤ (pos 100) dnssec_rate)
      then usage
      else if str_eq (args.get_argv "-p") ""
      then usage
      else elim rates [
        | none ↦ endless
        | some rs ↦ parsed (record s {
          runtime = or_default (lib.to_int (args.get_argv "-l")) (pos 10);
          timeout = or_default (lib.to_int (args.get_argv "-t")) (pos 2);
          thread_count = or_default (lib.to_int (args.get_argv "-n")) (pos 1);
          csv_file_name = args.get_argv "-c";
          query_filename = args.get_argv "-p";
          dnssec_rate = dnssec_rate;
          rates = rs;
        })
      ]

  -- The state before the addresses are looked up.
  unfoldable pub get_flags : DnsSender → DnsSender
  get_flags s = record s {
    ignore_responses = args.have_argv "--ignore";
    interface_name = if args.have_argv "-e" then args.get_argv "-e" else s.interface_name;
  }

  unfoldable pub get_addresses : DnsSender → Result DnsSender
  get_addresses s = get_target s >>= get_source

  unfoldable pub get_parameter : ℕ → DnsSender → Parsed
  get_parameter fuel s =
      if args.have_argv "-q" && args.have_argv "-s"
      then usage
      else if not (args.have_argv "-q") && not (args.have_argv "-s")
      then usage
      else elim (get_addresses (get_flags s)) [
        | throw e ↦ usage
        | ok found ↦ get_numbers fuel found
      ]
