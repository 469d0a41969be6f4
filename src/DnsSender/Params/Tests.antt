-- ===== src/DnsSender/Params/Tests.antt =====
-- src/dns_sender.cpp: a command line that is accepted.
use text.Mathlib.Text.{◌==◌ as str_eq}
use dnsmeter.Base.{pos, ◌≡◌, refl, true, ◌||◌, [], ◌∷◌, none, if◌then◌else◌}
use dnsmeter.Exceptions.{ok, throw, unsupported_ip_family}
use dnsmeter.RawSocketSender.{IpAddress}
use dnsmeter.DnsSender.Params.{
  CommandLine, Library, DnsSender, new_dns_sender, parsed, front_address, get_query_rates,
  target_tokens, get_target, get_source, get_numbers, get_flags, get_addresses, get_parameter,
}
use dnsmeter.DnsSender.Params.Accepted.{IsAccepted, get_parameter-IsAccepted}

-- `-q 10.0.0.1 -z 127.0.0.1:53 -p queries -r 100 -d 20`
abbrev args : CommandLine
args = record {
  have_argv = λ option. str_eq option "-q" || str_eq option "-z" || str_eq option "-d";
  get_argv = λ option.
      if str_eq option "-z"
      then "127.0.0.1:53"
      else if str_eq option "-p"
      then "queries"
      else if str_eq option "-r"
      then "100"
      else if str_eq option "-d"
      then "20"
      else "";
}

abbrev server : IpAddress
server = record { is_ipv4 = true; addr = 16777343 }

abbrev lib : Library
lib = record {
  explode =
      λ text delimiter. if str_eq text "127.0.0.1:53" then "127.0.0.1" ∷ "53" ∷ [] else text ∷ [];
  to_lower_case = λ text. text;
  to_int = λ text. if str_eq text "53" then pos 53 else if str_eq text "20" then pos 20 else pos 0;
  get_host_by_name = λ name. ok (server ∷ []);
  set_network = λ text. throw unsupported_ip_family;
  match_range = λ text. none;
  print_llu = λ n. "";
}

abbrev accepted : DnsSender
accepted = record new_dns_sender {
  target_ip = server;
  source_ip = server;
  query_filename = "queries";
  rates = "100" ∷ [];
  dnssec_rate = pos 20;
}

accepts : get_parameter lib args 0 new_dns_sender ≡ parsed accepted
unfolding get_parameter get_addresses get_flags get_numbers get_source get_target target_tokens
    front_address get_query_rates
accepts = refl

get_parameter-IsAccepted_example : IsAccepted args accepted
get_parameter-IsAccepted_example = get_parameter-IsAccepted lib args 0 accepted accepts
