-- ===== src/DnsSender/Params/Accepted.antt =====
-- src/dns_sender.cpp: what holds of a command line that `getParameter` accepts.
use text.Mathlib.Text.{◌==◌ as str_eq}
use dnsmeter.Base.{
  ℕ, pos, pos_part, neg_part, ◌≤◌, ◌≡◌, ◌≢◌, inl, inr, refl, ap, ◌∙◌, true, false, not, arith,
  Bool-cases,
}
use dnsmeter.Exceptions.{Result-cases, ok, throw}
use dnsmeter.DnsSender.Params.{
  CommandLine, Library, DnsSender, new_dns_sender, Parsed, usage, endless, parsed, get_target,
  get_source, get_numbers, get_flags, get_addresses, get_parameter,
}
use dnsmeter.DnsSender.Params.Steps.{
  OnParsed, ok_of, parsed_of, IsTarget, IsSource, IsNumbers, get_target-IsTarget,
  get_source-IsSource, get_numbers-IsNumbers,
}

-- A port, a percentage, and numbers that are not 0.
pub record IsAccepted (args : CommandLine) (s : DnsSender) : Type 0 where
  pub one_source : args.have_argv "-s" ≡ not (args.have_argv "-q")
  pub target : args.have_argv "-z" ≡ true
  pub spoofing : s.spoofing_enabled ≡ args.have_argv "-s"
  pub port : (1 ≤ pos_part s.target_port) × (pos_part s.target_port ≤ 65535)
  pub port_sign : neg_part s.target_port ≡ 0
  pub dnssec_rate : (neg_part s.dnssec_rate ≡ 0) × (pos_part s.dnssec_rate ≤ 100)
  pub runtime : s.runtime ≢ pos 0
  pub timeout : s.timeout ≢ pos 0
  pub thread_count : s.thread_count ≢ pos 0
  pub payload : str_eq s.query_filename "" ≡ false

module _ (lib : Library) (args : CommandLine) where
  numbers-IsAccepted :
      (s t u : DnsSender) (p : Parsed)
      → args.have_argv "-s" ≡ not (args.have_argv "-q")
      → IsTarget args s t
      → IsSource args t u
      → OnParsed (IsNumbers u) p
      → OnParsed (IsAccepted args) p
  unfolding OnParsed
  numbers-IsAccepted s t u usage one target source numbers = tt
  numbers-IsAccepted s t u endless one target source numbers = tt
  numbers-IsAccepted s t u (parsed v) one target source numbers =
      let same = numbers.port ∙ source.port in
      record {
        one_source = one;
        target = target.target;
        spoofing = numbers.spoofing ∙ source.spoofing;
        port = (
          (omega (arith, target.port.0, ap pos_part same)),
          omega (arith, target.port.1, ap pos_part same),
        );
        port_sign = ap neg_part same ∙ target.port.2;
        dnssec_rate = numbers.dnssec_rate;
        runtime = numbers.runtime;
        timeout = numbers.timeout;
        thread_count = numbers.thread_count;
        payload = numbers.payload;
      }

  get_addresses-IsAccepted :
      (fuel : ℕ) (s : DnsSender)
      → args.have_argv "-s" ≡ not (args.have_argv "-q")
      → neg_part s.dnssec_rate ≡ 0
      → pos_part s.dnssec_rate ≤ 100
      → OnParsed (IsAccepted args) (elim (get_addresses lib args s) [
        | throw e ↦ usage
        | ok found ↦ get_numbers lib args fuel found
      ])
  unfolding get_addresses
  get_addresses-IsAccepted fuel s one sign small = elim (Result-cases (get_target lib args s)) [
    | inr (x, e) ↦ rw e (unfold OnParsed in tt)
    | inl (t, e) ↦
        let target : IsTarget args s t =
          ok_of (IsTarget args s) (get_target lib args s) t (get_target-IsTarget lib args s) e in
        rw e (elim (Result-cases (get_source lib args t)) [
          | inr (x, f) ↦ rw f (unfold OnParsed in tt)
          | inl (u, f) ↦
              let source : IsSource args t u =
                ok_of (IsSource args t) (get_source lib args t) u (get_source-IsSource lib args t)
                  f in
              let rate = source.dnssec_rate ∙ target.dnssec_rate in
              rw f (
                numbers-IsAccepted s t u (get_numbers lib args fuel u) one target source (
                  get_numbers-IsNumbers lib args fuel u (ap neg_part rate ∙ sign)
                    (omega (arith, ap pos_part rate))))
        ])
  ]

  get_parameter-OnParsed :
      (fuel : ℕ) (s : DnsSender)
      → neg_part s.dnssec_rate ≡ 0
      → pos_part s.dnssec_rate ≤ 100
      → OnParsed (IsAccepted args) (get_parameter lib args fuel s)
  unfolding get_parameter get_flags
  get_parameter-OnParsed fuel s sign small = elim (Bool-cases (args.have_argv "-q")) [
    | inl q ↦ elim (Bool-cases (args.have_argv "-s")) [
      | inl o ↦ rw (q, o) (unfold OnParsed in tt)
      | inr o ↦
          rw (q, o)
            (get_addresses-IsAccepted fuel (get_flags lib args s) (rw (q, o) refl) sign small)
    ]
    | inr q ↦ elim (Bool-cases (args.have_argv "-s")) [
      | inl o ↦
          rw (q, o)
            (get_addresses-IsAccepted fuel (get_flags lib args s) (rw (q, o) refl) sign small)
      | inr o ↦ rw (q, o) (unfold OnParsed in tt)
    ]
  ]

  -- Command lines with both or none of the options of the source are refused.
  pub get_parameter-usage :
      (fuel : ℕ) (s : DnsSender)
      → args.have_argv "-s" ≡ args.have_argv "-q"
      → get_parameter lib args fuel s ≡ usage
  unfolding get_parameter
  get_parameter-usage fuel s same = ground arith

  -- A command line that is accepted by a new `DNSSender` has one of the two options of the source, and the target.
  -- Its parameters are a port of 1 to 65535, a DNSSEC rate of 0 to 100 percent, a runtime, a timeout and a number
  -- of threads that are not 0, and the name of a payload file; and it spoofs exactly with the option `-s`.
  pub get_parameter-IsAccepted :
      (fuel : ℕ) (t : DnsSender)
      → get_parameter lib args fuel new_dns_sender ≡ parsed t
      → IsAccepted args t
  unfolding get_parameter
  get_parameter-IsAccepted fuel t e =
      parsed_of (IsAccepted args) (get_parameter lib args fuel new_dns_sender) t
        (get_parameter-OnParsed fuel new_dns_sender refl (omega arith)) e
