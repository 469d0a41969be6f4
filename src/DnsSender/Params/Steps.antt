-- ===== src/DnsSender/Params/Steps.antt =====
-- src/dns_sender.cpp: what the parts of `getParameter` set.
use text.Mathlib.Text.{◌==◌ as str_eq}
use dnsmeter.Base.{
  ℕ, suc, ℤ, pos, negsuc, pos_part, neg_part, ltb_ℤ, ◌≤◌, ◌≡◌, ◌≢◌, inl, inr, refl, sym, subst,
  Bool, true, false, ◌&&◌, ◌||◌, arith, if◌then◌else◌, Bool-cases, Option-cases,
}
use dnsmeter.Exceptions.{Result, Result-cases, ok, throw}
use dnsmeter.DnsSender.Params.{
  CommandLine, Library, DnsSender, Parsed, usage, endless, parsed, target_tokens, front_address,
  get_target, get_source, get_numbers, get_query_rates, or_default,
}

-- What holds of the parameters, if they are accepted.
unfoldable pub OnParsed : (DnsSender → Type 0) → Parsed → Type 0
OnParsed P usage = Unit
OnParsed P endless = Unit
OnParsed P (parsed t) = P t

-- The same of the state that a step returns.
unfoldable pub OnOk : (DnsSender → Type 0) → Result DnsSender → Type 0
OnOk P (ok s) = P s
OnOk P (throw e) = Unit

pub ok_of :
    (P : DnsSender → Type 0) (r : Result DnsSender) (s : DnsSender) → OnOk P r → r ≡ ok s → P s
unfolding OnOk
ok_of P r s h e = subst (OnOk P) e h

pub parsed_of :
    (P : DnsSender → Type 0) (p : Parsed) (s : DnsSender) → OnParsed P p → p ≡ parsed s → P s
unfolding OnParsed
parsed_of P p s h e = subst (OnParsed P) e h

or_default-ne : (v : ℤ) (d : ℕ) → or_default v (pos (suc d)) ≢ pos 0
or_default-ne (pos n) d = ground arith
or_default-ne (negsuc n) d = cc

rate_range :
    (on : Bool) (v d : ℤ)
    → (on && (ltb_ℤ (if on then v else d) (pos 0) || ltb_ℤ (pos 100) (if on then v else d))) ≡ false
    → neg_part d ≡ 0
    → pos_part d ≤ 100
    → (neg_part (if on then v else d) ≡ 0) × (pos_part (if on then v else d) ≤ 100)
rate_range true v d e sign small = ground arith
rate_range false v d e sign small = (sign, small)

-- What `getTarget` sets.
pub record IsTarget (args : CommandLine) (s t : DnsSender) : Type 0 where
  pub target : args.have_argv "-z" ≡ true
  pub port :
      (1 ≤ pos_part t.target_port) × (pos_part t.target_port ≤ 65535) × (neg_part t.target_port ≡ 0)
  pub dnssec_rate : t.dnssec_rate ≡ s.dnssec_rate

pub record IsSource (args : CommandLine) (s t : DnsSender) : Type 0 where
  pub spoofing : t.spoofing_enabled ≡ args.have_argv "-s"
  pub port : t.target_port ≡ s.target_port
  pub dnssec_rate : t.dnssec_rate ≡ s.dnssec_rate

pub record IsNumbers (s t : DnsSender) : Type 0 where
  pub port : t.target_port ≡ s.target_port
  pub spoofing : t.spoofing_enabled ≡ s.spoofing_enabled
  pub dnssec_rate : (neg_part t.dnssec_rate ≡ 0) × (pos_part t.dnssec_rate ≤ 100)
  pub runtime : t.runtime ≢ pos 0
  pub timeout : t.timeout ≢ pos 0
  pub thread_count : t.thread_count ≢ pos 0
  pub payload : str_eq t.query_filename "" ≡ false

module _ (lib : Library) (args : CommandLine) where
  pub get_target-IsTarget : (s : DnsSender) → OnOk (IsTarget args s) (get_target lib args s)
  unfolding get_target OnOk
  get_target-IsTarget s = elim (Bool-cases (args.have_argv "-z")) [
    | inr b ↦ rw b tt
    | inl b ↦
        rw b (elim (Result-cases (target_tokens lib args (lib.explode (args.get_argv "-z") ":"))) [
          | inr (x, e) ↦ rw e tt
          | inl ((host, port), e) ↦
              rw e (elim (Bool-cases (ltb_ℤ port (pos 1) || ltb_ℤ (pos 65535) port)) [
                | inl c ↦ rw c tt
                | inr c ↦ rw c (elim (Result-cases (front_address (lib.get_host_by_name host))) [
                  | inr (x, f) ↦ rw f tt
                  | inl (ip, f) ↦
                      rw f (record { target = b; port = ground arith; dnssec_rate = refl })
                ])
              ])
        ])
  ]

  pub get_source-IsSource : (s : DnsSender) → OnOk (IsSource args s) (get_source lib args s)
  unfolding get_source OnOk
  get_source-IsSource s = elim (Bool-cases (args.have_argv "-s")) [
    | inl b ↦ rw b (elim (Bool-cases (str_eq (lib.to_lower_case (args.get_argv "-s")) "pcap")) [
      | inl c ↦ rw c (record { spoofing = sym b; port = refl; dnssec_rate = refl })
      | inr c ↦
          rw c (elim (Result-cases (lib.set_network (lib.to_lower_case (args.get_argv "-s")))) [
            | inr (x, e) ↦ rw e tt
            | inl (net, e) ↦ rw e (elim (Bool-cases net.is_ipv4) [
              | inl f ↦ rw f (record { spoofing = sym b; port = refl; dnssec_rate = refl })
              | inr f ↦ rw f tt
            ])
          ])
    ])
    | inr b ↦
        rw b (elim (Result-cases (front_address (lib.get_host_by_name (args.get_argv "-q")))) [
          | inr (x, e) ↦ rw e tt
          | inl (ip, e) ↦ rw e (elim (Bool-cases ip.is_ipv4) [
            | inl f ↦ rw f (record { spoofing = sym b; port = refl; dnssec_rate = refl })
            | inr f ↦ rw f tt
          ])
        ])
  ]

  pub get_numbers-IsNumbers :
      (fuel : ℕ) (s : DnsSender)
      → neg_part s.dnssec_rate ≡ 0
      → pos_part s.dnssec_rate ≤ 100
      → OnParsed (IsNumbers s) (get_numbers lib args fuel s)
  unfolding get_numbers OnParsed
  get_numbers-IsNumbers fuel s sign small =
      let rate = if args.have_argv "-d" then lib.to_int (args.get_argv "-d") else s.dnssec_rate in
      elim (Bool-cases (args.have_argv "-d" && (ltb_ℤ rate (pos 0) || ltb_ℤ (pos 100) rate))) [
        | inl b ↦ rw b tt
        | inr b ↦ rw b (elim (Bool-cases (str_eq (args.get_argv "-p") "")) [
          | inl c ↦ rw c tt
          | inr c ↦ rw c (elim (Option-cases (get_query_rates lib args fuel (args.get_argv "-r"))) [
            | inl e ↦ rw e tt
            | inr (rs, e) ↦ rw e (record {
              port = refl;
              spoofing = refl;
              dnssec_rate =
                  rate_range (args.have_argv "-d") (lib.to_int (args.get_argv "-d")) s.dnssec_rate b
                    sign small;
              runtime = or_default-ne (lib.to_int (args.get_argv "-l")) 9;
              timeout = or_default-ne (lib.to_int (args.get_argv "-t")) 1;
              thread_count = or_default-ne (lib.to_int (args.get_argv "-n")) 0;
              payload = c;
            })
          ])
        ])
      ]
