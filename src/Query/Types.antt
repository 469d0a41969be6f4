-- ===== src/Query/Types.antt =====
-- `MakeQuery` of src/query.cpp: the record types that it knows, and when it gives a query.
use Prim.Native.String.{String}
use text.Mathlib.Text.{◌==◌ as str_eq}
use dnsmeter.Base.{
  ℕ, suc, ◌+◌, ◌^◌, ◌≤◌, ◌<◌, true, subst, ◌≡◌, refl, sym, ◌∙◌, ap, Bool, Option-cases, inl, inr,
  List, [], ◌∷◌, Option, none, some, arith, get_or, Memory, memcpy, false, if◌then◌else◌,
}
use dnsmeter.Exceptions.{Result, ok, throw}
use dnsmeter.Query.Dnssec.{IsExtended, add_dnssec_to_query-IsExtended}
use dnsmeter.Pplib.{Strings, Resolver, ByteArray}
use dnsmeter.Query.{
  add_dnssec_to_query, rr_types, rr_code, find_type, compile_query, make_query_tokens, make_query,
}

unfoldable pub lookup : String → List (String × ℕ) → Option ℕ
lookup k [] = none
lookup k ((j, n) ∷ r) = if str_eq k j then some n else lookup k r

-- The numbers that the registry of resource record types assigns, `*` being another name of `ANY`.
abbrev pub registry : List (String × ℕ)
registry =
    ("A", 1)
    ∷ ("AAAA", 28)
    ∷ ("MX", 15)
    ∷ ("NS", 2)
    ∷ ("DS", 43)
    ∷ ("DNSKEY", 48)
    ∷ ("TXT", 16)
    ∷ ("SOA", 6)
    ∷ ("NAPTR", 35)
    ∷ ("RRSIG", 46)
    ∷ ("NSEC", 47)
    ∷ ("NSEC3", 50)
    ∷ ("NSEC3PARAM", 51)
    ∷ ("PTR", 12)
    ∷ ("SRV", 33)
    ∷ ("CNAME", 5)
    ∷ ("TSIG", 250)
    ∷ ("*", 255)
    ∷ ("ANY", 255)
    ∷ ("AXFR", 252)
    ∷ ("IXFR", 251)
    ∷ ("SPF", 99)
    ∷ ("A6", 38)
    ∷ ("HINFO", 13)
    ∷ ("WKS", 11)
    ∷ ("NULL", 10)
    ∷ []

-- Two arrays side by side, as a dictionary.
abbrev pairs : List String → List ℕ → List (String × ℕ)
pairs [] ns = []
pairs (k ∷ ks) [] = (k, 0) ∷ pairs ks []
pairs (k ∷ ks) (n ∷ ns) = (k, n) ∷ pairs ks ns

abbrev pub entry : List ℕ → Option ℕ → Option ℕ
entry ns none = none
entry ns (some t) = some (get_or ns t 0)

find_type-suc :
    (s : String) (n : ℕ) (ks : List String) (ns : List ℕ) (t : ℕ)
    → entry (n ∷ ns) (find_type s ks (suc t)) ≡ entry ns (find_type s ks t)
unfolding find_type
find_type-suc s n [] ns t = refl
find_type-suc s n (k ∷ ks) ns t = ground (arith, find_type-suc s n ks ns (t + 1))

find_type-suc_nil :
    (s : String) (ks : List String) (t : ℕ)
    → entry [] (find_type s ks (suc t)) ≡ entry [] (find_type s ks t)
unfolding find_type
find_type-suc_nil s [] t = refl
find_type-suc_nil s (k ∷ ks) t = ground (arith, find_type-suc_nil s ks (t + 1))

find_type-lookup :
    (s : String) (ks : List String) (ns : List ℕ)
    → entry ns (find_type s ks 0) ≡ lookup s (pairs ks ns)
unfolding find_type lookup
find_type-lookup s [] ns = refl
find_type-lookup s (k ∷ ks) [] = ground (arith, find_type-suc_nil s ks 0, find_type-lookup s ks [])
find_type-lookup s (k ∷ ks) (n ∷ ns) =
    ground (arith, find_type-suc s n ks ns 0, find_type-lookup s ks ns)

-- The names and the codes of the source are the registry's: the code at the index of a name is the
-- number of the type, and a name with no index has none.
pub find_type-registry : (s : String) → entry rr_code (find_type s rr_types 0) ≡ lookup s registry
find_type-registry s = find_type-lookup s rr_types rr_code

-- The query at `at` is the message, and for DNSSEC with an OPT record behind it.
abbrev pub Placed : Bool → ByteArray → Memory → Memory → ℕ → ℕ → Type 0
Placed false q m m' at udp = (i : ℕ) → i < q.size → m' (at + i) ≡ q.bytes i
Placed true q m m' at udp = IsExtended (memcpy m at q.bytes 0 q.size) m' at q.size udp

-- The resolver's messages have a header of bytes.
abbrev pub HasHeaders : Resolver → Type 0
HasHeaders mkquery =
    (name : String) (code room : ℕ) (q : ByteArray)
    → mkquery name code room ≡ some q
    → (12 ≤ q.size) × (q.bytes 3 < 256)

abbrev OnOk : (ℕ × Memory → Type 0) → Result (ℕ × Memory) → Type 0
OnOk P (ok r) = P r
OnOk P (throw e) = Unit

-- What is made of a message.
abbrev IsMade : Bool → ByteArray → Memory → ℕ → ℕ → ℕ × Memory → Type 0
IsMade dnssec q m at udp r =
    (r.0 ≡ (if dnssec then q.size + 11 else q.size)) × Placed dnssec q m r.1 at udp

query_made_lem :
    (dnssec : Bool) (q : ByteArray) (m : Memory) (at room udp : ℕ)
    → 12 ≤ q.size
    → q.bytes 3 < 256
    → udp < 2 ^ 16
    → let m' = memcpy m at q.bytes 0 q.size in
      OnOk
        (IsMade dnssec q m at udp)
        (if dnssec then ok (add_dnssec_to_query m' at room q.size udp) else ok (q.size, m'))
query_made_lem false q m at room udp header byte fits = (refl, λ i h. ground (arith, h))
query_made_lem true q m at room udp header byte fits =
    add_dnssec_to_query-IsExtended (memcpy m at q.bytes 0 q.size) at room q.size udp header
      (ground (arith, header, byte)) fits

module _ (strings : Strings) (mkquery : Resolver) where
  -- What a successful `MakeQuery` has found: `size` is what it returns.
  pub record Compiled (query : String) (m m' : Memory) (at room size : ℕ) (dnssec : Bool) (udp : ℕ)
      : Type 0 where
    pub name : String
    pub type : String
    pub code : ℕ
    pub message : ByteArray
    pub two_tokens : strings.explode query " " ≡ name ∷ type ∷ []
    pub known : lookup (strings.to_upper_case type) registry ≡ some code
    pub compiled : mkquery name code room ≡ some message
    pub sized : size ≡ (if dnssec then message.size + 11 else message.size)
    pub placed : Placed dnssec message m m' at udp

  compile_query-IsMade :
      HasHeaders mkquery
      → (name : String) (t : ℕ) (m m' : Memory) (at room size udp : ℕ) (dnssec : Bool)
      → udp < 2 ^ 16
      → compile_query strings mkquery name t m at room dnssec udp ≡ ok (size, m')
      → (q : ByteArray) × (mkquery name (get_or rr_code t 0) room ≡ some q)
        × IsMade dnssec q m at udp (size, m')
  unfolding compile_query
  compile_query-IsMade headers name t m m' at room size udp dnssec fits h =
      elim (Option-cases (mkquery name (get_or rr_code t 0) room)) [
        | inl e ↦ ground arith
        | inr (q, e) ↦
            let (header, byte) = headers name (get_or rr_code t 0) room q e in
            (
              q,
              e,
              subst (OnOk (IsMade dnssec q m at udp)) (rw (e, compile_query) at h)
                  (query_made_lem dnssec q m at room udp header byte fits),
            )
      ]

  tokens-Compiled :
      HasHeaders mkquery
      → (query : String) (tokens : List String) (m m' : Memory) (at room size udp : ℕ)
        (dnssec : Bool)
      → udp < 2 ^ 16
      → strings.explode query " " ≡ tokens
      → make_query_tokens strings mkquery tokens m at room dnssec udp ≡ ok (size, m')
      → Compiled query m m' at room size dnssec udp
  unfolding make_query_tokens
  tokens-Compiled headers query [] m m' at room size udp dnssec fits e h = cc
  tokens-Compiled headers query (_ ∷ []) m m' at room size udp dnssec fits e h = cc
  tokens-Compiled headers query (name ∷ type ∷ []) m m' at room size udp dnssec fits e h =
      elim (Option-cases (find_type (strings.to_upper_case type) rr_types 0)) [
        | inl unknown ↦ cc (rw (unknown, make_query_tokens) at h)
        | inr (t, found) ↦
            let (q, compiled, (sized, placed)) =
              compile_query-IsMade headers name t m m' at room size udp dnssec fits
                (rw (found, make_query_tokens) at h) in
            record {
              name = name;
              type = type;
              code = get_or rr_code t 0;
              message = q;
              two_tokens = e;
              known =
                  sym (find_type-registry (strings.to_upper_case type)) ∙ ap (entry rr_code) found;
              compiled = compiled;
              sized = sized;
              placed = placed;
            }
      ]
  tokens-Compiled headers query (_ ∷ _ ∷ _ ∷ _) m m' at room size udp dnssec fits e h = cc

  -- A query that `MakeQuery` returns comes from two tokens, of which the second, in upper case, is a
  -- record type of the registry; the resolver has compiled the first with the number of that type. The query in
  -- the memory is its message, for DNSSEC with the OPT record of eleven bytes and the flags behind it, and its
  -- size is returned. The resolver's messages have to have a header, and the UDP payload size has to fit 16 bits.
  pub make_query-Compiled :
      HasHeaders mkquery
      → (query : String) (m m' : Memory) (at room size udp : ℕ) (dnssec : Bool) → udp < 2 ^ 16
      → make_query strings mkquery query m at room dnssec udp ≡ ok (size, m')
      → Compiled query m m' at room size dnssec udp
  unfolding make_query
  make_query-Compiled headers query m m' at room size udp dnssec fits h =
      tokens-Compiled headers query (strings.explode query " ") m m' at room size udp dnssec fits
        refl h

  -- With two tokens, a known type and a message of the resolver, a query without DNSSEC is that message.
  pub make_query-plain :
      (query name type : String) (t : ℕ) (q : ByteArray) (m : Memory) (at room udp : ℕ)
      → strings.explode query " " ≡ name ∷ type ∷ []
      → find_type (strings.to_upper_case type) rr_types 0 ≡ some t
      → mkquery name (get_or rr_code t 0) room ≡ some q
      → make_query strings mkquery query m at room false udp
        ≡ ok (q.size, memcpy m at q.bytes 0 q.size)
  unfolding make_query make_query_tokens compile_query
  make_query-plain query name type t q m at room udp tokens known made =
      rw (tokens, make_query_tokens) (rw (known, make_query_tokens) (rw (made, compile_query)))
