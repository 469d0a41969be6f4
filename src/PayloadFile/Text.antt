-- ===== src/PayloadFile/Text.antt =====
-- src/payload_file.cpp: what `loadAndCompile` makes of the lines of a text.
use Prim.Native.String.{String}
use mathlib.Core.Option
use native.Mathlib.Nat.{zero-add}
use text.Mathlib.Text.{◌==◌ as str_eq, starts_with}
use dnsmeter.Base.{
  ℕ, ◌≡◌, ◌∙◌, refl, sym, ap, fun_ext, false, List, [], ◌∷◌, ◌++◌, Option, none, some, arith,
  Bool-cases, Option-cases, inl, inr, length, get_or, ◌==◌, if◌then◌else◌, Memory, memcpy,
}
use dnsmeter.Exceptions.{ok, throw, invalid_query_file}
use dnsmeter.Pplib.{Strings, Resolver, ByteArray, byte_array}
use dnsmeter.Query.{rr_types, rr_code, find_type, make_query_tokens, make_query, compile_query}
use dnsmeter.Query.Types.{registry, lookup, entry, find_type-registry}
use dnsmeter.PayloadFile.{
  PayloadFile, push_compiled, compile_line, compile_lines, load_and_compile, push_query,
}
use dnsmeter.PayloadFile.Pcap.{extend, extend-nil, extend-push}

abbrev pub prepend : Option ByteArray → List ByteArray → List ByteArray
prepend none qs = qs
prepend (some q) qs = q ∷ qs

-- What the compilation of a line leaves: the optional query is appended.
abbrev add : PayloadFile → Option ByteArray → PayloadFile
add f none = f
add f (some q) = push_query f q

extend-add :
    (f : PayloadFile) (o : Option ByteArray) (qs : List ByteArray)
    → extend (add f o) qs ≡ extend f (prepend o qs)
extend-add f none qs = refl
extend-add f (some q) qs = extend-push f q qs

module _ (strings : Strings) (mkquery : Resolver) where
  -- The query that two tokens stand for: the message of the resolver for the number of the type.
  abbrev pub query_of_tokens : List String → Option ByteArray
  query_of_tokens (name ∷ type ∷ []) =
      Option.bind (lookup (strings.to_upper_case type) registry)
        λ code. Option.map (λ (q : ByteArray). byte_array q.bytes q.size) (mkquery name code 4096)
  query_of_tokens _ = none

  -- The query of a line; blank lines, comments and lines that do not compile have none.
  abbrev pub query_of_line : String → Option ByteArray
  query_of_line line =
      let buffer = strings.trim line in
      if str_eq buffer ""
      then none
      else if starts_with buffer "#"
      then none
      else query_of_tokens (strings.explode buffer " ")

  abbrev pub queries : List String → List ByteArray
  queries [] = []
  queries (line ∷ lines) = prepend (query_of_line line) (queries lines)

  copy_of_copy :
      (m : Memory) (q : ByteArray)
      → byte_array (memcpy m 0 q.bytes 0 q.size) q.size ≡ byte_array q.bytes q.size
  copy_of_copy m q =
      ap (λ (b : Memory). record { bytes = b; size = q.size }) (fun_ext (λ i. ground arith))

  code_found :
      (name : String) (t : ℕ) (buf : Memory) (f : PayloadFile)
      → (push_compiled (compile_query strings mkquery name t buf 0 4096 false 4096) (buf, f)).1
        ≡ add f (
            Option.map
              (λ (q : ByteArray). byte_array q.bytes q.size)
              (mkquery name (get_or rr_code t 0) 4096))
  unfolding compile_query push_compiled
  code_found name t buf f = elim (Option-cases (mkquery name (get_or rr_code t 0) 4096)) [
    | inl e ↦ rw (e, compile_query) refl
    | inr (q, e) ↦ rw (e, compile_query) (ap (push_query f) (copy_of_copy buf q))
  ]

  tokens_compiled :
      (tokens : List String) (buf : Memory) (f : PayloadFile)
      → (push_compiled (make_query_tokens strings mkquery tokens buf 0 4096 false 4096) (buf, f)).1
        ≡ add f (query_of_tokens tokens)
  unfolding make_query_tokens Option.bind
  tokens_compiled [] buf f = unfold push_compiled in refl
  tokens_compiled (_ ∷ []) buf f = unfold push_compiled in refl
  tokens_compiled (_ ∷ _ ∷ _ ∷ _) buf f = unfold push_compiled in refl
  tokens_compiled (name ∷ type ∷ []) buf f =
      elim (Option-cases (find_type (strings.to_upper_case type) rr_types 0)) [
        | inl unknown ↦
            let none_known =
              sym (find_type-registry (strings.to_upper_case type)) ∙ ap (entry rr_code) unknown in
            rw (unknown, make_query_tokens) (rw none_known (unfold push_compiled in refl))
        | inr (t, found) ↦
            let known =
              sym (find_type-registry (strings.to_upper_case type)) ∙ ap (entry rr_code) found in
            rw (found, make_query_tokens) (rw known (code_found name t buf f))
      ]

  line_compiled :
      (line : String) (buf : Memory) (f : PayloadFile)
      → (compile_line strings mkquery line (buf, f)).1 ≡ add f (query_of_line line)
  unfolding compile_line make_query
  line_compiled line buf f = elim (Bool-cases (str_eq (strings.trim line) "")) [
    | inl blank ↦ rw blank
    | inr text ↦ elim (Bool-cases (starts_with (strings.trim line) "#")) [
      | inl comment ↦ simp (text, comment)
      | inr query ↦
          simp (text, query) (tokens_compiled (strings.explode (strings.trim line) " ") buf f)
    ]
  ]

  lines_compiled :
      (lines : List String) (buf : Memory) (f : PayloadFile)
      → compile_lines strings mkquery lines (buf, f) ≡ extend f (queries lines)
  unfolding compile_lines
  lines_compiled [] buf f = sym (extend-nil f)
  lines_compiled (line ∷ lines) buf f =
      let (buf', f') = compile_line strings mkquery line (buf, f) in
      lines_compiled lines buf' f'
      ∙ ap (λ (g : PayloadFile). extend g (queries lines)) (line_compiled line buf f)
      ∙ extend-add f (query_of_line line) (queries lines)

  -- A text is loaded as the queries of its lines, in order and counted, whatever the buffer held before;
  -- blank lines, comments and lines that do not compile are left out. A text without any query is refused.
  pub load_and_compile-queries :
      (lines : List String) (buf : Memory) (f : PayloadFile)
      → load_and_compile strings mkquery lines buf f ≡ (
          if length (queries lines) == 0
          then throw invalid_query_file
          else ok (record f {
            valid_lines_in_query_file = length (queries lines);
            querycache = f.querycache ++ queries lines;
          }))
  unfolding load_and_compile
  load_and_compile-queries lines buf f = rw lines_compiled (rw zero-add)
