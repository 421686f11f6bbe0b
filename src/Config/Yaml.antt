-- ===== src/Config/Yaml.antt =====
-- daemon/retif_yaml.h: strings, numbers, mappings and lists of a YAML document. Memory is taken not to run
-- out. `errno` is kept as the test that the code makes of it, and nothing clears it.
use retif.Common.{
  ℕ, zero, suc, ◌+◌, ◌-◌, ◌*◌, ◌^◌, Bool, true, false, ◌&&◌, ◌||◌, Option, none, some, List, [],
  ◌∷◌, ◌++◌, length, leb, ltb, ◌==◌, if◌then◌else◌, ◌>>=◌,
}
use retif.Common.Int.{ℤ, pos, negsuc}
use retif.Task.{str_eq}

-- A node of libyaml. The nodes of a document are numbered, and nodes refer to others by their numbers.
pub data Node : Type 0 where
  no_node : Node
  scalar : (value : List ℕ) → Node
  sequence : (items : List ℕ) → Node
  mapping : (pairs : List (ℕ × ℕ)) → Node

-- A string up to its end.
abbrev pub c_string : List ℕ → List ℕ
c_string [] = []
c_string (c ∷ cs) = let rest = c_string cs in if c == 0 then [] else c ∷ rest

-- `isspace` and `isdigit` of the C locale.
abbrev pub is_space : ℕ → Bool
is_space c = c == 32 || (leb 9 c && leb c 13)

abbrev pub is_digit : ℕ → Bool
is_digit c = leb 48 c && leb c 57

-- `strtol` with base 10: what is read, and whether it is out of the range of a `long`.
abbrev pub skip_space : List ℕ → List ℕ
skip_space [] = []
skip_space (c ∷ cs) = let rest = skip_space cs in if is_space c then rest else c ∷ cs

abbrev pub read_digits : ℕ → List ℕ → ℕ
read_digits n [] = n
read_digits n (c ∷ cs) =
    let rest = read_digits (n * 10 + (c - 48)) cs in if is_digit c then rest else n

abbrev pub starts_with_digit : List ℕ → Bool
starts_with_digit [] = false
starts_with_digit (c ∷ cs) = is_digit c

-- The value of a number without its sign; no digit is no number.
abbrev pub magnitude : List ℕ → Option ℕ
magnitude s = if starts_with_digit s then some (read_digits 0 s) else none

abbrev negated : ℕ → ℤ
negated zero = pos 0
negated (suc n) = negsuc n

-- The value, if there are digits, and whether ERANGE is set.
abbrev pub in_long : Bool → ℕ → ℤ × Bool
in_long true n = if leb n (2 ^ 63) then (negated n, false) else (negsuc (2 ^ 63 - 1), true)
in_long false n = if ltb n (2 ^ 63) then (pos n, false) else (pos (2 ^ 63 - 1), true)

abbrev signed : Bool → List ℕ → Option (ℤ × Bool)
signed minus s = magnitude s >>= λ n. some (in_long minus n)

abbrev after_sign : List ℕ → Option (ℤ × Bool)
after_sign [] = none
after_sign (c ∷ cs) =
    if c == b'-'
    then signed true cs
    else if c == b'+'
    then signed false cs
    else signed false (c ∷ cs)

abbrev pub strtol : List ℕ → Option (ℤ × Bool)
strtol s = after_sign (skip_space s)

-- The result of the function, the number, which is `old` if none was read, and `errno`.
unfoldable pub string_to_long : List ℕ → ℤ → Bool → ℕ × ℤ × Bool
string_to_long s old errno = elim (strtol s) [
  | none ↦ if errno then (2, old, errno) else (3, old, errno)
  | some (value, range) ↦ if errno || range then (2, old, true) else (0, value, errno)
]

unfoldable pub string_to_bool : List ℕ → Bool → ℕ × Bool
string_to_bool s old =
    if str_eq s (b't' ∷ b'r' ∷ b'u' ∷ b'e' ∷ [])
    then (0, true)
    else if str_eq s (b'f' ∷ b'a' ∷ b'l' ∷ b's' ∷ b'e' ∷ [])
    then (0, false)
    else (2, old)

-- `none` is the result 1, for a node that is not a scalar.
unfoldable pub yaml_get_string : Node → Option (List ℕ)
yaml_get_string no_node = none
yaml_get_string (scalar value) = some (c_string value)
yaml_get_string (sequence items) = none
yaml_get_string (mapping pairs) = none

unfoldable pub yaml_get_long : Node → ℤ → Bool → ℕ × ℤ × Bool
unfolding yaml_get_string string_to_long
yaml_get_long node old errno = elim (yaml_get_string node) [
  | none ↦ (1, old, errno)
  | some s ↦ string_to_long s old errno
]

unfoldable pub yaml_get_bool : Node → Bool → ℕ × Bool
unfolding yaml_get_string string_to_bool
yaml_get_bool node old = elim (yaml_get_string node) [
  | none ↦ (1, old)
  | some s ↦ string_to_bool s old
]

module _ {F : Type 0} (strtod : List ℕ → Option (F × Bool)) where
  -- `strtod` is the library's, with the same results as `strtol`.
  unfoldable pub string_to_double : List ℕ → F → Bool → ℕ × F × Bool
  string_to_double s old errno = elim (strtod s) [
    | none ↦ if errno then (2, old, errno) else (3, old, errno)
    | some (value, range) ↦ if errno || range then (2, old, true) else (0, value, errno)
  ]

  unfoldable pub yaml_get_double : Node → F → Bool → ℕ × F × Bool
  unfolding yaml_get_string string_to_double
  yaml_get_double node old errno = elim (yaml_get_string node) [
    | none ↦ (1, old, errno)
    | some s ↦ string_to_double s old errno
  ]

-- `yaml_parser_fn_t`: from the node, what is filled in and `errno`, to the result and both.
abbrev pub Parser : Type 0 → Type 0
Parser S = Node → S → Bool → Option (ℕ × S × Bool)

-- The inner loop of `yaml_parse_mapping`, up to the first key that is the same.
abbrev pub find_key : {S : Type 0} → List (List ℕ × Parser S) → List ℕ → Option (Parser S)
find_key [] key = none
find_key ((k, parser) ∷ keys) key =
    let rest = find_key keys key in if str_eq k key then some parser else rest

-- `get_node` is `yaml_document_get_node`; reading the node that is not there is a fault.
module _ (get_node : ℕ → Option Node) where
  unfoldable pub parse_pairs :
      {S : Type 0} → List (List ℕ × Parser S) → List (ℕ × ℕ) → S → Bool → Option (ℕ × S × Bool)
  unfolding yaml_get_string
  parse_pairs keys [] out errno = some (0, out, errno)
  parse_pairs keys ((k, v) ∷ pairs) out errno = get_node k >>= λ key_node.
      elim (yaml_get_string key_node) [
        | none ↦ some (1, out, errno)
        | some key ↦ elim (find_key keys key) [
          | none ↦ parse_pairs keys pairs out errno
          | some parser ↦ get_node v >>= λ node. parser node out errno >>= λ (ret, out', errno').
              let rest = parse_pairs keys pairs out' errno' in
              if ret == 0 then rest else some (ret, out', errno')
        ]
      ]

  unfoldable pub yaml_parse_mapping : {S : Type 0} → List (List ℕ × Parser S) → Parser S
  unfolding parse_pairs
  yaml_parse_mapping keys no_node out errno = some (1, out, errno)
  yaml_parse_mapping keys (scalar value) out errno = some (1, out, errno)
  yaml_parse_mapping keys (sequence items) out errno = some (1, out, errno)
  yaml_parse_mapping keys (mapping pairs) out errno = parse_pairs keys pairs out errno

  -- `fresh` is what the memory of a new element holds before it is filled in.
  module _ {A : Type 0} (fresh : ℕ → A) (parser : Parser A) where
    unfoldable pub parse_items : List ℕ → List A → Bool → Option (ℕ × List A × Bool)
    parse_items [] elems errno = some (0, elems, errno)
    parse_items (i ∷ items) elems errno = get_node i >>= λ node.
        parser node (fresh (length elems)) errno >>= λ (ret, elem, errno').
        let rest = parse_items items (elems ++ elem ∷ []) errno' in
        if ret == 0 then rest else some (ret, elems, errno')

    unfoldable pub yaml_parse_list : Parser (List A)
    unfolding parse_items
    yaml_parse_list no_node elems errno = some (1, elems, errno)
    yaml_parse_list (scalar value) elems errno = some (1, elems, errno)
    yaml_parse_list (sequence items) elems errno = parse_items items elems errno
    yaml_parse_list (mapping pairs) elems errno = some (1, elems, errno)
