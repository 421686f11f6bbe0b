-- ===== src/Config/Parse/CoreList.antt =====
-- daemon/retif_config.c, `parse_conf_plugins_item_cores`: numbers and ranges, or a sequence of numbers.
use retif.Common.{
  ℕ, zero, suc, Bool, true, false, ◌||◌, not, Option, none, some, List, [], ◌∷◌, ◌++◌, length, ◌==◌,
  if◌then◌else◌, ◌>>=◌,
}
use retif.Common.Int.{ℤ, pos, ltb_ℤ, ◌+ℤ◌, ◌-ℤ◌, pos_part}
use retif.Config.{ConfPlugin}
use retif.Config.Yaml.{
  Node, no_node, scalar, sequence, mapping, Parser, string_to_long, yaml_get_string, yaml_get_long,
}
use retif.Config.Parse.Tokens.{int_of_long, strtok}

abbrev is_comma_or_dash : ℕ → Bool
is_comma_or_dash c = c == b',' || c == b'-'

abbrev pub last_core : List ℤ → Option ℤ
last_core [] = none
last_core (c ∷ []) = some c
last_core (c ∷ d ∷ cores) = last_core (d ∷ cores)

-- The test on the value that is read: it is not above the last core.
abbrev not_above_last : List ℤ → ℤ → Bool
not_above_last cores value = elim (last_core cores) [
  | none ↦ false
  | some last ↦ not (ltb_ℤ last value)
]

-- The inner loop over a range, on fuel. INT_MAX + 1 is undefined behaviour.
abbrev int_max : ℤ
int_max = pos 2_147_483_647

unfoldable pub fill_range : ℕ → List ℤ → ℤ → Option (List ℤ)
fill_range zero cores value = none
fill_range (suc fuel) cores value = last_core cores >>= λ last.
    let more = fill_range fuel (cores ++ (last +ℤ pos 1) ∷ []) value in
    if not (ltb_ℤ last value) then some cores else if ltb_ℤ last int_max then more else none

-- Fuel for each core up to the value or to INT_MAX.
abbrev range_fuel : List ℤ → ℤ → ℕ
range_fuel cores value = elim (last_core cores) [
  | none ↦ 1
  | some last ↦ suc (pos_part (value -ℤ last))
]

-- A number of the list, in a range or on its own.
unfoldable pub add_cores : Bool → List ℤ → ℤ → Option (List ℤ)
unfolding fill_range
add_cores true cores value = fill_range (range_fuel cores value) cores value
add_cores false cores value = some (cores ++ int_of_long value ∷ [])

-- The loop over the tokens, each of which takes a character at least: `ret`, the cores and `errno`. `ret` is
-- 0 wherever the loop starts again.
unfoldable pub cores_from : ℕ → List ℕ → List ℤ → Bool → Bool → Option (ℕ × List ℤ × Bool)
unfolding string_to_long add_cores
cores_from zero s cores in_range errno = some (0, cores, errno)
cores_from (suc fuel) s cores in_range errno = elim (strtok is_comma_or_dash s) [
  | none ↦ some (0, cores, errno)
  | some (token, delim, rest) ↦
      let (ret, value, errno') = string_to_long token (pos 0) errno in
      let go_on : List ℤ → Bool → Option (ℕ × List ℤ × Bool) =
        λ cores' again. cores_from fuel rest cores' again errno' in
      if not (ret == 0)
      then some (ret, cores, errno')
      else if not_above_last cores value
      then some (1, cores, errno')
      else (add_cores in_range cores value >>= λ cores'.
          if delim == b','
          then go_on cores' false
          else if not (delim == b'-')
          then go_on cores' in_range
          else if in_range
          then some (1, cores', errno')
          else go_on cores' true)
]

module _ (get_node : ℕ → Option Node) where
  -- The numbers of a sequence are taken as they come. `ret` is 1 before the first one.
  unfoldable pub cores_of_items : ℕ → List ℕ → List ℤ → ℤ → Bool → Option (ℕ × List ℤ × Bool)
  unfolding yaml_get_long
  cores_of_items ret [] cores value errno = some (ret, cores, errno)
  cores_of_items ret (i ∷ items) cores value errno = get_node i >>= λ node.
      let (ret', value', errno') = yaml_get_long node value errno in
      let rest = cores_of_items ret' items (cores ++ int_of_long value' ∷ []) value' errno' in
      if not (ret' == 0) then some (ret', cores, errno') else rest

  -- The `switch`: `ret`, the cores and `errno`.
  unfoldable pub cores_of_node : Node → Bool → Option (ℕ × List ℤ × Bool)
  unfolding yaml_get_string cores_from cores_of_items
  cores_of_node no_node errno = some (1, [], errno)
  cores_of_node (scalar value) errno = elim (yaml_get_string (scalar value)) [
    | none ↦ some (1, [], errno)
    | some s ↦ cores_from (suc (length s)) s [] false errno
  ]
  cores_of_node (sequence items) errno = cores_of_items 1 items [] (pos 0) errno
  cores_of_node (mapping pairs) errno = some (1, [], errno)

  -- The function ends with `return 0` and not with `return ret`.
  unfoldable pub parse_conf_plugins_item_cores : Parser ConfPlugin
  unfolding cores_of_node
  parse_conf_plugins_item_cores node out errno =
      cores_of_node node errno >>= λ (ret, cores, errno').
      some (0, record out { cores = cores }, errno')
