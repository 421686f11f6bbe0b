-- ===== src/Config/Parse/Priority.antt =====
-- daemon/retif_config.c, `parse_conf_plugins_item_priority`: one number, or two as `min-max` or as a
-- sequence.
use retif.Common.{
  ℕ, Bool, ◌||◌, not, Option, none, some, List, [], ◌∷◌, length, ◌==◌, if◌then◌else◌, ◌>>=◌, ltb,
}
use retif.Common.Int.{ℤ, pos, negsuc, ltb_ℤ}
use retif.Config.{ConfPlugin}
use retif.Config.Yaml.{
  Node, no_node, scalar, sequence, mapping, Parser, string_to_long, yaml_get_string, yaml_get_long,
}
use retif.Config.Parse.Tokens.{int_of_long, strtok, is_dash}

-- The end of both ways to give priorities.
unfoldable pub set_priorities : ℤ → ℤ → ConfPlugin → ℕ × ConfPlugin
set_priorities min max out =
    if ltb_ℤ min (pos 0) || ltb_ℤ max (pos 0)
    then (1, out)
    else (0, record out { priority_min = int_of_long min; priority_max = int_of_long max })

unfoldable pub scalar_priority : List ℕ → ConfPlugin → Bool → ℕ × ConfPlugin × Bool
unfolding string_to_long set_priorities
scalar_priority s out errno = elim (strtok is_dash s) [
  | none ↦ (1, out, errno)
  | some (token, delim, rest) ↦
      let (ret, min, errno1) = string_to_long token (negsuc 0) errno in
      if not (ret == 0) then (ret, out, errno1) else elim (strtok is_dash rest) [
        | none ↦ let (ret', out') = set_priorities min min out in (ret', out', errno1)
        | some (token', delim', rest') ↦
            let (ret', max, errno2) = string_to_long token' (negsuc 0) errno1 in
            let (ret'', out') = set_priorities min max out in
            if not (ret' == 0) then (ret', out, errno2) else (ret'', out', errno2)
      ]
]

module _ (get_node : ℕ → Option Node) where
  unfoldable pub sequence_priority : List ℕ → ConfPlugin → Bool → Option (ℕ × ConfPlugin × Bool)
  unfolding yaml_get_long set_priorities
  sequence_priority [] out errno = some (1, out, errno)
  sequence_priority (i ∷ []) out errno = get_node i >>= λ node.
      let (ret, min, errno1) = yaml_get_long node (negsuc 0) errno in
      let (ret', out') = set_priorities min min out in
      some (if not (ret == 0) then (ret, out, errno1) else (ret', out', errno1))
  sequence_priority (i ∷ j ∷ items) out errno = get_node i >>= λ node.
      let (ret, min, errno1) = yaml_get_long node (negsuc 0) errno in
      if not (ret == 0)
      then some (ret, out, errno1)
      else (get_node j >>= λ node'.
          let (ret', max, errno2) = yaml_get_long node' (negsuc 0) errno1 in
          let (ret'', out') = set_priorities min max out in
          some (
            if not (ret' == 0)
            then (ret', out, errno2)
            else if ltb 0 (length items)
            then (1, out, errno2)
            else (ret'', out', errno2)))

  unfoldable pub parse_conf_plugins_item_priority : Parser ConfPlugin
  unfolding yaml_get_string scalar_priority sequence_priority
  parse_conf_plugins_item_priority no_node out errno = some (1, out, errno)
  parse_conf_plugins_item_priority (scalar value) out errno =
      elim (yaml_get_string (scalar value)) [
        | none ↦ some (1, out, errno)
        | some s ↦ some (scalar_priority s out errno)
      ]
  parse_conf_plugins_item_priority (sequence items) out errno = sequence_priority items out errno
  parse_conf_plugins_item_priority (mapping pairs) out errno = some (1, out, errno)
