-- ===== src/Config/Parse.antt =====
-- daemon/retif_config.c: from a YAML document to a configuration.
pub mod Tokens
pub mod Priority
pub mod CoreList
pub mod Failures
use retif.Common.{
  ℕ, zero, suc, ◌+◌, ◌-◌, Bool, true, false, ◌||◌, not, Option, none, some, List, [], ◌∷◌, ◌++◌,
  length, ◌==◌, if◌then◌else◌, ◌>>=◌, ltb,
}
use retif.Common.Int.{ℤ, pos, negsuc, ltb_ℤ, ◌+ℤ◌, ◌-ℤ◌, pos_part}
use retif.Task.{int_of_uint64}
use retif.Config.{ConfPlugin, ConfSystem, Configuration, to_size}
use retif.Config.Yaml.{
  Node, no_node, scalar, sequence, mapping, Parser, string_to_long, yaml_get_string, yaml_get_long,
  yaml_get_double, yaml_parse_mapping, yaml_parse_list,
}
use retif.Config.Parse.Priority.{parse_conf_plugins_item_priority}
use retif.Config.Parse.CoreList.{parse_conf_plugins_item_cores}

abbrev pub key_conf : List ℕ
key_conf =
    b'c' ∷ b'o' ∷ b'n' ∷ b'f' ∷ b'i' ∷ b'g' ∷ b'u' ∷ b'r' ∷ b'a' ∷ b't' ∷ b'i' ∷ b'o' ∷ b'n' ∷ []

abbrev pub key_system : List ℕ
key_system = b's' ∷ b'y' ∷ b's' ∷ b't' ∷ b'e' ∷ b'm' ∷ []

abbrev pub key_plugins : List ℕ
key_plugins = b'p' ∷ b'l' ∷ b'u' ∷ b'g' ∷ b'i' ∷ b'n' ∷ b's' ∷ []

abbrev pub key_acl_rules : List ℕ
key_acl_rules = b'r' ∷ b'u' ∷ b'l' ∷ b'e' ∷ b's' ∷ []

abbrev pub key_rr_timeslice : List ℕ
key_rr_timeslice =
    b'r' ∷ b'r' ∷ b'_' ∷ b't' ∷ b'i' ∷ b'm' ∷ b'e' ∷ b's' ∷ b'l' ∷ b'i' ∷ b'c' ∷ b'e' ∷ []

abbrev pub key_sched_max_util : List ℕ
key_sched_max_util =
    b's' ∷ b'c' ∷ b'h' ∷ b'e' ∷ b'd' ∷ b'_' ∷ b'm' ∷ b'a' ∷ b'x' ∷ b'_' ∷ b'u' ∷ b't' ∷ b'i' ∷ b'l'
    ∷ []

abbrev pub key_name : List ℕ
key_name = b'n' ∷ b'a' ∷ b'm' ∷ b'e' ∷ []

abbrev pub key_plugin : List ℕ
key_plugin = b'p' ∷ b'l' ∷ b'u' ∷ b'g' ∷ b'i' ∷ b'n' ∷ []

abbrev pub key_priority : List ℕ
key_priority = b'p' ∷ b'r' ∷ b'i' ∷ b'o' ∷ b'r' ∷ b'i' ∷ b't' ∷ b'y' ∷ []

abbrev pub key_cores : List ℕ
key_cores = b'c' ∷ b'o' ∷ b'r' ∷ b'e' ∷ b's' ∷ []

module _ (get_node : ℕ → Option Node) where
  unfoldable pub parse_conf_plugins_item_name : Parser ConfPlugin
  unfolding yaml_get_string
  parse_conf_plugins_item_name node out errno = elim (yaml_get_string node) [
    | none ↦ some (1, out, errno)
    | some s ↦ some (0, record out { name = s }, errno)
  ]

  unfoldable pub parse_conf_plugins_item_plugin_path : Parser ConfPlugin
  unfolding yaml_get_string
  parse_conf_plugins_item_plugin_path node out errno = elim (yaml_get_string node) [
    | none ↦ some (1, out, errno)
    | some s ↦ some (0, record out { plugin_path = s }, errno)
  ]

  unfoldable pub parse_conf_plugins_item : Parser ConfPlugin
  unfolding yaml_parse_mapping parse_conf_plugins_item_name parse_conf_plugins_item_plugin_path
      parse_conf_plugins_item_priority parse_conf_plugins_item_cores
  parse_conf_plugins_item = yaml_parse_mapping get_node (
      (key_name, parse_conf_plugins_item_name)
      ∷ (key_plugin, parse_conf_plugins_item_plugin_path)
      ∷ (key_priority, parse_conf_plugins_item_priority get_node)
      ∷ (key_cores, parse_conf_plugins_item_cores get_node)
      ∷ [])

  module _ {F : Type 0} (strtod : List ℕ → Option (F × Bool)) (fresh : ℕ → ConfPlugin) where
    unfoldable pub parse_conf_system_rr_timeslice : Parser (ConfSystem F)
    unfolding yaml_get_long
    parse_conf_system_rr_timeslice node out errno =
        let (ret, value, errno') = yaml_get_long node out.rr_timeslice errno in
        some (ret, record out { rr_timeslice = value }, errno')

    unfoldable pub parse_conf_system_sched_max_util : Parser (ConfSystem F)
    unfolding yaml_get_double
    parse_conf_system_sched_max_util node out errno =
        let (ret, value, errno') = yaml_get_double strtod node out.sched_max_util errno in
        some (ret, record out { sched_max_util = value }, errno')

    unfoldable pub parse_conf_system : Parser (Configuration F)
    unfolding yaml_parse_mapping parse_conf_system_rr_timeslice parse_conf_system_sched_max_util
    parse_conf_system node out errno =
        yaml_parse_mapping get_node
          ((key_rr_timeslice, parse_conf_system_rr_timeslice)
            ∷ (key_sched_max_util, parse_conf_system_sched_max_util)
            ∷ [])
          node out.system errno
        >>= λ (ret, system, errno'). some (ret, record out { system = system }, errno')

    unfoldable pub parse_conf_plugins : Parser (Configuration F)
    unfolding yaml_parse_list parse_conf_plugins_item
    parse_conf_plugins node out errno =
        yaml_parse_list get_node fresh parse_conf_plugins_item node [] errno
        >>= λ (ret, plugins, errno'). some (ret, record out { plugins = plugins }, errno')

    abbrev parse_conf_acl_rules : Parser (Configuration F)
    parse_conf_acl_rules node out errno = some (0, out, errno)

    -- The function is its own parser for the key `configuration`, on fuel.
    unfoldable pub parse_conf : ℕ → Parser (Configuration F)
    unfolding yaml_parse_mapping parse_conf_system parse_conf_plugins
    parse_conf zero node out errno = none
    parse_conf (suc fuel) node out errno =
        yaml_parse_mapping get_node
          ((key_conf, parse_conf fuel)
            ∷ (key_system, parse_conf_system)
            ∷ (key_plugins, parse_conf_plugins)
            ∷ (key_acl_rules, parse_conf_acl_rules)
            ∷ [])
          node out errno
