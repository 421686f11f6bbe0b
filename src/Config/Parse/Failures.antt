-- ===== src/Config/Parse/Failures.antt =====
-- daemon/retif_config.c, `parse_conf_plugins_item_cores`: which cores it takes from a sequence.
use retif.Common.{
  ℕ, suc, Bool, true, false, Option, none, some, List, [], ◌∷◌, ◌++◌, All, Option-cases, inl, inr,
  if◌then◌else◌, ◌==◌, arith, ◌≡◌, ◌∙◌, refl, sym, ap,
}
use mathlib.Core.List.{append-nil, append_assoc}
use retif.Common.Int.{ℤ, pos}
use retif.Config.{ConfPlugin}
use retif.Config.Yaml.{Node, sequence, strtol, yaml_get_string, string_to_long, yaml_get_long}
use retif.Config.Parse.Tokens.{int_of_long}
use retif.Config.Parse.CoreList.{cores_of_items, cores_of_node, parse_conf_plugins_item_cores}

module _ (get_node : ℕ → Option Node) where
  -- The item is the text of a number in the range of `long`.
  pub record IsNumber (i : ℕ) (v : ℤ) : Type 0 where
    pub node : Node
    pub s : List ℕ
    pub found : get_node i ≡ some node
    pub text : yaml_get_string node ≡ some s
    pub value : strtol s ≡ some (v, false)

  -- The item is no text, a text that does not start with a number, or a number out of range.
  pub data IsNoNumber (i : ℕ) : Type 0 where
    no_text : (node : Node) → get_node i ≡ some node → yaml_get_string node ≡ none → IsNoNumber i
    no_digits :
        (node : Node) (s : List ℕ)
        → get_node i ≡ some node
        → yaml_get_string node ≡ some s
        → strtol s ≡ none
        → IsNoNumber i
    out_of_range :
        (node : Node) (s : List ℕ) (v : ℤ)
        → get_node i ≡ some node
        → yaml_get_string node ≡ some s
        → strtol s ≡ some (v, true)
        → IsNoNumber i

  -- The numbers of the items, up to the first that is none; `ret` says if there was one.
  pub data Takes : List ℕ → List ℤ → Type 0 where
    all_taken : Takes [] []
    takes :
        {i : ℕ} {v : ℤ} {items : List ℕ} {cores : List ℤ}
        → IsNumber i v
        → Takes items cores
        → Takes (i ∷ items) (int_of_long v ∷ cores)
    stops : {i : ℕ} {items : List ℕ} → IsNoNumber i → Takes (i ∷ items) []

  -- What one item is, and what reading it gives.
  data Item (i : ℕ) (node : Node) (old : ℤ) : ℕ × ℤ × Bool → Type 0 where
    number : (v : ℤ) → IsNumber i v → Item i node old (0, v, false)
    no_number : (ret : ℕ) (errno : Bool) → IsNoNumber i → Item i node old (suc ret, old, errno)

  yaml_get_long-Item :
      (i : ℕ) (node : Node) (old : ℤ)
      → get_node i ≡ some node
      → Item i node old (yaml_get_long node old false)
  unfolding yaml_get_long string_to_long
  yaml_get_long-Item i node old found = elim (Option-cases (yaml_get_string node)) [
    | inl nothing ↦ rw (nothing, yaml_get_long) (no_number 0 false (no_text node found nothing))
    | inr (s, text) ↦ elim (Option-cases (strtol s)) [
      | inl none_there ↦
          rw (text, none_there, yaml_get_long, string_to_long)
            (no_number 2 false (no_digits node s found text none_there))
      | inr ((v, range), value) ↦
          rw (text, value, yaml_get_long, string_to_long) (of_range s v range text value)
    ]
  ]
    where
      of_range :
          (s : List ℕ) (v : ℤ) (range : Bool)
          → yaml_get_string node ≡ some s
          → strtol s ≡ some (v, range)
          → Item i node old (if range then (2, old, true) else (0, v, false))
      of_range s v true text value = no_number 1 true (out_of_range node s v found text value)
      of_range s v false text value =
          number v (record { node = node; s = s; found = found; text = text; value = value })

  -- The run of the loop over the items, after the cores `before`.
  abbrev Taken : ℕ → List ℕ → List ℤ → ℤ → Type 0
  Taken ret items before old =
      (ret' : ℕ) × (cores : List ℤ) × (errno' : Bool) × (cores_of_items get_node ret items before
          old false
        ≡ some (ret', before ++ cores, errno'))
      × Takes items cores

  after_item :
      (ret i : ℕ) (items : List ℕ) (before : List ℤ) (old : ℤ) (node : Node) (r : ℕ × ℤ × Bool)
      → get_node i ≡ some node
      → yaml_get_long node old false ≡ r
      → Item i node old r
      → ((before' : List ℤ) (old' : ℤ) → Taken 0 items before' old')
      → Taken ret (i ∷ items) before old
  unfolding cores_of_items
  after_item ret i items before old node _ found is (number v n) more =
      let (ret', cores, errno', run, rest) = more (before ++ int_of_long v ∷ []) v in
      (
        ret',
        int_of_long v ∷ cores,
        errno',
        rw (found, is, cores_of_items)
            (run
              ∙ ap (λ c. some (ret', c, errno')) (append_assoc before (int_of_long v ∷ []) cores)),
        takes n rest,
      )
  after_item ret i items before old node _ found is (no_number r errno' n) more =
      let not_zero : (suc r == 0) ≡ false = ground arith in
      (
        suc r,
        [],
        errno',
        rw (found, is, not_zero, cores_of_items)
            (ap (λ c. some (suc r, c, errno')) (sym (append-nil before))),
        stops n,
      )

  cores_of_items-Takes :
      (ret : ℕ) (items : List ℕ) (before : List ℤ) (old : ℤ)
      → All (λ i. (node : Node) × (get_node i ≡ some node)) items
      → Taken ret items before old
  unfolding cores_of_items
  cores_of_items-Takes ret [] before old h =
      (ret, [], false, ap (λ c. some (ret, c, false)) (sym (append-nil before)), all_taken)
  cores_of_items-Takes ret (i ∷ items) before old ((node, found), h) =
      after_item ret i items before old node (yaml_get_long node old false) found refl
        (yaml_get_long-Item i node old found)
        (λ before' old'. cores_of_items-Takes 0 items before' old' h)

  -- If the document has a node for each item of a sequence and `errno` is 0 before,
  -- `parse_conf_plugins_item_cores` does not fault. The cores are the numbers of the items, in their order
  -- and as `int`, up to the first item that is no number; the function returns 0 with these cores even if
  -- there is such an item.
  pub parse_conf_plugins_item_cores-Takes :
      (items : List ℕ) (out : ConfPlugin)
      → All (λ i. (node : Node) × (get_node i ≡ some node)) items
      → (cores : List ℤ) × (errno' : Bool) × (parse_conf_plugins_item_cores get_node
            (sequence items)
            out
            false
          ≡ some (0, record out { cores = cores }, errno'))
        × Takes items cores
  unfolding parse_conf_plugins_item_cores cores_of_node
  parse_conf_plugins_item_cores-Takes items out h =
      let (ret', cores, errno', run, taken) = cores_of_items-Takes 1 items [] (pos 0) h in
      (cores, errno', rw run refl, taken)
