-- ===== src/Vector.antt =====
-- daemon/vector.c and daemon/vector.h: the growing array. Addresses are byte offsets into the block of the
-- vector. `none` is an access outside of that block.
pub mod Elements
pub mod Growth
pub mod Insertion
pub mod Middle
pub mod Erasure
use retif.Common.{
  ℕ, zero, suc, ◌+◌, ◌-◌, ◌*◌, ◌/◌, ◌%◌, ◌^◌, Bool, true, false, ◌&&◌, not, Option, none, some, ltb,
  leb, ◌==◌, if◌then◌else◌, ◌>>=◌,
}

-- `vector_t`, whose elements are those of `A`; `cells` is the block of memory, of which `capacity`
-- elements are allocated.
pub record Vector (A : Type 0) : Type 0 where
  pub capacity : ℕ
  pub item_size : ℕ
  pub size : ℕ
  pub cells : ℕ → A

-- `__vector_addr_diff`, a `size_t`.
abbrev pub addr_diff : ℕ → ℕ → ℕ
addr_diff first last = (last + 2 ^ 64 - first) % 2 ^ 64

-- `cells` after `n` elements were written from `dst` on.
abbrev pub overwrite {ℓ} : {A : Type ℓ} → (ℕ → A) → ℕ → ℕ → (ℕ → A) → ℕ → A
overwrite cells dst n new i = if leb dst i && ltb i (dst + n) then new (i - dst) else cells i

module _ {A : Type 0} where
  -- VECTOR_INITIALIZER with an item size; what `cells` holds does not matter, as nothing is allocated.
  unfoldable pub vector_initialize : Vector A → ℕ → Vector A
  vector_initialize v item_size = record v { capacity = 0; item_size = item_size; size = 0 }

  abbrev pub vector_at : Vector A → ℕ → ℕ
  vector_at v i = i * v.item_size

  abbrev pub vector_end : Vector A → ℕ
  vector_end v = vector_at v v.size

  abbrev pub vector_empty : Vector A → Bool
  vector_empty v = ltb v.size 1

  -- The `bytes` bytes at the offset `at` are in the block.
  abbrev pub in_block : Vector A → ℕ → ℕ → Bool
  in_block v at bytes = leb (at + bytes) (v.capacity * v.item_size)

  -- `memmove` within the block, of whole elements.
  unfoldable pub move_within : Vector A → ℕ → ℕ → ℕ → Option (Vector A)
  move_within v dst src bytes =
      if in_block v (vector_at v dst) bytes && in_block v (vector_at v src) bytes
      then some (record v {
        cells = overwrite v.cells dst (bytes / v.item_size) (λ i. v.cells (src + i));
      })
      else none

  -- `memmove` or `memset` into the block, from elements that are not in it.
  unfoldable pub copy_into : Vector A → ℕ → ℕ → (ℕ → A) → Option (Vector A)
  copy_into v dst bytes new =
      if in_block v (vector_at v dst) bytes
      then some (record v { cells = overwrite v.cells dst (bytes / v.item_size) new })
      else none

  -- `grant` tells whether `reallocarray` has memory for a number of elements.
  module _ (grant : ℕ → Bool) where
    -- The results are that of the function, 1 for an error, and the vector.
    unfoldable pub vector_realloc : Vector A → ℕ → Bool → ℕ × Vector A
    vector_realloc v new_cap can_erase =
        if v.capacity == new_cap
        then (0, v)
        else if not can_erase && ltb new_cap v.size
        then (1, v)
        else if not (grant new_cap)
        then (1, v)
        else (
          0,
          record v { capacity = new_cap; size = if ltb new_cap v.size then new_cap else v.size },
        )

    unfoldable pub vector_reserve : Vector A → ℕ → ℕ × Vector A
    unfolding vector_realloc
    vector_reserve v new_cap =
        let overalloc = v.capacity * 2 % 2 ^ 64 in
        let (failed, larger) = vector_realloc v overalloc false in
        if leb new_cap v.capacity
        then (0, v)
        else if ltb new_cap overalloc && failed == 0
        then (0, larger)
        else vector_realloc v new_cap false

    unfoldable pub vector_shrink_to_fit : Vector A → ℕ × Vector A
    unfolding vector_realloc
    vector_shrink_to_fit v = vector_realloc v v.size false

    -- The elements to insert are those of the array `values` from `first` to before `last`.
    unfoldable pub vector_insert_multi : Vector A → ℕ → (ℕ → A) → ℕ → ℕ → Option (ℕ × Vector A)
    unfolding vector_reserve move_within copy_into
    vector_insert_multi v pos values first last =
        let diff = addr_diff (vector_at v first) (vector_at v last) in
        let des_size = (v.size + diff / v.item_size) % 2 ^ 64 in
        let (failed, roomy) = vector_reserve v des_size in
        if first == last
        then some (0, v)
        else if ltb last first
        then some (1, v)
        else if ltb v.size pos
        then some (1, v)
        else if ltb des_size v.size
        then some (1, v)
        else if not (failed == 0)
        then some (1, roomy)
        else (move_within roomy (pos + diff / v.item_size) pos
              (addr_diff (vector_end roomy) (vector_at roomy pos))
            >>= λ moved. copy_into moved pos diff (λ i. values (first + i)) >>= λ copied.
                some (0, record copied { size = des_size }))

    unfoldable pub vector_insert : Vector A → ℕ → A → Option (ℕ × Vector A)
    unfolding vector_insert_multi
    vector_insert v pos value = vector_insert_multi v pos (λ i. value) 0 1

    unfoldable pub vector_push_back : Vector A → A → Option (ℕ × Vector A)
    unfolding vector_insert
    vector_push_back v value = vector_insert v v.size value

    -- The loop ends at the first insertion that fails.
    unfoldable pub vector_insert_ncopies : Vector A → ℕ → ℕ → A → Option (ℕ × Vector A)
    unfolding vector_insert
    vector_insert_ncopies v pos zero value = some (0, v)
    vector_insert_ncopies v pos (suc count) value = vector_insert v pos value >>= λ (res, v').
        let rest = vector_insert_ncopies v' pos count value in
        if res == 0 then rest else some (res, v')

    -- `blank` is the element of zero bytes.
    unfoldable pub vector_resize : Vector A → A → ℕ → Option (ℕ × Vector A)
    unfolding vector_reserve copy_into
    vector_resize v blank des_size =
        let (failed, roomy) = vector_reserve v des_size in
        if not (failed == 0)
        then some (1, roomy)
        else ((if ltb roomy.size des_size
              then copy_into roomy roomy.size ((des_size - roomy.size) * roomy.item_size)
                  (λ i. blank)
              else some roomy)
            >>= λ filled. some (0, record filled { size = des_size }))

    unfoldable pub vector_clear : Vector A → A → Option (Vector A)
    unfolding vector_resize
    vector_clear v blank = vector_resize v blank 0 >>= λ (res, cleared). some cleared

  unfoldable pub vector_erase_multi : Vector A → ℕ → ℕ → Option (ℕ × Vector A)
  unfolding move_within
  vector_erase_multi v first last =
      if first == last
      then some (0, v)
      else if ltb last first
      then some (1, v)
      else if ltb v.size last
      then some (1, v)
      else (move_within v first last (addr_diff (vector_at v last) (vector_end v)) >>= λ moved.
          some (0, record moved { size = moved.size - (last - first) }))

  unfoldable pub vector_erase : Vector A → ℕ → Option (ℕ × Vector A)
  unfolding vector_erase_multi
  vector_erase v pos = vector_erase_multi v pos (pos + 1)

  -- The results are the value that is copied out, if any, and what erasing returns.
  unfoldable pub vector_pop_back : Vector A → Option (Option A × ℕ × Vector A)
  unfolding vector_erase
  vector_pop_back v =
      if ltb v.size 1
      then some (none, 1, v)
      else (vector_erase v (v.size - 1) >>= λ (res, v').
          some (some (v.cells (v.size - 1)), res, v'))

  unfoldable pub vector_swap : Vector A → Vector A → Vector A × Vector A
  vector_swap v1 v2 = (v2, v1)
