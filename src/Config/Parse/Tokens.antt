-- ===== src/Config/Parse/Tokens.antt =====
-- daemon/retif_config.c: the tokens of a text, and the conversion of what is read.
use retif.Common.{ℕ, Bool, Option, none, some, List, [], ◌∷◌, ◌==◌, if◌then◌else◌}
use retif.Common.Int.{ℤ}
use retif.Task.{int_of_uint64}
use retif.Config.{to_size}

-- The conversion of a `long` to an `int`.
abbrev pub int_of_long : ℤ → ℤ
int_of_long n = int_of_uint64 (to_size n)

-- `strtok_r` for a set of delimiters: the token, the delimiter behind it (0 at the end), and the rest.
abbrev skip_delims : (ℕ → Bool) → List ℕ → List ℕ
skip_delims d [] = []
skip_delims d (c ∷ cs) = let rest = skip_delims d cs in if d c then rest else c ∷ cs

abbrev token_of : (ℕ → Bool) → List ℕ → List ℕ
token_of d [] = []
token_of d (c ∷ cs) = let rest = token_of d cs in if d c then [] else c ∷ rest

abbrev delim_of : (ℕ → Bool) → List ℕ → ℕ
delim_of d [] = 0
delim_of d (c ∷ cs) = let rest = delim_of d cs in if d c then c else rest

abbrev rest_of : (ℕ → Bool) → List ℕ → List ℕ
rest_of d [] = []
rest_of d (c ∷ cs) = let rest = rest_of d cs in if d c then cs else rest

abbrev cut : (ℕ → Bool) → List ℕ → Option (List ℕ × ℕ × List ℕ)
cut d [] = none
cut d (c ∷ cs) = some (token_of d (c ∷ cs), delim_of d (c ∷ cs), rest_of d (c ∷ cs))

abbrev pub strtok : (ℕ → Bool) → List ℕ → Option (List ℕ × ℕ × List ℕ)
strtok d s = cut d (skip_delims d s)

abbrev pub is_dash : ℕ → Bool
is_dash c = c == b'-'
