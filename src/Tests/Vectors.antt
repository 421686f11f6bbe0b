-- ===== src/Tests/Vectors.antt =====
-- A vector of two numbers of four bytes, and an allocator that has room for eight.
use retif.Common.{
  ℕ, ◌+◌, ◌*◌, ◌-◌, ◌^◌, ◌<◌, Bool, true, some, none, [], ◌∷◌, leb, ◌==◌, ◌≡◌, refl, arith,
}
use retif.Vector.{Vector, vector_push_back, vector_insert_multi, vector_reserve}
use retif.Vector.Elements.{IsValid}
use retif.Vector.Insertion.{Appended, vector_push_back-Appended}
use retif.Vector.Middle.{vector_insert_multi-faults}
use retif.Vector.Erasure.{Erased, Popped, vector_erase_multi-Erased, vector_pop_back-push_back}
use retif.Tests.Data.{got}

abbrev vector : Vector ℕ
vector = record { capacity = 2; item_size = 4; size = 2; cells = λ i. i + 10 }

abbrev grant : ℕ → Bool
grant n = leb n 8

vector-IsValid : IsValid vector
vector-IsValid = record { has_size = omega arith; fits = omega arith; small = omega arith }

small : (m : ℕ) → grant m ≡ true → m * 4 < 2 ^ 63
small m h = ground arith

push_back_example : Appended vector (7 ∷ []) (vector_push_back grant vector 7)
push_back_example = vector_push_back-Appended grant vector 7 vector-IsValid small (omega arith)

reserved_test : ((vector_reserve grant vector (2 + (1 - 0))).0 == 0) ≡ true
unfolding vector_reserve
reserved_test = refl

insert_multi_example : vector_insert_multi grant vector 0 (λ i. 7) 0 1 ≡ none
insert_multi_example =
    vector_insert_multi-faults grant vector 0 (λ i. 7) 0 1 vector-IsValid small (omega arith)
      (omega arith) (omega arith) reserved_test

erase_multi_example : Erased vector 0 1
erase_multi_example =
    vector_erase_multi-Erased vector 0 1 vector-IsValid (omega arith) (omega arith)

abbrev pushed : ℕ × Vector ℕ
pushed = got (vector_push_back grant vector 7) (1, vector)

pushed-run : vector_push_back grant vector 7 ≡ some (0, pushed.1)
unfolding vector_push_back
pushed-run = refl

pop_back_example : Popped pushed.1 7 (10 ∷ 11 ∷ [])
pop_back_example =
    vector_pop_back-push_back grant vector pushed.1 7 vector-IsValid small (omega arith) pushed-run
