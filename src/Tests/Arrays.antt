-- ===== src/Tests/Arrays.antt =====
-- Tests of ordered_array.c on an array of numbers.
use ahk_main.Base.{ℕ, ◌≡◌, refl, some, [], ◌∷◌, ok, read, write, ltb, arith}
use ahk_main.OrderedArray.{OrderedArray, LessThan, insert_ordered_array, remove_ordered_array}
use ahk_main.OrderedArray.Insert.{Inserted, insert_ordered_array-Inserted}
use ahk_main.OrderedArray.Remove.{Shrunk, remove_ordered_array-Shrunk}
use ahk_main.OrderedArray.Sorted.{IsStrictWeakOrder, KeepsSorted, insert_ordered_array-KeepsSorted}

abbrev less : LessThan ℕ ℕ
less m a b = ltb a b

abbrev three : OrderedArray ℕ ℕ
three = record { array = 2 ∷ 5 ∷ 7 ∷ 0 ∷ []; size = 3; max_size = 4; less_than = some less }

inserted :
    insert_ordered_array 0 6 three ≡ ok (record three { array = 2 ∷ 5 ∷ 6 ∷ 7 ∷ []; size = 4 })
unfolding insert_ordered_array read write
inserted = refl

removed : remove_ordered_array 1 three ≡ ok (record three { array = 2 ∷ 7 ∷ 0 ∷ 0 ∷ []; size = 2 })
unfolding remove_ordered_array read write
removed = refl

insert_ordered_array-Inserted_example :
    Inserted (λ x. less 0 x 6) 6 three (insert_ordered_array 0 6 three)
insert_ordered_array-Inserted_example =
    insert_ordered_array-Inserted 0 6 three less refl (omega arith) (omega arith)

less-IsStrictWeakOrder : IsStrictWeakOrder (less 0)
less-IsStrictWeakOrder = record {
  asymmetric = λ x y e. ground arith;
  negatively_transitive = λ x y z e f. ground arith;
}

insert_ordered_array-KeepsSorted_example :
    KeepsSorted (less 0) 6 three (insert_ordered_array 0 6 three)
insert_ordered_array-KeepsSorted_example =
    insert_ordered_array-KeepsSorted 0 6 three less refl less-IsStrictWeakOrder (omega arith)
      (omega arith) ((refl, (refl, tt)), ((refl, tt), (tt, tt)))

remove_ordered_array-Shrunk_example : Shrunk 1 three (remove_ordered_array 1 three)
remove_ordered_array-Shrunk_example =
    remove_ordered_array-Shrunk 1 three (omega arith) (omega arith) (omega arith)
