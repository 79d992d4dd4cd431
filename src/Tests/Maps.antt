-- ===== src/Tests/Maps.antt =====
-- Tests of crates/jiter/src/lazy_index_map.rs.
use jiter.Prelude.{ℕ, zero, suc, ◌+◌, ◌%◌, ◌<◌, ◌≡◌, refl, [], ◌∷◌, none, some, arith}
use jiter.Prelude.Eq.{nat_eq}
use jiter.LazyIndexMap.{
  LazyIndexMap, insert, get, get_map, put, collect, iter_unique, found, missing,
}
use jiter.LazyIndexMap.Index.{
  IsValid, last_value, keep_last, insert-IsValid, get_map-IsValid, iter_unique-keep_last,
}
use jiter.LazyIndexMap.Scan.{Holds, get-nearest}
use jiter.LazyIndexMap.Distinct.{IsDistinct, get-distinct}

abbrev two : LazyIndexMap ℕ ℕ
two = record { vec = (1, 10) ∷ (2, 20) ∷ []; index_map = none; last_find = 0 }

abbrev twice : LazyIndexMap ℕ ℕ
twice = record { vec = (1, 10) ∷ (2, 20) ∷ (1, 30) ∷ []; index_map = none; last_find = 0 }

get-two : (get 1 two).0 ≡ found 10
unfolding get
get-two = refl

get-twice : ((get 1 twice).0 ≡ found 30) × ((get 1 (get 1 twice).1).0 ≡ found 10)
unfolding get
get-twice = (refl, refl)

two-IsDistinct : IsDistinct two.vec
two-IsDistinct key v w zero zero h g = refl
two-IsDistinct key v w zero (suc zero) h g = cc
two-IsDistinct key v w zero (suc (suc j)) h g = cc
two-IsDistinct key v w (suc zero) zero h g = cc
two-IsDistinct key v w (suc zero) (suc zero) h g = refl
two-IsDistinct key v w (suc zero) (suc (suc j)) h g = cc
two-IsDistinct key v w (suc (suc i)) j h g = cc

get-distinct_example : (get 2 two).0 ≡ last_value 2 two.vec missing
get-distinct_example = get-distinct 2 two tt two-IsDistinct

-- Between the first entry and the third stands another key.
passes : (j : ℕ) → j < 1 → (v : ℕ) → Holds twice.vec 1 v ((twice.last_find + 1 + j) % 3) → ⊥
passes zero l v h = cc
passes (suc j) l v h = absurd (omega arith)

get-nearest_example : get 1 twice ≡ (found 30, record twice { last_find = 2 })
get-nearest_example = get-nearest 1 twice 30 1 (omega arith) (omega arith) refl passes

-- `two` behind the first call that builds its map.
abbrev built : LazyIndexMap ℕ ℕ
built = (get_map two).1

insert-IsValid_example : IsValid (insert 1 30 built)
insert-IsValid_example = insert-IsValid 1 30 built (get_map-IsValid two tt)

-- The map that the insertion leaves is a built one, with the new index.
insert-built : (insert 1 30 built).index_map ≡ some ((1, 2) ∷ (2, 1) ∷ [])
unfolding insert get_map put collect
insert-built = refl

iter_unique-keep_last_example : (iter_unique twice).0 ≡ keep_last twice.vec
iter_unique-keep_last_example = iter_unique-keep_last twice tt
