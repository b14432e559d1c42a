-- ===== src/Tests/Maps.antt =====
-- A map of the keys 1 and 2.
use sftt.Base.{ℕ, ◌≡◌, refl, Option, none, some, [], ◌∷◌, length, ◌==◌, if◌then◌else◌, arith, ok}
use sftt.Base.Int.{ℤ}
use sftt.Dlist.{Store, dnode}
use sftt.Map.{Map, KvStore, map_add, map_remove}
use sftt.Map.Search.{kv, Entries, find_first}
use sftt.Map.Laws.{IsMap, upsert, delete}
use sftt.Map.Changes.{add_ret, map_add_lem}
use sftt.Map.Removal.{RemoveSpec, map_remove_lem}

abbrev map_nodes : Store
map_nodes a = if a == 10 then some (dnode 5 0 20) else if a == 20 then some (dnode 3 10 0) else none

abbrev map_kvs : KvStore
map_kvs a = if a == 5 then some (kv 1 100) else if a == 3 then some (kv 2 200) else none

abbrev two_keys : Map
two_keys = record {
  nodes = map_nodes;
  kvs = map_kvs;
  list = record { size = 2; head = 10; tail = 20 };
}

abbrev two_entries : Entries
two_entries = (1, 100) ∷ (2, 200) ∷ []

two_keys-IsMap : IsMap two_keys two_entries
two_keys-IsMap = record {
  cells = (10, 5) ∷ (20, 3) ∷ [];
  is_list = record {
    chain = (λ e. absurd (omega (arith, e)), refl, (λ e. absurd (omega (arith, e)), refl, tt));
    distinct = λ a. ground arith;
    head = refl;
    tail = refl;
    size = refl;
  };
  holding = (λ e. absurd (omega (arith, e)), refl, (λ e. absurd (omega (arith, e)), refl, tt));
  apart = λ a. ground arith;
}

map_add_lem_example :
    (m : Map) × (map_add two_keys 7 30 2 300
      ≡ ok (m, add_ret (find_first (λ k. k == 2) two_entries) (length (upsert 2 300 two_entries))))
    × IsMap m (upsert 2 300 two_entries)
map_add_lem_example =
    map_add_lem two_keys 7 30 2 300 two_entries two_keys-IsMap (λ e. absurd (omega (arith, e))) refl
      (λ e. absurd (omega (arith, e))) refl

map_remove_lem_example :
    (m : Map) × (out : Option ℕ × ℤ) × (map_remove two_keys 2 ≡ ok (m, out))
    × IsMap m (delete 2 two_entries)
    × RemoveSpec two_keys 2 two_entries out
map_remove_lem_example = map_remove_lem two_keys 2 two_entries two_keys-IsMap
