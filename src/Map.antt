-- ===== src/Map.antt =====
-- src/map.c: a map is a doubly linked list of the addresses of key-value nodes, which stand in a
-- store of their own. Keys and values are pointers.
pub mod Search
pub mod Laws
pub mod Calls
pub mod Changes
pub mod Removal
use sftt.Base.{
  ℕ, zero, suc, ◌+◌, Bool, true, false, Option, none, some, List, [], ◌∷◌, ◌==◌, if◌then◌else◌,
  Result, ok, fault, out_of_fuel, ◌>>=◌, from_option,
}
use sftt.Base.Int.{ℤ, pos, negsuc}
use sftt.Dlist.{DlistNode, Store, Dlist, Done, Removed, load, dlist_append, dlist_remove}

-- `struct kv_node`
pub record KvNode : Type 0 where
  pub key : ℕ
  pub value : ℕ

abbrev pub KvStore : Type 0
KvStore = ℕ → Option KvNode

-- The two stores, and `struct map`.
pub record Map : Type 0 where
  pub nodes : Store
  pub kvs : KvStore
  pub list : Dlist

unfoldable pub write_kv : KvStore → ℕ → Option KvNode → KvStore
write_kv kvs p c a = if a == p then c else kvs a

unfoldable pub load_kv : KvStore → ℕ → Result KvNode
load_kv kvs p = if p == 0 then fault else from_option (kvs p)

-- The loops over the list: the first node whose key passes the test, NULL if there is none.
unfoldable pub search : ℕ → Store → KvStore → (ℕ → Bool) → ℕ → Result ℕ
search zero h kvs hit p = out_of_fuel
search (suc fuel) h kvs hit p = if p == 0 then ok 0 else do
  c ← load h p
  k ← load_kv kvs c.value
  let rest = search fuel h kvs hit c.next
  if hit k.key then ok p else rest

-- The key-value node of a node of the list.
unfoldable pub kv_at : Map → ℕ → Result (ℕ × KvNode)
kv_at m p = do c ← load m.nodes p; k ← load_kv m.kvs c.value; ok (c.value, k)

-- The value, or none where the call returns -1.
unfoldable pub map_find : Map → (ℕ → ℕ → Bool) → ℕ → Result (Option ℕ)
map_find m is_equal key = do
  p ← search (suc m.list.size) m.nodes m.kvs (λ k. is_equal k key) m.list.head
  if p == 0 then ok none else do (d, k) ← kv_at m p; ok (some k.value)

-- The new node is given back where the key is there already.
unfoldable pub replace_value : Map → ℕ → ℕ → ℕ → Result (Map × ℤ)
replace_value m p fresh_kv value = do
  (d, k) ← kv_at m p
  ok (
    record m {
      kvs = write_kv (write_kv m.kvs d (some (record k { value = value }))) fresh_kv none;
    },
    pos 0,
  )

unfoldable pub append_kv : Map → ℕ → ℕ → Result (Map × ℤ)
append_kv m fresh_kv fresh = do
  done ← dlist_append m.nodes fresh m.list fresh_kv
  ok (record m { nodes = done.store; list = done.list }, done.ret)

-- `fresh_kv` and `fresh` are the addresses that `mp_malloc` gives for a `kv_node` and a node.
unfoldable pub map_add : Map → ℕ → ℕ → ℕ → ℕ → Result (Map × ℤ)
map_add m fresh_kv fresh key value = if fresh_kv == 0 then ok (m, negsuc 0) else do
  let m1 : Map = record m {
    kvs = write_kv m.kvs fresh_kv (some (record { key = key; value = value }));
  }
  p ← search (suc m1.list.size) m1.nodes m1.kvs (λ k. k == key) m1.list.head
  if p == 0 then append_kv m1 fresh_kv fresh else replace_value m1 p fresh_kv value

-- What `dlist_remove` gives goes to the caller: the address of the `kv_node`.
unfoldable pub map_remove : Map → ℕ → Result (Map × (Option ℕ × ℤ))
map_remove m key = do
  p ← search (suc m.list.size) m.nodes m.kvs (λ k. k == key) m.list.head
  if p == 0 then ok (m, (none, negsuc 0)) else do
    r ← dlist_remove m.nodes m.list p true
    ok (record m { nodes = r.store; list = r.list }, (r.value, pos 0))
