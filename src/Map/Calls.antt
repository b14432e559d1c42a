-- ===== src/Map/Calls.antt =====
-- `map_find`, `map_add` and `map_remove` (src/map.c) on the entries.
use sftt.Base.{
  ℕ, suc, ◌+◌, ◌<◌, ◌≡◌, ◌≢◌, refl, Bool, Option, ◌∷◌, ◌++◌, length, eq_refl, ne→==, ok, ap, ◌∙◌,
  sym, subst, arith,
}
use sftt.Base.Count.{hit}
use sftt.Dlist.{dnode}
use sftt.Dlist.Cells.{Cells, first, last, Chain-split, IsList}
use sftt.Dlist.Link.{load-some}
use sftt.Map.{Map, KvNode, KvStore, write_kv, search, kv_at, map_find}
use sftt.Map.Search.{
  kv, Entries, Holding, load_kv-some, find_first, SearchResult, missing, found, search_lem,
}
use sftt.Map.Laws.{uses, uses-append, IsMap, Holding-split, find_first-at}

pub write_kv_same : (kvs : KvStore) (p : ℕ) (c : Option KvNode) → write_kv kvs p c p ≡ c
unfolding write_kv
write_kv_same kvs p c = rw (eq_refl p) refl

pub write_kv_other :
    (kvs : KvStore) (p : ℕ) (c : Option KvNode) (a : ℕ) → a ≢ p → write_kv kvs p c a ≡ kvs a
unfolding write_kv
write_kv_other kvs p c a ne = rw (ne→== a p ne) refl

pub uses_ne : (y z : ℕ) (ys : Cells) → 0 < uses y ys → uses z ys ≡ 0 → y ≢ z
uses_ne y z ys lt o e = absurd (omega (arith, lt, o, ap (λ t. uses t ys) e))

-- A node that a search has found, in the middle of the list.
pub record Place (m : Map) (pre : Cells) (x d : ℕ) (post : Cells) (les : Entries) (k v : ℕ)
    (res : Entries) : Type 0 where
  pub not_null : x ≢ 0
  pub reads : kv_at m x ≡ ok (d, kv k v)
  pub kv_not_null : d ≢ 0
  pub before : Holding m.kvs pre les
  pub after : Holding m.kvs post res
  pub alone : (e : ℕ) → uses e pre + (hit e d + uses e post) < 2

pub place :
    (m : Map) (pre : Cells) (x d : ℕ) (post : Cells) (les : Entries) (k v : ℕ) (res : Entries)
    → IsList m.nodes m.list (pre ++ (x, d) ∷ post)
    → Holding m.kvs (pre ++ (x, d) ∷ post) (les ++ (k, v) ∷ res)
    → ((e : ℕ) → uses e (pre ++ (x, d) ∷ post) < 2)
    → length pre ≡ length les
    → Place m pre x d post les k v res
unfolding kv_at
place m pre x d post les k v res is hs apart n =
    let (c1, (ne, here, c2)) = Chain-split m.nodes 0 pre ((x, d) ∷ post) 0 is.chain in
    let (hp, (dne, at, hq)) = Holding-split m.kvs pre ((x, d) ∷ post) les ((k, v) ∷ res) n hs in
    record {
      not_null = ne;
      reads =
          rw
            (
              load-some m.nodes x (dnode d (last 0 pre) (first post 0)) ne here,
              load_kv-some m.kvs d (kv k v) dne at,
            )
            refl;
      kv_not_null = dne;
      before = hp;
      after = hq;
      alone = λ e. omega (arith, apart e, uses-append e pre ((x, d) ∷ post));
    }

find_result :
    (m : Map) (is_equal : ℕ → ℕ → Bool) (key p : ℕ) (xs : Cells) (es : Entries)
    → IsList m.nodes m.list xs
    → Holding m.kvs xs es
    → ((e : ℕ) → uses e xs < 2)
    → search (suc m.list.size) m.nodes m.kvs (λ k. is_equal k key) m.list.head ≡ ok p
    → SearchResult (λ k. is_equal k key) xs es p
    → map_find m is_equal key ≡ ok (find_first (λ k. is_equal k key) es)
unfolding map_find
find_result m is_equal key p xs es is hs apart e (missing no_hit) = rw (e, no_hit) refl
find_result m is_equal key p xs es is hs apart e
      (found pre x d post les k v res ex ee n yes_hit none_before) =
    let pl =
      place m pre x d post les k v res (subst (λ ys. IsList m.nodes m.list ys) ex is)
        (subst (λ fs. Holding m.kvs (pre ++ (x, d) ∷ post) fs) ee
          (subst (λ ys. Holding m.kvs ys es) ex hs))
        (subst (λ ys. (e : ℕ) → uses e ys < 2) ex apart) n in
    rw (e, ne→== x 0 pl.not_null, pl.reads)
      (ap (λ o. ok o)
        (sym (
          ap (find_first (λ k. is_equal k key)) ee
          ∙ find_first-at (λ k. is_equal k key) les k v res none_before yes_hit)))

pub search_head :
    (m : Map) (kvs : KvStore) (test : ℕ → Bool) (xs : Cells) (es : Entries)
    → IsList m.nodes m.list xs
    → Holding kvs xs es
    → (p : ℕ) × (search (suc m.list.size) m.nodes kvs test m.list.head ≡ ok p)
      × SearchResult test xs es p
search_head m kvs test xs es is hs =
    let (p, e, r) =
      search_lem (suc m.list.size) m.nodes kvs test 0 xs es (omega (arith, is.size)) is.chain hs in
    (p, ap (search (suc m.list.size) m.nodes kvs test) is.head ∙ e, r)

-- For a map whose list is linked both ways and whose nodes have key-value nodes of their own,
-- `map_find` does not fault and gives the value of the first key that the comparison takes for the
-- one asked for, and nothing exactly if there is none.
pub map_find_lem :
    (m : Map) (is_equal : ℕ → ℕ → Bool) (key : ℕ) (es : Entries)
    → IsMap m es
    → map_find m is_equal key ≡ ok (find_first (λ k. is_equal k key) es)
map_find_lem m is_equal key es is =
    let (p, e, r) = search_head m m.kvs (λ k. is_equal k key) is.cells es is.is_list is.holding in
    find_result m is_equal key p is.cells es is.is_list is.holding is.apart e r
