-- ===== src/Map/Removal.antt =====
-- `map_remove` (src/map.c).
use sftt.Base.{
  ℕ, suc, ◌<◌, ◌≡◌, refl, true, Option, none, some, ◌∷◌, ◌++◌, ◌==◌, ==→eq, ne→==, ok, ap, ◌∙◌,
  subst, arith,
}
use sftt.Base.Int.{ℤ, pos, negsuc}
use sftt.Dlist.Cells.{Cells, IsList}
use sftt.Dlist.Remove.{dlist_remove_lem}
use sftt.Map.{Map, search, map_remove}
use sftt.Map.Search.{kv, Entries, Holding, find_first, SearchResult, missing, found}
use sftt.Map.Laws.{
  uses, uses-append, IsMap, Holding-append, Holding-split, delete, find_first-at, delete-at,
  delete-missing,
}
use sftt.Map.Calls.{place, search_head}

-- What `map_remove` gives: -1 if the key is not there, and else 0 and the address of its
-- key-value node.
pub data RemoveSpec (m : Map) (key : ℕ) (es : Entries) : Option ℕ × ℤ → Type 0 where
  no_key : find_first (λ k. k == key) es ≡ none → RemoveSpec m key es (none, negsuc 0)
  taken :
      (d v : ℕ)
      → m.kvs d ≡ some (kv key v)
      → find_first (λ k. k == key) es ≡ some v
      → RemoveSpec m key es (some d, pos 0)

removed :
    (m : Map) (key p : ℕ) (xs : Cells) (es : Entries)
    → IsList m.nodes m.list xs
    → Holding m.kvs xs es
    → ((e : ℕ) → uses e xs < 2)
    → search (suc m.list.size) m.nodes m.kvs (λ k. k == key) m.list.head ≡ ok p
    → SearchResult (λ k. k == key) xs es p
    → (m' : Map) × (out : Option ℕ × ℤ) × (map_remove m key ≡ ok (m', out))
      × IsMap m' (delete key es)
      × RemoveSpec m key es out
unfolding map_remove
removed m key p xs es is hs apart e (missing no_hit) = (
  m,
  (none, negsuc 0),
  rw e refl,
  rw (delete-missing key es no_hit)
      (record { cells = xs; is_list = is; holding = hs; apart = apart }),
  no_key no_hit,
)
removed m key p xs es is hs apart e (found pre x d post les k v res ex ee n yes_hit none_before) =
    let is' = subst (λ ys. IsList m.nodes m.list ys) ex is in
    let hs' =
      subst (λ fs. Holding m.kvs (pre ++ (x, d) ∷ post) fs) ee
        (subst (λ ys. Holding m.kvs ys es) ex hs) in
    let apart' = subst (λ ys. (e : ℕ) → uses e ys < 2) ex apart in
    let pl = place m pre x d post les k v res is' hs' apart' n in
    let it = dlist_remove_lem m.nodes m.list pre x d post true is' in
    let ff : find_first (λ j. j == key) es ≡ some v =
      ap (find_first (λ j. j == key)) ee
      ∙ find_first-at (λ j. j == key) les k v res none_before yes_hit in
    let gone : delete key es ≡ les ++ res =
      ap (delete key) ee ∙ delete-at key les k v res none_before yes_hit in
    let (hp, (dne, at, hq)) = Holding-split m.kvs pre ((x, d) ∷ post) les ((k, v) ∷ res) n hs' in
    let same_key : k ≡ key = ==→eq k key yes_hit in
    (
      record m { nodes = it.gone.store; list = it.gone.list },
      (some d, pos 0),
      rw (e, ne→== x 0 pl.not_null, it.runs, it.value) refl,
      rw gone (record {
        cells = pre ++ post;
        is_list = it.is_list;
        holding = Holding-append m.kvs pre post les res hp hq;
        apart = λ b. omega (arith, pl.alone b, uses-append b pre post);
      }),
      taken d v (at ∙ ap (λ j. some (kv j v)) same_key) ff,
    )

-- For a map whose list is linked both ways and whose nodes have key-value nodes of their own,
-- `map_remove` does not fault and leaves a map of the entries without the first one of the key; it
-- returns -1 if there is none, and else 0, and what it stores for its caller is the address of the
-- key-value node, not the value.
pub map_remove_lem :
    (m : Map) (key : ℕ) (es : Entries)
    → IsMap m es
    → (m' : Map) × (out : Option ℕ × ℤ) × (map_remove m key ≡ ok (m', out))
      × IsMap m' (delete key es)
      × RemoveSpec m key es out
map_remove_lem m key es is =
    let (p, e, r) = search_head m m.kvs (λ k. k == key) is.cells es is.is_list is.holding in
    removed m key p is.cells es is.is_list is.holding is.apart e r
