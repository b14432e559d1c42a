-- ===== src/Map/Changes.antt =====
-- `map_add` (src/map.c).
use sftt.Base.{
  ℕ, suc, ◌+◌, ◌<◌, ◌≡◌, ◌≢◌, refl, Option, none, some, [], ◌∷◌, ◌++◌, length, length-append, ◌==◌,
  Bool-cases, ==→eq, inl, inr, ne→==, ok, ap, ◌∙◌, sym, subst, arith,
}
use sftt.Base.Int.{ℤ, pos}
use sftt.Base.Count.{hit}
use sftt.Dlist.Cells.{Cells, IsList, hit_self, hit_zero}
use sftt.Dlist.Insert.Ends.{dlist_append_lem}
use sftt.Map.{Map, KvStore, write_kv, search, map_add, append_kv, replace_value}
use sftt.Map.Search.{kv, Entries, Holding, find_first, SearchResult, missing, found}
use sftt.Map.Laws.{
  uses, uses-append, IsMap, Holding-frame, Holding-append, uses_of_none, upsert, find_first-at,
  upsert-at, upsert-missing,
}
use sftt.Map.Calls.{write_kv_same, write_kv_other, uses_ne, place, search_head}

-- The node that is there already gets the value.
replaced :
    (m : Map) (fresh_kv value : ℕ) (pre : Cells) (x d : ℕ) (post : Cells) (les : Entries) (k v : ℕ)
    (res : Entries)
    → IsList m.nodes m.list (pre ++ (x, d) ∷ post)
    → Holding m.kvs (pre ++ (x, d) ∷ post) (les ++ (k, v) ∷ res)
    → ((e : ℕ) → uses e (pre ++ (x, d) ∷ post) < 2)
    → length pre ≡ length les
    → uses fresh_kv (pre ++ (x, d) ∷ post) ≡ 0
    → (m' : Map) × (replace_value m x fresh_kv value ≡ ok (m', pos 0))
      × IsMap m' (les ++ (k, value) ∷ res)
unfolding replace_value
replaced m fresh_kv value pre x d post les k v res is hs apart n out =
    let pl = place m pre x d post les k v res is hs apart n in
    let out' : uses fresh_kv pre + (hit fresh_kv d + uses fresh_kv post) ≡ 0 =
      omega (arith, out, uses-append fresh_kv pre ((x, d) ∷ post)) in
    let kvs1 = write_kv m.kvs d (some (kv k value)) in
    let kvs' = write_kv kvs1 fresh_kv none in
    let df : d ≢ fresh_kv = λ e. hit_zero fresh_kv d (omega (arith, out')) (sym e) in
    let same : (b : ℕ) → b ≢ d → b ≢ fresh_kv → kvs' b ≡ m.kvs b = λ b nd nf.
      write_kv_other kvs1 fresh_kv none b nf ∙ write_kv_other m.kvs d (some (kv k value)) b nd in
    let d_pre : uses d pre ≡ 0 = omega (arith, pl.alone d, hit_self d) in
    let d_post : uses d post ≡ 0 = omega (arith, pl.alone d, hit_self d) in
    (
      record m { kvs = kvs' },
      rw pl.reads refl,
      record {
        cells = pre ++ (x, d) ∷ post;
        is_list = is;
        holding =
            Holding-append kvs' pre ((x, d) ∷ post) les ((k, value) ∷ res)
              (Holding-frame m.kvs kvs' pre les
                (λ b lt.
                  same b (uses_ne b d pre lt d_pre)
                    (uses_ne b fresh_kv pre lt (omega (arith, out'))))
                pl.before)
              (
                pl.kv_not_null,
                write_kv_other kvs1 fresh_kv none d df ∙ write_kv_same m.kvs d (some (kv k value)),
                Holding-frame m.kvs kvs' post res
                    (λ b lt.
                      same b (uses_ne b d post lt d_post)
                        (uses_ne b fresh_kv post lt (omega (arith, out'))))
                    pl.after,
              );
        apart = apart;
      },
    )

length-Holding :
    (kvs : KvStore) (xs : Cells) (es : Entries) → Holding kvs xs es → length xs ≡ length es
length-Holding kvs [] [] h = refl
length-Holding kvs [] (e ∷ es) h = absurd h
length-Holding kvs (c ∷ xs) [] h = absurd h
length-Holding kvs ((x, d) ∷ xs) ((k, v) ∷ es) (dne, at, h) = ap suc (length-Holding kvs xs es h)

apart_snoc :
    (f g : ℕ) (xs : Cells) (e : ℕ)
    → ((e : ℕ) → uses e xs < 2)
    → uses f xs ≡ 0
    → uses e (xs ++ (g, f) ∷ []) < 2
apart_snoc f g xs e apart out = elim (Bool-cases (e == f)) [
  | inl same ↦
      let p : e ≡ f = ==→eq e f same in
      rw p (omega (arith, uses-append f xs ((g, f) ∷ []), out, hit_self f))
  | inr other ↦
      let z : hit e f ≡ 0 = rw other refl in
      omega (arith, uses-append e xs ((g, f) ∷ []), z, apart e)
]

-- A new node goes to the end.
appended :
    (m : Map) (fresh_kv fresh key value : ℕ) (xs : Cells) (es : Entries)
    → IsList m.nodes m.list xs
    → Holding m.kvs xs es
    → ((e : ℕ) → uses e xs < 2)
    → uses fresh_kv xs ≡ 0
    → fresh_kv ≢ 0
    → m.kvs fresh_kv ≡ some (kv key value)
    → m.nodes fresh ≡ none
    → fresh ≢ 0
    → (m' : Map) × (append_kv m fresh_kv fresh ≡ ok (m', pos (length (es ++ (key, value) ∷ []))))
      × IsMap m' (es ++ (key, value) ∷ [])
unfolding append_kv
appended m fresh_kv fresh key value xs es is hs apart out kne at free ne =
    let it = dlist_append_lem m.nodes fresh m.list xs fresh_kv is free ne in
    let n : length (xs ++ (fresh, fresh_kv) ∷ []) ≡ length (es ++ (key, value) ∷ []) = omega (
      arith,
      length-append xs ((fresh, fresh_kv) ∷ []),
      length-append es ((key, value) ∷ []),
      length-Holding m.kvs xs es hs,
    ) in
    (
      record m { nodes = it.done.store; list = it.done.list },
      rw (it.runs, it.ret, n) refl,
      record {
        cells = xs ++ (fresh, fresh_kv) ∷ [];
        is_list = it.is_list;
        holding =
            Holding-append m.kvs xs ((fresh, fresh_kv) ∷ []) es ((key, value) ∷ []) hs
              (kne, at, tt);
        apart = λ e. apart_snoc fresh_kv fresh xs e apart out;
      },
    )

-- What `map_add` returns: 0 for a key that is there, and else the new number of entries.
abbrev pub add_ret : Option ℕ → ℕ → ℤ
add_ret none n = pos n
add_ret (some v) n = pos 0

added :
    (m : Map) (fresh_kv fresh key value p : ℕ) (xs : Cells) (es : Entries)
    → IsList m.nodes m.list xs
    → Holding (write_kv m.kvs fresh_kv (some (kv key value))) xs es
    → ((e : ℕ) → uses e xs < 2)
    → uses fresh_kv xs ≡ 0
    → fresh_kv ≢ 0
    → fresh ≢ 0
    → m.nodes fresh ≡ none
    → search
        (suc m.list.size)
        m.nodes
        (write_kv m.kvs fresh_kv (some (kv key value)))
        (λ k. k == key)
        m.list.head
      ≡ ok p
    → SearchResult (λ k. k == key) xs es p
    → (m' : Map) × (map_add m fresh_kv fresh key value
        ≡ ok (m', add_ret (find_first (λ k. k == key) es) (length (upsert key value es))))
      × IsMap m' (upsert key value es)
unfolding map_add
added m fresh_kv fresh key value p xs es is hs apart out kne ne free e (missing no_hit) =
    let m1 : Map = record m { kvs = write_kv m.kvs fresh_kv (some (kv key value)) } in
    let (m', run, im) =
      appended m1 fresh_kv fresh key value xs es is hs apart out kne
        (write_kv_same m.kvs fresh_kv (some (kv key value))) free ne in
    (
      m',
      rw (ne→== fresh_kv 0 kne, e, no_hit, upsert-missing key value es no_hit) run,
      rw (upsert-missing key value es no_hit) im,
    )
added m fresh_kv fresh key value p xs es is hs apart out kne ne free e
      (found pre x d post les k v res ex ee n yes_hit none_before) =
    let m1 : Map = record m { kvs = write_kv m.kvs fresh_kv (some (kv key value)) } in
    let is' = subst (λ ys. IsList m.nodes m.list ys) ex is in
    let hs' =
      subst (λ fs. Holding m1.kvs (pre ++ (x, d) ∷ post) fs) ee
        (subst (λ ys. Holding m1.kvs ys es) ex hs) in
    let apart' = subst (λ ys. (e : ℕ) → uses e ys < 2) ex apart in
    let pl = place m1 pre x d post les k v res is' hs' apart' n in
    let (m', run, im) =
      replaced m1 fresh_kv value pre x d post les k v res is' hs' apart' n
        (subst (λ ys. uses fresh_kv ys ≡ 0) ex out) in
    let ff : find_first (λ j. j == key) es ≡ some v =
      ap (find_first (λ j. j == key)) ee
      ∙ find_first-at (λ j. j == key) les k v res none_before yes_hit in
    let up : upsert key value es ≡ les ++ (k, value) ∷ res =
      ap (upsert key value) ee ∙ upsert-at key value les k v res none_before yes_hit in
    (m', rw (ne→== fresh_kv 0 kne, e, ne→== x 0 pl.not_null, ff) run, rw up im)

-- For a map whose list is linked both ways and whose nodes have key-value nodes of their own, and
-- addresses of a key-value node and a list node that are free and not NULL, `map_add` does not
-- fault and leaves a map of the entries in which the value of the key is replaced, at its place,
-- or the entry is put at the end if the key is not there; it returns 0 in the first case and the
-- new number of entries in the second.
pub map_add_lem :
    (m : Map) (fresh_kv fresh key value : ℕ) (es : Entries)
    → IsMap m es
    → fresh_kv ≢ 0
    → m.kvs fresh_kv ≡ none
    → fresh ≢ 0
    → m.nodes fresh ≡ none
    → (m' : Map) × (map_add m fresh_kv fresh key value
        ≡ ok (m', add_ret (find_first (λ k. k == key) es) (length (upsert key value es))))
      × IsMap m' (upsert key value es)
map_add_lem m fresh_kv fresh key value es is kne kfree ne free =
    let kvs1 = write_kv m.kvs fresh_kv (some (kv key value)) in
    let out = uses_of_none m.kvs is.cells es fresh_kv is.holding kfree in
    let hs =
      Holding-frame m.kvs kvs1 is.cells es
        (λ b lt.
          write_kv_other m.kvs fresh_kv (some (kv key value)) b
            (uses_ne b fresh_kv is.cells lt out))
        is.holding in
    let (p, e, r) = search_head m kvs1 (λ k. k == key) is.cells es is.is_list hs in
    added m fresh_kv fresh key value p is.cells es is.is_list hs is.apart out kne ne free e r
