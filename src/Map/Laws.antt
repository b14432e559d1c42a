-- ===== src/Map/Laws.antt =====
-- The operations of src/map.c on the entries that a map stands for.
use sftt.Base.{
  ℕ, ◌+◌, ◌<◌, ◌≡◌, refl, Bool, true, none, some, [], ◌∷◌, ◌++◌, length, ◌==◌, if◌then◌else◌,
  Bool-cases, ==→eq, inl, inr, ap, ◌∙◌, sym, arith,
}
use sftt.Base.Count.{hit}
use sftt.Dlist.Cells.{Cells, IsList, hit_self}
use sftt.Map.{Map, KvNode, KvStore}
use sftt.Map.Search.{Entries, Holding, find_first}

-- How often a key-value node stands in the list.
abbrev pub uses : ℕ → Cells → ℕ
uses d [] = 0
uses d ((x, e) ∷ xs) = hit d e + uses d xs

pub uses-append : (d : ℕ) (xs ys : Cells) → uses d (xs ++ ys) ≡ uses d xs + uses d ys
uses-append d [] ys = omega arith
uses-append d ((x, e) ∷ xs) ys = omega (arith, uses-append d xs ys)

-- The map stands for the entries: no two nodes of its list share a key-value node.
pub record IsMap (m : Map) (es : Entries) : Type 0 where
  pub cells : Cells
  pub is_list : IsList m.nodes m.list cells
  pub holding : Holding m.kvs cells es
  pub apart : (d : ℕ) → uses d cells < 2

pub Holding-frame :
    (kvs kvs' : KvStore) (xs : Cells) (es : Entries)
    → ((d : ℕ) → 0 < uses d xs → kvs' d ≡ kvs d)
    → Holding kvs xs es
    → Holding kvs' xs es
Holding-frame kvs kvs' [] [] same hs = tt
Holding-frame kvs kvs' [] (e ∷ es) same hs = hs
Holding-frame kvs kvs' (c ∷ xs) [] same hs = hs
Holding-frame kvs kvs' ((x, d) ∷ xs) ((k, v) ∷ es) same (ne, at, hs) = (
  ne,
  same d (omega (arith, hit_self d)) ∙ at,
  Holding-frame kvs kvs' xs es (λ b lt. same b (omega (arith, lt))) hs,
)

pub Holding-append :
    (kvs : KvStore) (xs ys : Cells) (es fs : Entries)
    → Holding kvs xs es
    → Holding kvs ys fs
    → Holding kvs (xs ++ ys) (es ++ fs)
Holding-append kvs [] ys [] fs p q = q
Holding-append kvs [] ys (e ∷ es) fs p q = absurd p
Holding-append kvs (c ∷ xs) ys [] fs p q = absurd p
Holding-append kvs ((x, d) ∷ xs) ys ((k, v) ∷ es) fs (ne, at, p) q =
    (ne, at, Holding-append kvs xs ys es fs p q)

pub Holding-split :
    (kvs : KvStore) (xs ys : Cells) (es fs : Entries)
    → length xs ≡ length es
    → Holding kvs (xs ++ ys) (es ++ fs)
    → Holding kvs xs es × Holding kvs ys fs
Holding-split kvs [] ys [] fs n p = (tt, p)
Holding-split kvs [] ys (e ∷ es) fs n p = absurd (omega (arith, n))
Holding-split kvs (c ∷ xs) ys [] fs n p = absurd (omega (arith, n))
Holding-split kvs ((x, d) ∷ xs) ys ((k, v) ∷ es) fs n (ne, at, p) =
    let (one, two) = Holding-split kvs xs ys es fs (omega (arith, n)) p in ((ne, at, one), two)

-- A free address is that of no key-value node of the list.
pub uses_of_none :
    (kvs : KvStore) (xs : Cells) (es : Entries) (d : ℕ)
    → Holding kvs xs es
    → kvs d ≡ none
    → uses d xs ≡ 0
uses_of_none kvs [] es d hs free = refl
uses_of_none kvs (c ∷ xs) [] d hs free = absurd hs
uses_of_none kvs ((x, e) ∷ xs) ((k, v) ∷ es) d (ne, at, hs) free = elim (Bool-cases (d == e)) [
  | inl same ↦ let p : d ≡ e = ==→eq d e same in absurd (none_kv (sym free ∙ ap kvs p ∙ at))
  | inr other ↦ rw other (omega (arith, uses_of_none kvs xs es d hs free))
]
  where
    none_kv : {n : KvNode} → none ≡ some n → ⊥
    none_kv p = cc

-- What the entries come to.
abbrev pub upsert : ℕ → ℕ → Entries → Entries
upsert key value [] = (key, value) ∷ []
upsert key value ((k, v) ∷ es) =
    let rest = upsert key value es in if k == key then (k, value) ∷ es else (k, v) ∷ rest

abbrev pub delete : ℕ → Entries → Entries
delete key [] = []
delete key ((k, v) ∷ es) = let rest = delete key es in if k == key then es else (k, v) ∷ rest

some_not : {w : ℕ} → some w ≡ none → ⊥
some_not e = cc

pub find_first-at :
    (test : ℕ → Bool) (les : Entries) (k v : ℕ) (res : Entries)
    → find_first test les ≡ none
    → test k ≡ true
    → find_first test (les ++ (k, v) ∷ res) ≡ some v
find_first-at test [] k v res e t = rw t refl
find_first-at test ((j, w) ∷ les) k v res e t = elim (Bool-cases (test j)) [
  | inl yes_hit ↦ absurd (some_not (rw yes_hit at e))
  | inr no_hit ↦ rw no_hit (find_first-at test les k v res (rw no_hit at e) t)
]

pub upsert-at :
    (key value : ℕ) (les : Entries) (k v : ℕ) (res : Entries)
    → find_first (λ j. j == key) les ≡ none
    → (k == key) ≡ true
    → upsert key value (les ++ (k, v) ∷ res) ≡ les ++ (k, value) ∷ res
upsert-at key value [] k v res e t = rw t refl
upsert-at key value ((j, w) ∷ les) k v res e t = elim (Bool-cases (j == key)) [
  | inl yes_hit ↦ absurd (some_not (rw yes_hit at e))
  | inr no_hit ↦
      rw no_hit (ap (λ es. (j, w) ∷ es) (upsert-at key value les k v res (rw no_hit at e) t))
]

pub delete-at :
    (key : ℕ) (les : Entries) (k v : ℕ) (res : Entries)
    → find_first (λ j. j == key) les ≡ none
    → (k == key) ≡ true
    → delete key (les ++ (k, v) ∷ res) ≡ les ++ res
delete-at key [] k v res e t = rw t refl
delete-at key ((j, w) ∷ les) k v res e t = elim (Bool-cases (j == key)) [
  | inl yes_hit ↦ absurd (some_not (rw yes_hit at e))
  | inr no_hit ↦ rw no_hit (ap (λ es. (j, w) ∷ es) (delete-at key les k v res (rw no_hit at e) t))
]

pub upsert-missing :
    (key value : ℕ) (es : Entries)
    → find_first (λ j. j == key) es ≡ none
    → upsert key value es ≡ es ++ (key, value) ∷ []
upsert-missing key value [] e = refl
upsert-missing key value ((j, w) ∷ es) e = elim (Bool-cases (j == key)) [
  | inl yes_hit ↦ absurd (some_not (rw yes_hit at e))
  | inr no_hit ↦ rw no_hit (ap (λ t. (j, w) ∷ t) (upsert-missing key value es (rw no_hit at e)))
]

pub delete-missing :
    (key : ℕ) (es : Entries) → find_first (λ j. j == key) es ≡ none → delete key es ≡ es
delete-missing key [] e = refl
delete-missing key ((j, w) ∷ es) e = elim (Bool-cases (j == key)) [
  | inl yes_hit ↦ absurd (some_not (rw yes_hit at e))
  | inr no_hit ↦ rw no_hit (ap (λ t. (j, w) ∷ t) (delete-missing key es (rw no_hit at e)))
]
