-- ===== src/Map/Search.antt =====
-- What the loops of src/map.c find.
use sftt.Base.{
  ℕ, zero, suc, ◌<◌, ◌≡◌, ◌≢◌, refl, Bool, true, false, Option, none, some, List, [], ◌∷◌, ◌++◌,
  length, if◌then◌else◌, Bool-cases, inl, inr, ne→==, ok, ap, arith,
}
use sftt.Dlist.{dnode, Store}
use sftt.Dlist.Cells.{Cells, first, Chain}
use sftt.Dlist.Link.{load-some}
use sftt.Map.{KvNode, KvStore, load_kv, search}

abbrev pub kv : ℕ → ℕ → KvNode
kv k v = record { key = k; value = v }

-- The keys and the values, in order.
abbrev pub Entries : Type 0
Entries = List (ℕ × ℕ)

-- The key-value nodes of the cells hold these entries.
abbrev pub Holding : KvStore → Cells → Entries → Type 0
Holding kvs [] [] = Unit {0}
Holding kvs [] (e ∷ es) = ⊥
Holding kvs (c ∷ xs) [] = ⊥
Holding kvs ((x, d) ∷ xs) ((k, v) ∷ es) = (d ≢ 0) × (kvs d ≡ some (kv k v)) × Holding kvs xs es

pub load_kv-some :
    (kvs : KvStore) (p : ℕ) (c : KvNode) → p ≢ 0 → kvs p ≡ some c → load_kv kvs p ≡ ok c
unfolding load_kv
load_kv-some kvs p c ne e = rw (ne→== p 0 ne, e) refl

-- The value of the first key that passes the test.
abbrev pub find_first : (ℕ → Bool) → Entries → Option ℕ
find_first hit [] = none
find_first hit ((k, v) ∷ es) = let rest = find_first hit es in if hit k then some v else rest

-- The node that a search gives, and what stands there.
pub data SearchResult (hit : ℕ → Bool) (xs : Cells) (es : Entries) : ℕ → Type 0 where
  missing : find_first hit es ≡ none → SearchResult hit xs es 0
  found :
      (pre : Cells) (x d : ℕ) (post : Cells) (les : Entries) (k v : ℕ) (res : Entries)
      → xs ≡ pre ++ (x, d) ∷ post
      → es ≡ les ++ (k, v) ∷ res
      → length pre ≡ length les
      → hit k ≡ true
      → find_first hit les ≡ none
      → SearchResult hit xs es x

SearchResult-cons :
    (hit : ℕ → Bool) (x d k v : ℕ) (xs : Cells) (es : Entries) (p : ℕ)
    → hit k ≡ false
    → SearchResult hit xs es p
    → SearchResult hit ((x, d) ∷ xs) ((k, v) ∷ es) p
SearchResult-cons hit x d k v xs es p no_hit (missing e) = missing (rw no_hit e)
SearchResult-cons hit x d k v xs es p no_hit
      (found pre y b post les k' v' res ex ee n yes_hit none_before) =
    found ((x, d) ∷ pre) y b post ((k, v) ∷ les) k' v' res (ap (λ t. (x, d) ∷ t) ex)
      (ap (λ t. (k, v) ∷ t) ee) (omega (arith, n)) yes_hit (rw no_hit none_before)

pub search_lem :
    (fuel : ℕ) (h : Store) (kvs : KvStore) (hit : ℕ → Bool) (a : ℕ) (xs : Cells) (es : Entries)
    → length xs < fuel
    → Chain h a xs 0
    → Holding kvs xs es
    → (p : ℕ) × (search fuel h kvs hit (first xs 0) ≡ ok p) × SearchResult hit xs es p
unfolding search
search_lem zero h kvs hit a xs es lt c hs = absurd (omega (arith, lt))
search_lem (suc fuel) h kvs hit a [] [] lt c hs = (0, refl, missing refl)
search_lem (suc fuel) h kvs hit a [] (e ∷ es) lt c hs = absurd hs
search_lem (suc fuel) h kvs hit a (x ∷ xs) [] lt c hs = absurd hs
search_lem (suc fuel) h kvs hit a ((x, d) ∷ xs) ((k, v) ∷ es) lt (ne, here, c) (dne, at, hs) =
    let (p, e, r) = search_lem fuel h kvs hit x xs es (omega (arith, lt)) c hs in
    elim (Bool-cases (hit k)) [
      | inl t ↦ (
        x,
        rw
            (
              ne→== x 0 ne,
              load-some h x (dnode d a (first xs 0)) ne here,
              load_kv-some kvs d (kv k v) dne at,
              t,
            )
            refl,
        found [] x d xs [] k v es refl refl refl t refl,
      )
      | inr f ↦ (
        p,
        rw
            (
              ne→== x 0 ne,
              load-some h x (dnode d a (first xs 0)) ne here,
              load_kv-some kvs d (kv k v) dne at,
              f,
            )
            e,
        SearchResult-cons hit x d k v xs es p f r,
      )
    ]
