-- ===== src/MemPool/Resize.antt =====
-- `mp_realloc` of mem_pool.c: a new node, a copy and a free.
use sftt.Base.{
  ℕ, ◌≤◌, ◌≡◌, ◌≢◌, refl, true, false, Option, none, some, List, [], ◌∷◌, length, ◌++◌, arith, ◌∙◌,
  sym, subst, ◌==◌, ltb, if◌then◌else◌, ne→==, Result, ok, ◌>>=◌, from_option,
}
use sftt.Bytes.{Buffer, take_bytes, write_bytes}
use sftt.Bytes.Laws.{HasBytes, write_bytes-Written, take_bytes-ok}
use sftt.MemPool.{MemNode, MemPool, set_node, mp_malloc, mp_free, node_at}
use sftt.MemPool.Nodes.{
  at, node_at-set_node, total-set_node, length-set_node, All-set_node_at, All_node_at,
}
use sftt.MemPool.Invariant.{IsValid, IsFresh, mp_malloc-IsValid, using, using_for, size_of}
use sftt.MemPool.Free.{mp_free-Freed}
use sftt.MemPool.Fit.{true_not_false}
use sftt.MemPool.Alloc.{Given, mp_malloc-Given}

abbrev put_bytes : Buffer → MemNode → MemNode
put_bytes bytes p = record p { bytes = bytes }

-- `memcpy(tmp, addr, …)`, of `n` bytes or of the whole of the old memory.
copy_old : MemPool → ℕ → ℕ → ℕ → Result MemPool
unfolding set_node node_at
copy_old mp addr n tmp = do
  p ← from_option (node_at addr mp.nodes)
  q ← from_option (node_at tmp mp.nodes)
  old ← take_bytes (if ltb n p.size then n else p.size) p.bytes
  bytes ← write_bytes q.bytes 0 old
  ok (record mp { nodes = set_node tmp (put_bytes bytes) mp.nodes })

-- From the allocation on.
move_to : ℕ → ℕ → MemPool × ℕ → Result (MemPool × ℕ)
unfolding copy_old mp_free
move_to addr n (mp, tmp) =
    let moved = (do mp1 ← copy_old mp addr n tmp; mp2 ← mp_free mp1 addr; ok (mp2, tmp)) in
    if tmp == 0 then ok (mp, 0) else moved

-- `__func__`
abbrev realloc_purpose : List ℕ
realloc_purpose = b'm' ∷ b'p' ∷ b'_' ∷ b'r' ∷ b'e' ∷ b'a' ∷ b'l' ∷ b'l' ∷ b'o' ∷ b'c' ∷ []

realloc_found : MemPool → ℕ → ℕ → Option ℕ → Option MemNode → Result (MemPool × ℕ)
unfolding mp_malloc move_to
realloc_found mp addr n fresh none = ok (mp, 0)
realloc_found mp addr n fresh (some p) = move_to addr n (mp_malloc mp realloc_purpose n fresh)

pub mp_realloc : MemPool → ℕ → ℕ → Option ℕ → Result (MemPool × ℕ)
unfolding realloc_found node_at
mp_realloc mp addr n fresh = realloc_found mp addr n fresh (node_at addr mp.nodes)

-- A change of the bytes alone, to as many bytes.
put_bytes-IsValid :
    (mp : MemPool) (a : ℕ) (q : MemNode) (bytes : Buffer)
    → IsValid mp
    → node_at a mp.nodes ≡ some q
    → length bytes ≡ q.size
    → IsValid (record mp { nodes = set_node a (put_bytes bytes) mp.nodes })
put_bytes-IsValid mp a q bytes v found size =
    let sum : (f : MemNode → ℕ) → _ = λ f. total-set_node a (put_bytes bytes) f mp.nodes q found in
    record {
      nodes_counted = v.nodes_counted ∙ sym (length-set_node a (put_bytes bytes) mp.nodes);
      sizes_added = omega (arith, v.sizes_added, sum size_of);
      using_counted = omega (arith, v.using_counted, sum using);
      others_free = v.others_free;
      distinct = λ b. omega (arith, v.distinct b, sum (at b));
      not_null =
          All-set_node_at (λ p. p.address ≢ 0) a (put_bytes bytes) mp.nodes q found
            (All_node_at (λ p. p.address ≢ 0) a mp.nodes q v.not_null found) v.not_null;
      filled =
          All-set_node_at (λ p. length p.bytes ≡ p.size) a (put_bytes bytes) mp.nodes q found size
            v.filled;
      tallied = λ s. omega (arith, v.tallied s, sum (using_for s));
      counted = v.counted;
    }

copy_old_run :
    (mp : MemPool) (addr n tmp : ℕ) (p q : MemNode) (old bytes : Buffer)
    → node_at addr mp.nodes ≡ some p
    → node_at tmp mp.nodes ≡ some q
    → take_bytes (if ltb n p.size then n else p.size) p.bytes ≡ ok old
    → write_bytes q.bytes 0 old ≡ ok bytes
    → copy_old mp addr n tmp ≡ ok (record mp { nodes = set_node tmp (put_bytes bytes) mp.nodes })
unfolding copy_old
copy_old_run mp addr n tmp p q old bytes here there taken written =
    rw (here, there, taken, written) refl

-- What `mp_realloc` leaves of the node `p` at `addr`: the memory at `tmp` has room for `n` bytes, and
-- begins with the first `n` bytes of the old memory or with all of it; the old node is free.
pub record Moved (addr : ℕ) (p : MemNode) (n : ℕ) (mp' : MemPool) (tmp : ℕ) : Type 0 where
  pub valid : IsValid mp'
  pub node : MemNode
  pub found : node_at tmp mp'.nodes ≡ some node
  pub in_use : node.is_using ≡ true
  pub room : n ≤ node.size
  pub old : Buffer
  pub rest : Buffer
  pub kept : length old ≡ (if ltb n p.size then n else p.size)
  pub whole : old ++ rest ≡ p.bytes
  pub begins : HasBytes node.bytes 0 old
  pub given_back : (q : MemNode) → node_at addr mp'.nodes ≡ some q → q.is_using ≡ false

min_le : (a b : ℕ) → (if ltb a b then a else b) ≤ a × (if ltb a b then a else b) ≤ b
min_le a b = (ground arith, ground arith)

move_to_run :
    (mp1 mp2 mp3 : MemPool) (addr n tmp : ℕ)
    → tmp ≢ 0
    → copy_old mp1 addr n tmp ≡ ok mp2
    → mp_free mp2 addr ≡ ok mp3
    → move_to addr n (mp1, tmp) ≡ ok (mp3, tmp)
unfolding move_to
move_to_run mp1 mp2 mp3 addr n tmp ne copied freed = rw (ne→== tmp 0 ne, copied, freed) refl

-- From the allocation on: `tmp` is another address than that of the memory in use.
move_to-Moved :
    (mp mp1 : MemPool) (purpose : List ℕ) (addr n tmp : ℕ) (p : MemNode)
    → IsValid mp
    → node_at addr mp.nodes ≡ some p
    → p.is_using ≡ true
    → IsValid mp1
    → Given mp purpose n mp1 tmp
    → (mp' : MemPool) × (move_to addr n (mp1, tmp) ≡ ok (mp', tmp)) × Moved addr p n mp' tmp
move_to-Moved mp mp1 purpose addr n tmp p v found in_use v1 g =
    let ne : tmp ≢ addr = λ e.
      true_not_false
        (sym in_use ∙ g.was_free p (subst (λ x. node_at x mp.nodes ≡ some p) (sym e) found)) in
    let k = if ltb n p.size then n else p.size in
    let (kn, kp) = min_le n p.size in
    let filled = All_node_at (λ q. length q.bytes ≡ q.size) addr mp.nodes p v.filled found in
    let filled1 =
      All_node_at (λ q. length q.bytes ≡ q.size) tmp mp1.nodes g.node v1.filled g.found in
    let (old, rest, taken, size, whole) = take_bytes-ok k p.bytes (omega (arith, kp, filled)) in
    let (bytes, written, w) =
      write_bytes-Written g.node.bytes 0 old (omega (arith, size, kn, g.room, filled1)) in
    let mp2 = record mp1 { nodes = set_node tmp (put_bytes bytes) mp1.nodes } in
    let (mp3, freed, f) =
      mp_free-Freed mp2 addr
        (put_bytes-IsValid mp1 tmp g.node bytes v1 g.found (w.size ∙ filled1)) in
    let copied : copy_old mp1 addr n tmp ≡ ok mp2 =
      copy_old_run mp1 addr n tmp p g.node old bytes (g.others addr ne ∙ found) g.found taken
        written in
    (
      mp3,
      move_to_run mp1 mp2 mp3 addr n tmp g.not_null copied freed,
      record {
        valid = f.valid;
        node = put_bytes bytes g.node;
        found =
            f.elsewhere tmp (λ e. ne (sym e))
            ∙ node_at-set_node tmp (put_bytes bytes) (λ q. refl) mp1.nodes g.node g.found;
        in_use = g.in_use;
        room = g.room;
        old = old;
        rest = rest;
        kept = size;
        whole = whole;
        begins = w.has;
        given_back = f.idle;
      },
    )

-- In a valid pool, `mp_realloc` of memory in use to at least one byte, where the system's `malloc` gives a fresh
-- address, keeps the bytes that both sizes have room for, and gives the old memory back.
pub mp_realloc-Moved :
    (mp : MemPool) (addr n fresh : ℕ) (p : MemNode)
    → IsValid mp
    → node_at addr mp.nodes ≡ some p
    → p.is_using ≡ true
    → n ≢ 0
    → IsFresh fresh mp
    → (mp' : MemPool) × (tmp : ℕ) × (mp_realloc mp addr n (some fresh) ≡ ok (mp', tmp))
      × Moved addr p n mp' tmp
unfolding mp_realloc realloc_found
mp_realloc-Moved mp addr n fresh p v found in_use some_byte new =
    let g = mp_malloc-Given mp realloc_purpose n fresh v some_byte new in
    let v1 =
      mp_malloc-IsValid mp realloc_purpose n (some fresh) v
        (λ a e. let same : fresh ≡ a = cc in subst (λ x. IsFresh x mp) same new) in
    let (mp', run, m) = move_to-Moved mp _ realloc_purpose addr n _ p v found in_use v1 g in
    (mp', _, rw found run, m)
