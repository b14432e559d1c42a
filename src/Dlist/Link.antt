-- ===== src/Dlist/Link.antt =====
-- The four assignments that link and unlink nodes, on the chains they act on.
use sftt.Base.{
  ℕ, ◌<◌, ◌≡◌, ◌≢◌, refl, Bool, true, false, Option, some, [], ◌∷◌, arith, ap, ◌∙◌, if◌then◌else◌,
  ne→==, eq→==, Result, ok,
}
use sftt.Dlist.{DlistNode, dnode, Store, write, load, set_next, set_prev, link_next, link_prev}
use sftt.Dlist.Cells.{
  Cells, occ, first, last, Chain, Distinct, SameOutside, Chain-frame, hit_self, hit_zero,
}

pub if_true {ℓ} : {A : Type ℓ} (b : Bool) (x y : A) → b ≡ true → (if b then x else y) ≡ x
if_true b x y e = rw e refl

pub if_false {ℓ} : {A : Type ℓ} (b : Bool) (x y : A) → b ≡ false → (if b then x else y) ≡ y
if_false b x y e = rw e refl

pub write_same : (h : Store) (p : ℕ) (c : Option DlistNode) → write h p c p ≡ c
unfolding write
write_same h p c = rw (eq→== p p refl) refl

pub write_other : (h : Store) (p : ℕ) (c : Option DlistNode) (a : ℕ) → a ≢ p → write h p c a ≡ h a
unfolding write
write_other h p c a ne = rw (ne→== a p ne) refl

pub load-some : (h : Store) (p : ℕ) (c : DlistNode) → p ≢ 0 → h p ≡ some c → load h p ≡ ok c
unfolding load
load-some h p c ne e = rw (ne→== p 0 ne, e) refl

pub set_next-some :
    (h : Store) (p n d a q : ℕ)
    → p ≢ 0
    → h p ≡ some (dnode d a q)
    → set_next h p n ≡ ok (write h p (some (dnode d a n)))
unfolding set_next load
set_next-some h p n d a q ne e = rw (load-some h p (dnode d a q) ne e) refl

pub set_prev-some :
    (h : Store) (p n d a q : ℕ)
    → p ≢ 0
    → h p ≡ some (dnode d a q)
    → set_prev h p n ≡ ok (write h p (some (dnode d n q)))
unfolding set_prev load
set_prev-some h p n d a q ne e = rw (load-some h p (dnode d a q) ne e) refl

pub link_next_some : (h : Store) (p n : ℕ) → p ≢ 0 → link_next h p n ≡ set_next h p n
unfolding link_next
link_next_some h p n ne = rw (ne→== p 0 ne) refl

pub link_prev_some : (h : Store) (p n : ℕ) → p ≢ 0 → link_prev h p n ≡ set_prev h p n
unfolding link_prev
link_prev_some h p n ne = rw (ne→== p 0 ne) refl

-- Addresses that a count tells apart.
pub ne_of : (y z : ℕ) (ys : Cells) → 0 < occ y ys → occ z ys ≡ 0 → y ≢ z
ne_of y z ys lt o e = absurd (omega (arith, lt, o, ap (λ t. occ t ys) e))

-- A cell that stands in a list twice contradicts distinctness.
pub occ_rest : (x d : ℕ) (xs : Cells) → Distinct ((x, d) ∷ xs) → occ x xs ≡ 0
occ_rest x d xs u = omega (arith, u x, hit_self x)

pub Distinct-rest : (x d : ℕ) (xs : Cells) → Distinct ((x, d) ∷ xs) → Distinct xs
Distinct-rest x d xs u = λ a. omega (arith, u a)

pub occ_ne : (a x d : ℕ) (xs : Cells) → occ a ((x, d) ∷ xs) ≡ 0 → a ≢ x
occ_ne a x d xs e = hit_zero a x (omega (arith, e))

-- What `prev->next = r` leaves of the chain that ends at `prev`.
pub record Relinked (h : Store) (run : Result Store) (a : ℕ) (xs : Cells) (r : ℕ) : Type 0 where
  pub after : Store
  pub runs : run ≡ ok after
  pub chain : Chain after a xs r
  pub same : SameOutside xs h after

pub last_ne_zero :
    (h : Store) (a x d : ℕ) (xs : Cells) (q : ℕ) → Chain h a ((x, d) ∷ xs) q → last x xs ≢ 0
last_ne_zero h a x d [] q (ne, here, rest) = ne
last_ne_zero h a x d ((y, e) ∷ xs) q (ne, here, rest) = last_ne_zero h x y e xs q rest

pub set_next-last :
    (h : Store) (a x d : ℕ) (xs : Cells) (q r : ℕ)
    → Chain h a ((x, d) ∷ xs) q
    → Distinct ((x, d) ∷ xs)
    → Relinked h (set_next h (last x xs) r) a ((x, d) ∷ xs) r
set_next-last h a x d [] q r (ne, here, rest) u = record {
  after = write h x (some (dnode d a r));
  runs = set_next-some h x r d a q ne here;
  chain = (ne, write_same h x (some (dnode d a r)), tt);
  same = λ b e. write_other h x (some (dnode d a r)) b (occ_ne b x d [] e);
}
set_next-last h a x d ((y, e) ∷ xs) q r (ne, here, rest) u =
    let it = set_next-last h x y e xs q r rest (Distinct-rest x d ((y, e) ∷ xs) u) in
    record {
      after = it.after;
      runs = it.runs;
      chain = (ne, it.same x (occ_rest x d ((y, e) ∷ xs) u) ∙ here, it.chain);
      same = λ b o. it.same b (omega (arith, o));
    }

pub link_next-last :
    (h : Store) (pre : Cells) (q r : ℕ)
    → Chain h 0 pre q
    → Distinct pre
    → Relinked h (link_next h (last 0 pre) r) 0 pre r
unfolding link_next
link_next-last h [] q r c u = record { after = h; runs = refl; chain = tt; same = λ b e. refl }
link_next-last h ((x, d) ∷ xs) q r c u =
    let it = set_next-last h 0 x d xs q r c u in
    record {
      after = it.after;
      runs = link_next_some h (last x xs) r (last_ne_zero h 0 x d xs q c) ∙ it.runs;
      chain = it.chain;
      same = it.same;
    }

-- `next->prev = b`, likewise.
pub link_prev-first :
    (h : Store) (a : ℕ) (post : Cells) (b : ℕ)
    → Chain h a post 0
    → Distinct post
    → Relinked h (link_prev h (first post 0) b) b post 0
unfolding link_prev
link_prev-first h a [] b c u = record { after = h; runs = refl; chain = tt; same = λ b e. refl }
link_prev-first h a ((x, d) ∷ xs) b (ne, here, rest) u =
    let g = write h x (some (dnode d b (first xs 0))) in
    let far : (y : ℕ) → 0 < occ y xs → y ≢ x =
      λ y lt e. absurd (omega (arith, lt, occ_rest x d xs u, ap (λ t. occ t xs) e)) in
    record {
      after = g;
      runs = link_prev_some h x b ne ∙ set_prev-some h x b d a (first xs 0) ne here;
      chain = (
        ne,
        write_same h x (some (dnode d b (first xs 0))),
        Chain-frame h g x xs 0
            (λ y lt. write_other h x (some (dnode d b (first xs 0))) y (far y lt)) rest,
      );
      same = λ y e. write_other h x (some (dnode d b (first xs 0))) y (occ_ne y x d xs e);
    }
