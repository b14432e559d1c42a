-- ===== src/Huffman/Compress.antt =====
-- What `huffman_compress` makes of an input.
use sftt.Base.{
  ℕ, suc, zero, ◌+◌, ◌*◌, ◌/◌, ◌^◌, ◌≤◌, ◌<◌, ◌≡◌, ◌≢◌, refl, false, some, List, [], ◌∷◌, ◌++◌,
  length, replicate, arith, ◌∙◌, ap, All, ok, get_elem?, length-append, length-replicate, eq→==,
  lt→ltb, ◌%◌,
}
use sftt.Base.Int.{pos}
use sftt.Base.Count.{count}
use sftt.Bytes.{Buffer, IsByte, le32, le16}
use sftt.Bytes.Laws.{HasBytes, HasBytes-same}
use sftt.Huffman.Tree.{
  Tree, charset_size, is_null, btree_is_leaf, generate_huffman_tree, null, node,
}
use sftt.Huffman.Tree.Leaves.{generate_huffman_tree-IsBuilt}
use sftt.Huffman.Tree.Depth.{generate_huffman_tree-count}
use sftt.Huffman.Codes.{Code, Codes, get_char_codes}
use sftt.Huffman.Codes.Shape.{Fresh-of_count, put_codes, ids, ids_below}
use sftt.Huffman.Codes.Visits.{get_char_codes_lem}
use sftt.Huffman.Codes.Paths.{Leads, Sound, HasCode, Leads-length, put_codes-Sound, put_codes-has}
use sftt.Huffman.Stream.Bits.{HasBits}
use sftt.Huffman.Stream.Write.{spell, spell-nil, spell-cons, bytes_of_bits, huffman_encode-Encoded}
use sftt.Huffman.Freq.{FreqTable, no_freq, used_chars, count_chars, freq_pairs, calc_char_freq}
use sftt.Huffman.Freq.Count.{input_freq, length-count_chars}
use sftt.Huffman.Freq.Table.{
  copy_char_freq-Copied, length-freq_pairs, used_chars_pos, used_chars-le,
}
use sftt.Huffman.{
  Output, code_bits, get_compress_output_len, compress_with, compress_tree, huffman_compress,
  no_codes, align_shift, zeroed,
}

-- A property of the bytes that occur in `ys` holds of each element of a list that is no larger.
All-of_count :
    (P : ℕ → Type 0) (xs ys : List ℕ)
    → All IsByte xs
    → ((x : ℕ) → IsByte x → count x ys ≢ 0 → P x)
    → ((x : ℕ) → count x xs ≤ count x ys)
    → All P xs
All-of_count P [] ys bytes p le = tt
All-of_count P (x ∷ xs) ys bytes p le =
    (p x bytes.0 (ground (arith, le x)), All-of_count P xs ys bytes.1 p λ z. ground (arith, le z))

code_bits-spell :
    (codes : Codes) (xs : List ℕ) (n : ℕ)
    → n < 2 ^ 32
    → All (HasCode codes) xs
    → code_bits xs codes n ≡ ok ((n + length (spell codes xs)) % 2 ^ 32)
unfolding code_bits
code_bits-spell codes [] n small h = rw (spell-nil codes) (ap ok (omega (arith, small)))
code_bits-spell codes (x ∷ xs) n small h =
    let (w, e) = h.0 in
    rw (e, spell-cons codes x xs e)
      (code_bits-spell codes xs ((n + length w) % 2 ^ 32) (omega arith) h.1
        ∙ ap ok (omega (arith, length-append w (spell codes xs))))

abbrev pub freq_of_input : List ℕ → FreqTable
freq_of_input input = count_chars no_freq input

-- The tree and the codes of an input, and what they have to do with one another.
pub record Plan (input : List ℕ) : Type 0 where
  pub tree : Tree
  pub codes : Codes
  pub grown : generate_huffman_tree (freq_of_input input) ≡ ok tree
  pub not_null : is_null tree ≡ false
  pub not_leaf : btree_is_leaf tree ≡ false
  pub walked : get_char_codes tree no_codes ≡ ok (some codes)
  pub sound : Sound tree codes
  pub coded : All (HasCode codes) input

distinct_below : (t : Tree) (x : ℕ) → count x (ids t) < 2 → count x (ids_below t) < 2
distinct_below null x h = omega arith
distinct_below (node a s l r) x h = omega arith

root_Leads : (t : Tree) (w : Code) (c : ℕ) → Leads t w c → Leads t ([] ++ w) c
root_Leads t w c h = h

no_codes-Sound : (t : Tree) → Sound t no_codes
unfolding no_codes
no_codes-Sound t c w e = let bad : ⊥ = cc in absurd bad

count_self : (x : ℕ) (xs : List ℕ) → count x (x ∷ xs) ≢ 0
count_self x xs = ground arith

-- `length` of the table, without counting through it.
pub freq-length : (input : List ℕ) → length (freq_of_input input) ≡ charset_size
freq-length input = length-count_chars no_freq input

make-Plan : (x : ℕ) (xs : List ℕ) → All IsByte (x ∷ xs) → length (x ∷ xs) < 2 ^ 31 → Plan (x ∷ xs)
make-Plan x xs bytes short =
    let input = x ∷ xs in
    let freq = freq_of_input input in
    let occurs : (c : ℕ) → c < charset_size → get_elem? freq c ≡ some (count c input) =
      λ c h. input_freq input c bytes (omega arith) h in
    let (t, grown, built, leafy) =
      generate_huffman_tree-IsBuilt freq x (omega (arith, freq-length input)) (occurs x bytes.0)
        (count_self x xs) in
    record {
      tree = t;
      codes = put_codes t [] no_codes;
      grown = grown;
      not_null = built.not_null;
      not_leaf = built.not_leaf;
      walked = get_char_codes_lem t no_codes built.not_null built.coded (
          Fresh-of_count [] (ids_below t)
            λ y. omega (arith, distinct_below t y (built.distinct y)));
      sound = put_codes-Sound t t [] no_codes (root_Leads t) (no_codes-Sound t);
      coded =
          All-of_count (HasCode (put_codes t [] no_codes)) input input bytes
            (λ c byte ne.
              put_codes-has t no_codes c built.not_leaf
                (leafy c (count c input) (occurs c byte) ne))
            λ c. omega arith;
    }

root_path : (t : Tree) (w : Code) (c : ℕ) → btree_is_leaf t ≡ false → Leads t w c → 0 < length w
root_path null w c inner path = absurd path
root_path (node a s l r) [] c inner path = let bad : ⊥ = ground (arith, path.0) in absurd bad
root_path (node a s l r) (d ∷ w) c inner path = omega arith

-- The bytes of the output: the table, the length of the input and the bits of its codes.
pub record Compressed (input : List ℕ) (p : Plan input) (bytes : Buffer) : Type 0 where
  pub byte : All IsByte bytes
  pub count : HasBytes bytes 0 (le16 (used_chars (freq_of_input input)))
  pub pairs : HasBytes bytes 2 (freq_pairs 0 (freq_of_input input))
  pub prefix : HasBytes bytes (2 + 5 * used_chars (freq_of_input input)) (le32 (length input))
  pub bits :
      HasBits bytes (8 * (2 + 5 * used_chars (freq_of_input input) + 4)) (spell p.codes input)

-- The room that `get_compress_output_len` asks for.
abbrev pub output_size : (input : List ℕ) → Plan input → ℕ
output_size input p =
    2 + 5 * used_chars (freq_of_input input) + 4 + (length (spell p.codes input) + 7) / 8

replicate-IsByte : (n : ℕ) → All IsByte (replicate n 0)
replicate-IsByte zero = tt
replicate-IsByte (suc n) = (omega arith, replicate-IsByte n)

-- Codes of bounded length.
spell_bound :
    (codes : Codes) (bound : ℕ) (xs : List ℕ)
    → ((c : ℕ) (w : Code) → codes c ≡ some w → length w ≤ bound)
    → All (HasCode codes) xs
    → length (spell codes xs) ≤ length xs * bound
spell_bound codes bound [] short h = rw (spell-nil codes) (omega arith)
spell_bound codes bound (x ∷ xs) short h =
    let (w, e) = h.0 in
    rw (spell-cons codes x xs e) (
      grind (
        arith,
        length-append w (spell codes xs),
        short x w e,
        spell_bound codes bound xs short h.1,
      ))

-- No code has more bits than the tree has nodes.
Plan-spell : (input : List ℕ) (p : Plan input) → length (spell p.codes input) ≤ length input * 511
Plan-spell input p =
    spell_bound p.codes 511 input
      (λ c w e. omega (
        arith,
        Leads-length p.tree w c (p.sound c w e),
        generate_huffman_tree-count (freq_of_input input) p.tree p.grown,
        freq-length input,
      ))
      p.coded

pub output_size-small :
    (input : List ℕ) (p : Plan input) → length input < 2 ^ 22 → output_size input p < 2 ^ 31
output_size-small input p short =
    omega (arith, Plan-spell input p, short, used_chars-le (freq_of_input input), freq-length input)

output_len-size :
    (input : List ℕ) (p : Plan input)
    → length input < 2 ^ 22
    → get_compress_output_len input (freq_of_input input) p.codes ≡ ok (pos (output_size input p))
unfolding get_compress_output_len align_shift
output_len-size input p short =
    let n = length (spell p.codes input) in
    let few : n + 7 < 2 ^ 31 = omega (arith, Plan-spell input p, short) in
    let same : (0 + n) % 2 ^ 32 ≡ n = omega (arith, few) in
    let up : (n + 7) % 2 ^ 32 ≡ n + 7 = omega (arith, few) in
    let total = output_size-small input p short in
    let word : output_size input p % 2 ^ 32 ≡ output_size input p = omega (arith, total) in
    rw
      (
        code_bits-spell p.codes input 0 (omega arith) p.coded,
        same,
        up,
        lt→ltb (n + 7) (2 ^ 31) few,
        word,
        lt→ltb (output_size input p) (2 ^ 31) total,
      )
      refl

-- The room is enough: no store leaves the buffer, and the closing assertion holds.
compress_with-Compressed :
    (input : List ℕ) (p : Plan input)
    → length input < 2 ^ 22
    → used_chars (freq_of_input input) ≢ 0
    → 0 < length (spell p.codes input)
    → (bytes : Buffer) × (compress_with input (freq_of_input input) p.codes
        ≡ ok (record { ret = pos (output_size input p); bytes = bytes }))
      × (length bytes ≡ output_size input p)
      × Compressed input p bytes
unfolding compress_with zeroed
compress_with-Compressed input p short ne some_bit =
    let freq = freq_of_input input in
    let u = used_chars freq in
    let size = output_size input p in
    let zeros = replicate size 0 in
    let zeros_size : length zeros ≡ size = length-replicate size 0 in
    let (buf1, run1, c1) = copy_char_freq-Copied freq zeros 0 ne (omega (arith, zeros_size)) in
    let (buf2, run2, c2) =
      huffman_encode-Encoded p.codes input buf1 (2 + 5 * u) p.coded
        (c1.bytes (replicate-IsByte size)) some_bit (omega (arith, zeros_size, c1.size)) in
    (
      buf2,
      rw
          (
            output_len-size input p short,
            run1,
            run2,
            eq→== (2 + 5 * u + (4 + bytes_of_bits (length (spell p.codes input)))) size
                (omega arith),
          )
          refl,
      c2.size ∙ c1.size ∙ zeros_size,
      record {
        byte = c2.bytes;
        count = HasBytes-same buf1 buf2 0 (le16 u) (λ k _ lt. c2.low k (omega arith)) c1.count;
        pairs =
            HasBytes-same buf1 buf2 2 (freq_pairs 0 freq)
              (λ k _ lt. c2.low k (omega (arith, length-freq_pairs 0 freq))) c1.pairs;
        prefix = c2.prefix;
        bits = c2.has;
      },
    )

-- The steps of `huffman_compress`, put together.
compress_run :
    (x : ℕ) (xs : List ℕ) (p : Plan (x ∷ xs)) (out : Output)
    → compress_with (x ∷ xs) (freq_of_input (x ∷ xs)) p.codes ≡ ok out
    → huffman_compress (x ∷ xs) ≡ ok out
unfolding huffman_compress compress_tree calc_char_freq
compress_run x xs p out run = rw (p.grown, compress_tree, p.not_null, p.walked) run

-- An input with a char has an entry in its table and, the root being no leaf, a bit in its code.
pub used_input :
    (x : ℕ) (xs : List ℕ)
    → All IsByte (x ∷ xs)
    → length (x ∷ xs) < 2 ^ 31
    → used_chars (freq_of_input (x ∷ xs)) ≢ 0
used_input x xs bytes short =
    used_chars_pos (freq_of_input (x ∷ xs)) x (input_freq (x ∷ xs) x bytes (omega arith) bytes.0)
      (count_self x xs)

some_bit : (x : ℕ) (xs : List ℕ) (p : Plan (x ∷ xs)) → 0 < length (spell p.codes (x ∷ xs))
some_bit x xs p =
    let (w, e) = p.coded.0 in
    let path = root_path p.tree w x p.not_leaf (p.sound x w e) in
    rw (spell-cons p.codes x xs e) (omega (arith, path, length-append w (spell p.codes xs)))

-- On every input of bytes that is not empty and shorter than 2 ^ 22, `huffman_compress` ends with no
-- fault, and so passes its closing assertion; it returns the length of the output, which holds the
-- table, the length and the bits of the codes, in this order.
pub huffman_compress-Compressed :
    (x : ℕ) (xs : List ℕ)
    → All IsByte (x ∷ xs)
    → length (x ∷ xs) < 2 ^ 22
    → (p : Plan (x ∷ xs)) × (bytes : Buffer) × (huffman_compress (x ∷ xs)
        ≡ ok (record { ret = pos (output_size (x ∷ xs) p); bytes = bytes }))
      × (length bytes ≡ output_size (x ∷ xs) p)
      × Compressed (x ∷ xs) p bytes
huffman_compress-Compressed x xs bytes short =
    let p = make-Plan x xs bytes (omega (arith, short)) in
    let (out, run, size, done) =
      compress_with-Compressed (x ∷ xs) p short (used_input x xs bytes (omega (arith, short)))
        (some_bit x xs p) in
    (p, out, compress_run x xs p _ run, size, done)
