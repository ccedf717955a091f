-- ===== src/Pack/Concat.antt =====
-- `concat_c8` and `concat` of src/lib/pack.c: what they copy, the terminator that they add, and
-- when they write outside the destination.
use pcmm_policy_server.Base.{
  ℕ, zero, suc, ◌+◌, ◌^◌, ◌≤◌, ◌<◌, ◌≡◌, refl, ◌∙◌, none, some, List, [], ◌∷◌, ◌++◌, arith,
}
use pcmm_policy_server.Base.{
  length, length-append, length-take, length-drop, get_elem?-drop, take, drop, Mem, ◌>>◌, fill, at,
  poke, Stores, Stores-poke, Stores-then, at-append, append_assoc, fill-fits, at-none, fill-none,
}
use pcmm_policy_server.Base.Fault.{◌>>=◌, then_bind}
use pcmm_policy_server.Pack.{add_int, copy_loop, concat_c8, concat}

-- The loop copies `src[j .. j + left)` and a zero byte to `dst + i`.
copy_loop-Stores :
    (left i j : ℕ) (src : Mem)
    → j + left ≤ length src
    → Stores i (take left (drop j src) ++ (0 ∷ [])) (copy_loop left i j src)
unfolding copy_loop
copy_loop-Stores zero i j src h = Stores-poke i 0
copy_loop-Stores (suc left) i j src h =
    let (b, at_j, cut) = get_elem?-drop src j (omega arith) in
    let rest : Stores (i + 1) (take left (drop (j + 1) src) ++ (0 ∷ []))
        (copy_loop left (i + 1) (j + 1) src) =
      copy_loop-Stores left (i + 1) (j + 1) src (omega arith) in
    let both : Stores i (b ∷ (take left (drop (j + 1) src) ++ (0 ∷ [])))
        (poke i b >> copy_loop left (i + 1) (j + 1) src) =
      Stores-then (Stores-poke i b) rest refl in
    record {
      runs = λ m.
          rw (at_j, cut)
            (then_bind (poke i b) (copy_loop left (i + 1) (j + 1) src) m ∙ both.runs m);
    }

pub add_int_small : (size n : ℕ) → n < 2 ^ 31 → size + n < 2 ^ 64 → add_int size n ≡ size + n
unfolding add_int
add_int_small size n h k = ground arith

-- With a source of at least `n` bytes, `concat_c8` copies the first `n` bytes of the source and a
-- zero byte to `dst + *sz_ptr`, adds `n` to `*sz_ptr`, and faults exactly where that write leaves
-- the destination. So does `concat`.
pub concat_c8_lem :
    (dst : Mem) (size : ℕ) (src : Mem) (n : ℕ)
    → n ≤ length src
    → concat_c8 dst size src n
      ≡ (at size (fill (take n src ++ (0 ∷ []))) dst >>= λ dst'. some (dst', add_int size n))
unfolding concat_c8
concat_c8_lem dst size src n h = rw ((copy_loop-Stores n size 0 src (omega arith)).runs dst)

pub concat-eq-concat_c8 :
    (dst : Mem) (size : ℕ) (src : Mem) (n : ℕ) → concat dst size src n ≡ concat_c8 dst size src n
unfolding concat concat_c8
concat-eq-concat_c8 dst size src n = refl

module _ (src : Mem) (n : ℕ) where
  abbrev copied : List ℕ
  copied = take n src ++ (0 ∷ [])

  length-copied : n ≤ length src → length copied ≡ n + 1
  length-copied h = omega (arith, length-append (take n src) (0 ∷ []), length-take n src h)

-- The bytes before `*sz_ptr` stay, `n` bytes of the source follow them, then a zero byte; what lies
-- behind is unchanged. At least one byte of the destination is left for the zero.
pub concat_c8-append :
    (written tail src : Mem) (n : ℕ)
    → n ≤ length src
    → n < length tail
    → n < 2 ^ 31
    → length written + n < 2 ^ 64
    → concat_c8 (written ++ tail) (length written) src n
      ≡ some (written ++ (take n src ++ (0 ∷ drop (n + 1) tail)), length written + n)
concat_c8-append written tail src n h room small total =
    concat_c8_lem (written ++ tail) (length written) src n h
    ∙ rw
        (
          at-append written tail (fill (copied src n)) _ filled,
          add_int_small (length written) n small total,
        )
        refl
  where
    filled : fill (copied src n) tail ≡ some (take n src ++ (0 ∷ drop (n + 1) tail))
    filled =
        fill-fits (copied src n) tail (omega (arith, length-copied src n h))
        ∙ rw (length-copied src n h, append_assoc)

-- A source of at least `n` bytes and a destination with no byte beyond `*sz_ptr + n`: the
-- terminator is written past the end of the destination.
pub concat_c8-overflow :
    (dst : Mem) (size : ℕ) (src : Mem) (n : ℕ)
    → n ≤ length src
    → length dst ≤ size + n
    → concat_c8 dst size src n ≡ none
concat_c8-overflow dst size src n h short =
    concat_c8_lem dst size src n h ∙ rw (at-none size (fill (copied src n)) dst none_left)
  where
    none_left : fill (copied src n) (drop size dst) ≡ none
    none_left =
        fill-none (copied src n) (drop size dst)
          (omega (arith, length-copied src n h, length-drop size dst))
