-- ===== src/Pack/Over.antt =====
-- A buffer that is packed from the front, one piece after the other.
use pcmm_policy_server.Base.{
  ℕ, ◌+◌, ◌-◌, ◌^◌, ◌≤◌, ◌<◌, ◌≡◌, refl, sym, ap, ◌∙◌, some, List, [], ◌∷◌, ◌++◌, append_assoc,
  arith,
}
use pcmm_policy_server.Base.{
  length, length-append, take, take-all, drop, length-drop, drop-drop, drop_append_short, Mem,
  Writer, fill, at, at-append, fill-fits, Stores,
}
use pcmm_policy_server.Pack.{concat_c8}
use pcmm_policy_server.Pack.Concat.{concat_c8_lem, add_int_small}

-- `dst` with `xs` written over its first bytes.
abbrev pub over : Mem → List ℕ → Mem
over dst xs = xs ++ drop (length xs) dst

over_append :
    (dst xs zs : Mem) → over dst (xs ++ zs) ≡ xs ++ (zs ++ drop (length xs + length zs) dst)
over_append dst xs zs = rw (append_assoc, length-append) refl

-- A write of `bs` at the end of `xs` takes the place of the `zs` that stood there.
pub fill-over_append :
    (dst xs zs bs : Mem)
    → length zs ≤ length bs
    → length xs + length bs ≤ length dst
    → at (length xs) (fill bs) (over dst (xs ++ zs)) ≡ some (over dst (xs ++ bs))
fill-over_append dst xs zs bs short room =
    rw (over_append dst xs zs, over_append dst xs bs)
      (at-append xs (zs ++ drop (length xs + length zs) dst) (fill bs) _ filled)
  where
    behind :
        drop (length bs) (zs ++ drop (length xs + length zs) dst) ≡ drop (length xs + length bs) dst
    behind =
        drop_append_short (length bs) zs _ short
        ∙ drop-drop (length bs - length zs) (length xs + length zs) dst
        ∙ ap (λ k. drop k dst) (omega arith)

    filled :
        fill bs (zs ++ drop (length xs + length zs) dst)
        ≡ some (bs ++ drop (length xs + length bs) dst)
    filled =
        fill-fits bs _ (
          omega (
            arith,
            length-append zs (drop (length xs + length zs) dst),
            length-drop (length xs + length zs) dst,
          ))
        ∙ rw behind

-- What a writer stores, at the end of what is packed.
pub Stores-over :
    {k : ℕ} {bs : List ℕ} {w : Writer} (dst xs zs : Mem)
    → Stores k bs w
    → k ≡ length xs
    → length zs ≤ length bs
    → k + length bs ≤ length dst
    → w (over dst (xs ++ zs)) ≡ some (over dst (xs ++ bs))
Stores-over {k} {bs} dst xs zs h e short room =
    h.runs _ ∙ rw e (fill-over_append dst xs zs bs short (omega arith))

-- `concat_c8` of a whole source, at the end of what is packed.
pub concat_c8-over :
    (dst xs zs src : Mem) (i n : ℕ)
    → i ≡ length xs
    → n ≡ length src
    → length zs ≤ 1
    → i + n < length dst
    → i + n < 2 ^ 31
    → concat_c8 (over dst (xs ++ zs)) i src n ≡ some (over dst ((xs ++ src) ++ (0 ∷ [])), i + n)
concat_c8-over dst xs zs src i n ei en short room small =
    concat_c8_lem (over dst (xs ++ zs)) i src n (omega arith)
    ∙ rw (whole, written, add_int_small i n (omega arith) (omega arith))
        (ap (λ t. some (over dst t, i + n)) (sym (append_assoc xs src (0 ∷ []))))
  where
    whole : take n src ≡ src
    whole = rw en (take-all src)

    written :
        at i (fill (src ++ (0 ∷ []))) (over dst (xs ++ zs))
        ≡ some (over dst (xs ++ (src ++ (0 ∷ []))))
    written = rw ei (
        fill-over_append dst xs zs (src ++ (0 ∷ [])) (omega (arith, length-append src (0 ∷ [])))
          (omega (arith, length-append src (0 ∷ []))))
