-- ===== src/Cops/Objects.antt =====
-- The objects of src/pcl/cops.c, byte for byte.
use pcmm_policy_server.Base.{
  ℕ, ◌+◌, ◌%◌, ◌≤◌, ◌<◌, length-append, ◌≡◌, refl, sym, append-nil, poke, ◌>>◌, ◌∙◌, some, List, [],
  ◌∷◌, ◌++◌, arith, length, take, Mem, Stores, Stores-at, Stores-poke, Stores-memcpy, ◌⨟◌, at, fill,
  memcpy,
}
use pcmm_policy_server.Base.Fault.{then_bind}
use pcmm_policy_server.Pack.{concat_c8, pack_u16_be}
use pcmm_policy_server.Pack.Words.{pack_u16_be-Stores, be16}
use pcmm_policy_server.Pack.Over.{over, concat_c8-over, Stores-over}
use pcmm_policy_server.Cops.{
  cops_oid, cops_handle, cops_context, cops_decision, htons_bytes, pack_ctl_objs,
}

pub cops_oid-Stores :
    (num type : ℕ) → Stores 0 (0 ∷ 8 ∷ num % 256 ∷ type % 256 ∷ []) (cops_oid num type)
unfolding cops_oid
cops_oid-Stores num type = Stores-at 0 (pack_u16_be-Stores 8) ⨟ Stores-poke 2 _ ⨟ Stores-poke 3 _

pub cops_handle-Stores :
    (handle : Mem)
    → 4 ≤ length handle
    → Stores 0 (0 ∷ 8 ∷ 1 ∷ 1 ∷ take 4 handle) (cops_handle handle)
unfolding cops_handle
cops_handle-Stores handle h = cops_oid-Stores 1 1 ⨟ Stores-at 4 (Stores-memcpy handle 4 h)

pub cops_decision-Stores : Stores 0 (0 ∷ 8 ∷ 6 ∷ 1 ∷ 0 ∷ 1 ∷ 0 ∷ 1 ∷ []) cops_decision
unfolding cops_decision
cops_decision-Stores =
    cops_oid-Stores 6 1
    ⨟ Stores-at 4 (Stores-memcpy (htons_bytes 1 ++ htons_bytes 1) 4 (omega arith))

pub cops_context-Stores : Stores 0 (0 ∷ 8 ∷ 2 ∷ 1 ∷ 0 ∷ 8 ∷ 0 ∷ 0 ∷ []) cops_context
unfolding cops_context at fill
cops_context-Stores =
    let both =
      cops_oid-Stores 2 1 ⨟ Stores-at 4 (Stores-memcpy (0 ∷ 8 ∷ 0 ∷ 0 ∷ []) 4 (omega arith)) in
    record {
      runs = λ m. then_bind (cops_oid 2 1) (at 4 (memcpy (0 ∷ 8 ∷ 0 ∷ 0 ∷ []) 4)) m ∙ both.runs m;
    }

-- With buffers of the sizes that `ps_proxy` uses, the packed data is the handle, the context, the
-- decision, a header with S-Num 6 and S-Type 4 that carries `decision_length`, the command, the
-- application and the subscriber, in this order and with nothing between them; the count is
-- `44 + ip_length`. One zero byte is written behind them, and the rest of the buffer is unchanged.
pub pack_ctl_objs_lem :
    (dst handle context decision command application subscriber : Mem)
    (decision_length ip_length : ℕ)
    → length handle ≡ 8
    → length context ≡ 8
    → length decision ≡ 8
    → length command ≡ 8
    → length application ≡ 8
    → length subscriber ≡ ip_length
    → ip_length ≤ 20
    → 44 + ip_length < length dst
    → pack_ctl_objs dst handle context decision command application subscriber decision_length
        ip_length
      ≡ some (
        over dst (
            (handle
              ++ context
              ++ decision
              ++ (be16 decision_length ++ (6 ∷ 4 ∷ []))
              ++ command
              ++ application
              ++ subscriber)
            ++ (0 ∷ [])),
        44 + ip_length,
      )
unfolding pack_ctl_objs
pack_ctl_objs_lem dst hnd ctx dec cmd app sub dl il h1 h2 h3 h4 h5 h6 small room =
    rw
      (
        first,
        piece hnd ctx 8 8 h1 h2 (omega arith),
        piece (hnd ++ ctx) dec 16 8 l2 h3 (omega arith),
        headers,
      )
      (rw (command_at, piece (headed ++ cmd) app 36 8 l5 h5 (omega arith))
        (piece (headed ++ cmd ++ app) sub 44 il l6 h6 (omega arith)))
  where
    three : List ℕ
    three = hnd ++ ctx ++ dec

    headed : List ℕ
    headed = three ++ (be16 dl ++ (6 ∷ 4 ∷ []))

    l2 : length (hnd ++ ctx) ≡ 16
    l2 = length-append hnd ctx ∙ omega arith

    l3 : length three ≡ 24
    l3 = length-append (hnd ++ ctx) dec ∙ omega (arith, l2)

    l4 : length headed ≡ 28
    l4 = length-append three _ ∙ omega (arith, l3)

    l5 : length (headed ++ cmd) ≡ 36
    l5 = length-append headed cmd ∙ omega (arith, l4)

    l6 : length (headed ++ cmd ++ app) ≡ 44
    l6 = length-append (headed ++ cmd) app ∙ omega (arith, l5)

    piece :
        (xs src : Mem) (i n : ℕ)
        → length xs ≡ i
        → length src ≡ n
        → i + n ≤ 44 + il
        → concat_c8 (over dst (xs ++ (0 ∷ []))) i src n
          ≡ some (over dst ((xs ++ src) ++ (0 ∷ [])), i + n)
    piece xs src i n ei en le =
        concat_c8-over dst xs (0 ∷ []) src i n (sym ei) (sym en) (omega arith) (omega arith)
          (omega arith)

    first : concat_c8 dst 0 hnd 8 ≡ some (over dst (hnd ++ (0 ∷ [])), 8)
    first = concat_c8-over dst [] [] hnd 0 8 refl (sym h1) (omega arith) (omega arith) (omega arith)

    headers :
        (at 24 (pack_u16_be dl) >> poke 26 6 >> poke 27 4) (over dst (three ++ (0 ∷ [])))
        ≡ some (over dst headed)
    headers =
        Stores-over dst three (0 ∷ [])
          (Stores-at 24 (pack_u16_be-Stores dl) ⨟ Stores-poke 26 6 ⨟ Stores-poke 27 4) (sym l3)
          (omega arith) (omega arith)

    command_at :
        concat_c8 (over dst headed) 28 cmd 8 ≡ some (over dst ((headed ++ cmd) ++ (0 ∷ [])), 36)
    command_at = rw append-nil at (
        concat_c8-over dst headed [] cmd 28 8 (sym l4) (sym h4) (omega arith) (omega arith)
          (omega arith))
