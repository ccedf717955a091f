-- ===== src/Session/Proxy/Layout.antt =====
-- The bytes of the message that `ps_proxy` of src/ps.c sends.
use pcmm_policy_server.Base.{
  ℕ, ◌+◌, ◌-◌, ◌^◌, ◌≤◌, ◌<◌, ◌≡◌, refl, sym, ap, ◌∙◌, Bool, true, false, Option, some, [], ◌∷◌,
  ◌++◌, append_assoc, arith, ◌==◌, if◌then◌else◌, length, length-append, length-replicate, take,
  take-append, drop, Mem, Stores-whole, Stores,
}
use pcmm_policy_server.Base.Fault.{◌>>=◌}
use pcmm_policy_server.Pack.{concat}
use pcmm_policy_server.Pack.Words.{be16}
use pcmm_policy_server.Pack.Concat.{concat-eq-concat_c8}
use pcmm_policy_server.Pack.Over.{over, concat_c8-over}
use pcmm_policy_server.Cops.{pack_ctl_objs, new_cops_message}
use pcmm_policy_server.Cops.Objects.{pack_ctl_objs_lem}
use pcmm_policy_server.Cops.Message.{header_bytes, new_cops_message-Stores}
use pcmm_policy_server.Session.Proxy.{
  Objects, gate_set, cleared, mod_size, pack_request, pack_message,
}

abbrev pub request_bytes : Bool → Bool → Mem → Mem → Mem
request_bytes false no_gate gid request = gid
request_bytes true true gid request = request
request_bytes true false gid request = gid ++ request

-- The objects as `ps_proxy` declares them, for an address object of `addr_len` bytes.
abbrev pub IsSized : Objects → ℕ → Type 0
IsSized objs addr_len =
    (length objs.hnd ≡ 8)
    × (length objs.ctx ≡ 8)
    × (length objs.dec ≡ 8)
    × (length objs.cop ≡ 8)
    × (length objs.aid ≡ 8)
    × (length objs.sub ≡ addr_len)
    × (length objs.gid ≡ 8)

abbrev pub control_bytes : Objects → ℕ → Mem
control_bytes objs dec_size =
    objs.hnd
    ++ objs.ctx
    ++ objs.dec
    ++ (be16 dec_size ++ (6 ∷ 4 ∷ []))
    ++ objs.cop
    ++ objs.aid
    ++ objs.sub

abbrev pub request_size : Bool → Bool → ℕ → ℕ
request_size false no_gate len = 8
request_size true true len = len
request_size true false len = 8 + len

length-request_bytes :
    (set no_gate : Bool) (gid request : Mem) (len : ℕ)
    → length gid ≡ 8
    → length request ≡ len
    → length (request_bytes set no_gate gid request) ≡ request_size set no_gate len
length-request_bytes false no_gate gid request len h8 hl = h8
length-request_bytes true true gid request len h8 hl = hl
length-request_bytes true false gid request len h8 hl = omega (arith, length-append gid request)

pub mod_size_lem :
    (op gate_id len : ℕ)
    → mod_size op gate_id len ≡ 16 + request_size (op == gate_set) (gate_id == 0) len
mod_size_lem op gate_id len = by_cases (op == gate_set) (gate_id == 0)
  where
    by_cases :
        (set no_gate : Bool)
        → (if set then (if no_gate then 0 else 8) + (16 + len) else 24)
          ≡ 16 + request_size set no_gate len
    by_cases false no_gate = refl
    by_cases true true = omega arith
    by_cases true false = omega arith

length-cleared : (n : ℕ) → length (cleared n) ≡ n
length-cleared n = length-replicate {A = ℕ} n 0

request_size_small : (set no_gate : Bool) (len : ℕ) → request_size set no_gate len ≤ len + 8
request_size_small false no_gate len = omega arith
request_size_small true true len = omega arith
request_size_small true false len = omega arith

same_pack :
    (dst : Mem) {t t' : Mem} {n n' : ℕ}
    → t ≡ t'
    → n ≡ n'
    → ◌≡◌ {A = Option (Mem × ℕ)}
        (some (over dst (t ++ (0 ∷ [])), n))
        (some (over dst (t' ++ (0 ∷ [])), n'))
same_pack dst e e' = cc

pack_request_lem :
    (set no_gate : Bool) (gid request dst xs : Mem) (i len : ℕ)
    → length gid ≡ 8
    → length request ≡ len
    → length xs ≡ i
    → i + request_size set no_gate len < length dst
    → length dst < 2 ^ 31
    → pack_request set no_gate gid request len (over dst (xs ++ (0 ∷ [])), i)
      ≡ some (
        over dst ((xs ++ request_bytes set no_gate gid request) ++ (0 ∷ [])),
        i + request_size set no_gate len,
      )
pack_request_lem false no_gate gid request dst xs i len h8 hl hx room small =
    concat-eq-concat_c8 _ i gid 8
    ∙ concat_c8-over dst xs (0 ∷ []) gid i 8 (sym hx) (sym h8) (omega arith) room (omega arith)
pack_request_lem true true gid request dst xs i len h8 hl hx room small =
    concat-eq-concat_c8 _ i request len
    ∙ concat_c8-over dst xs (0 ∷ []) request i len (sym hx) (sym hl) (omega arith) room
        (omega arith)
pack_request_lem true false gid request dst xs i len h8 hl hx room small =
    ap (λ m. m >>= λ (d, j). concat d j request len)
      (concat_c8-over dst xs (0 ∷ []) gid i 8 (sym hx) (sym h8) (omega arith) (omega arith)
        (omega arith))
    ∙ concat-eq-concat_c8 _ (i + 8) request len
    ∙ concat_c8-over dst (xs ++ gid) (0 ∷ []) request (i + 8) len
        (omega (arith, length-append xs gid)) (sym hl) (omega arith) (omega arith) (omega arith)
    ∙ same_pack dst (append_assoc xs gid request) (omega arith)

abbrev pub dec_size : ℕ → ℕ → ℕ → ℕ → ℕ
dec_size op gate_id len addr_len = addr_len + mod_size op gate_id len + 4

abbrev pub msg_size : ℕ → ℕ → ℕ → ℕ → ℕ
msg_size op gate_id len addr_len = dec_size op gate_id len addr_len + 32

abbrev pub body_bytes : Objects → ℕ → ℕ → Mem → ℕ → ℕ → Mem
body_bytes objs op gate_id request len addr_len =
    control_bytes objs (dec_size op gate_id len addr_len)
    ++ request_bytes (op == gate_set) (gate_id == 0) objs.gid request

abbrev pub message_bytes : Objects → ℕ → ℕ → Mem → ℕ → ℕ → Mem
message_bytes objs op gate_id request len addr_len =
    header_bytes 2 (msg_size op gate_id len addr_len)
    ++ body_bytes objs op gate_id request len addr_len

length-control_bytes :
    (objs : Objects) (ds addr_len : ℕ)
    → IsSized objs addr_len
    → length (control_bytes objs ds) ≡ 44 + addr_len
length-control_bytes objs ds addr_len (h1, h2, h3, h4, h5, h6, h7) = omega (
  arith,
  length-append
      (objs.hnd ++ objs.ctx ++ objs.dec ++ (be16 ds ++ (6 ∷ 4 ∷ [])) ++ objs.cop ++ objs.aid)
      objs.sub,
  length-append (objs.hnd ++ objs.ctx ++ objs.dec ++ (be16 ds ++ (6 ∷ 4 ∷ [])) ++ objs.cop)
      objs.aid,
  length-append (objs.hnd ++ objs.ctx ++ objs.dec ++ (be16 ds ++ (6 ∷ 4 ∷ []))) objs.cop,
  length-append (objs.hnd ++ objs.ctx ++ objs.dec) (be16 ds ++ (6 ∷ 4 ∷ [])),
  length-append (objs.hnd ++ objs.ctx) objs.dec,
  length-append objs.hnd objs.ctx,
)

-- For objects of their declared sizes and a request of `len` bytes, fewer than 2 ^ 16, the message is
-- the common header, the control objects and the request, with nothing between them
-- and no byte behind; its size is the length that the header carries. No buffer is overrun.
pub pack_message_lem :
    (objs : Objects) (op gate_id : ℕ) (request : Mem) (len addr_len : ℕ)
    → IsSized objs addr_len
    → addr_len ≤ 20
    → length request ≡ len
    → len < 2 ^ 16
    → (pack_message objs op gate_id request len addr_len
        ≡ some (message_bytes objs op gate_id request len addr_len))
      × (length (message_bytes objs op gate_id request len addr_len)
          ≡ msg_size op gate_id len addr_len)
unfolding pack_message
pack_message_lem objs op gate_id request len addr_len (h1, h2, h3, h4, h5, h6, h7) short same
      small =
    (rw (control, asked) made, whole)
  where
    msg : ℕ
    msg = msg_size op gate_id len addr_len

    rs : ℕ
    rs = request_size (op == gate_set) (gate_id == 0) len

    rs_small : rs ≤ len + 8
    rs_small = request_size_small (op == gate_set) (gate_id == 0) len

    msg_eq : msg ≡ 52 + addr_len + rs
    msg_eq = omega (arith, mod_size_lem op gate_id len)

    control :
        pack_ctl_objs
          (cleared msg)
          objs.hnd
          objs.ctx
          objs.dec
          objs.cop
          objs.aid
          objs.sub
          (dec_size op gate_id len addr_len)
          addr_len
        ≡ some (
          over (cleared msg) (control_bytes objs (dec_size op gate_id len addr_len) ++ (0 ∷ [])),
          44 + addr_len,
        )
    control =
        pack_ctl_objs_lem (cleared msg) objs.hnd objs.ctx objs.dec objs.cop objs.aid objs.sub
          (dec_size op gate_id len addr_len) addr_len h1 h2 h3 h4 h5 h6 short
          (omega (arith, msg_eq, length-cleared msg))

    asked :
        pack_request (op == gate_set) (gate_id == 0) objs.gid request len (
          over (cleared msg) (control_bytes objs (dec_size op gate_id len addr_len) ++ (0 ∷ [])),
          44 + addr_len,
        )
        ≡ some (
          over (cleared msg) (body_bytes objs op gate_id request len addr_len ++ (0 ∷ [])),
          44 + addr_len + rs,
        )
    asked =
        pack_request_lem (op == gate_set) (gate_id == 0) objs.gid request (cleared msg) _
          (44 + addr_len) len h7 same
          (length-control_bytes objs (dec_size op gate_id len addr_len) addr_len
            (h1, h2, h3, h4, h5, h6, h7))
          (omega (arith, msg_eq, length-cleared msg))
          (omega (arith, msg_eq, length-cleared msg, rs_small))

    body : Mem
    body = body_bytes objs op gate_id request len addr_len

    body_length : length body ≡ msg - 8
    body_length = omega (
      arith,
      msg_eq,
      length-append (control_bytes objs (dec_size op gate_id len addr_len))
          (request_bytes (op == gate_set) (gate_id == 0) objs.gid request),
      length-control_bytes objs (dec_size op gate_id len addr_len) addr_len
          (h1, h2, h3, h4, h5, h6, h7),
      length-request_bytes (op == gate_set) (gate_id == 0) objs.gid request len h7 same,
    )

    whole : length (message_bytes objs op gate_id request len addr_len) ≡ msg
    whole = omega (arith, msg_eq, body_length)

    buffer : Mem
    buffer = over (cleared msg) (body ++ (0 ∷ []))

    sent : take (msg - 8) buffer ≡ body
    sent =
        rw (← body_length)
          (ap (take (length body)) (append_assoc body (0 ∷ []) _) ∙ take-append body _)

    buffer_long : msg - 8 ≤ length buffer
    buffer_long = omega (
      arith,
      body_length,
      length-append body (0 ∷ []),
      length-append (body ++ (0 ∷ [])) (drop (length (body ++ (0 ∷ []))) (cleared msg)),
    )

    stored : Stores 0 (header_bytes 2 msg ++ body) (new_cops_message 2 (some buffer) msg)
    stored = rw sent at (
        new_cops_message-Stores 2 msg buffer (omega (arith, msg_eq))
          (omega (arith, msg_eq, rs_small)) buffer_long)

    made :
        new_cops_message 2
          (some (over (cleared msg) (body_bytes objs op gate_id request len addr_len ++ (0 ∷ []))))
          msg
          (cleared msg)
        ≡ some (message_bytes objs op gate_id request len addr_len)
    made = Stores-whole stored (cleared msg) (length-cleared msg ∙ sym whole)
