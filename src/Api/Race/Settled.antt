-- ===== src/Api/Race/Settled.antt =====
-- What a connect request of src/api/routes.c has at each point, and when its answer is right.
use mathlib.Core.Option.{none-ne-some}
use pcmm_policy_server.Base.{
  ℕ, zero, suc, ◌≡◌, refl, none, some, List, [], ◌∷◌, ◌++◌, length, get_elem?,
}
use pcmm_policy_server.Base.Text.{Str}
use pcmm_policy_server.Lcm.{Client}
use pcmm_policy_server.Api.{Outside, Reply, json_ok, callback_complete}
use pcmm_policy_server.Api.Admission.{session_at}
use pcmm_policy_server.Api.Race.{Pc, begin, asked, absent, started, placed, answered}

-- The address is the one of the request, and its own session stands at this position.
abbrev pub StandsAt : Outside → Str → List Client → ℕ → Type 0
StandsAt out ip cs pos =
    (ps : ℕ) × (out.cmts_ip ≡ some ip)
    × (out.ps_new ≡ some ps)
    × (get_elem? cs pos ≡ some (session_at ps ip))

-- A request that is answered that it is connected has its own session among the clients.
abbrev pub OkReply : Outside → Reply → List Client → Type 0
OkReply out (json_ok (some ip)) cs = (pos : ℕ) × StandsAt out ip cs pos
OkReply out r cs = Unit

abbrev pub Settled : Outside → Pc → List Client → Type 0
Settled out begin cs = Unit
Settled out (asked ip) cs = out.cmts_ip ≡ some ip
Settled out (absent ip) cs = out.cmts_ip ≡ some ip
Settled out (started ip ps) cs = (out.cmts_ip ≡ some ip) × (out.ps_new ≡ some ps)
Settled out (placed ip pos) cs = StandsAt out ip cs pos
Settled out (answered reply) cs = OkReply out reply cs

-- The client is the session that one of the requests has made, at the address it asks for.
abbrev pub Requested : (ℕ → Outside) → Client → Type 0
Requested outs d =
    (i : ℕ) × (ip : Str) × (ps : ℕ) × ((outs i).cmts_ip ≡ some ip)
    × ((outs i).ps_new ≡ some ps)
    × (d ≡ session_at ps ip)

abbrev pub AllRequested : (ℕ → Outside) → List Client → Type 0
AllRequested outs [] = Unit
AllRequested outs (d ∷ ds) = Requested outs d × AllRequested outs ds

get_elem-append :
    (cs : List Client) (d c : Client) (pos : ℕ)
    → get_elem? cs pos ≡ some c
    → get_elem? (cs ++ (d ∷ [])) pos ≡ some c
get_elem-append [] d c pos h = absurd (none-ne-some c h)
get_elem-append (e ∷ cs) d c zero h = h
get_elem-append (e ∷ cs) d c (suc pos) h = get_elem-append cs d c pos h

pub get_elem-last :
    (cs : List Client) (d : Client) → get_elem? (cs ++ (d ∷ [])) (length cs) ≡ some d
get_elem-last [] d = refl
get_elem-last (e ∷ cs) d = get_elem-last cs d

StandsAt-append :
    (out : Outside) (ip : Str) (cs : List Client) (d : Client) (pos : ℕ)
    → StandsAt out ip cs pos
    → StandsAt out ip (cs ++ (d ∷ [])) pos
StandsAt-append out ip cs d pos (ps, asks, made, e) =
    (ps, asks, made, get_elem-append cs d (session_at ps ip) pos e)

OkReply-append :
    (out : Outside) (r : Reply) (cs : List Client) (d : Client)
    → OkReply out r cs
    → OkReply out r (cs ++ (d ∷ []))
OkReply-append out (Reply.json_err n) cs d h = h
OkReply-append out (json_ok none) cs d h = h
OkReply-append out (json_ok (some ip)) cs d (pos, h) = (pos, StandsAt-append out ip cs d pos h)
OkReply-append out Reply.json_dryrun cs d h = h
OkReply-append out (Reply.json_frommsg s) cs d h = h
OkReply-append out callback_complete cs d h = h

pub Settled-append :
    (out : Outside) (pc : Pc) (cs : List Client) (d : Client)
    → Settled out pc cs
    → Settled out pc (cs ++ (d ∷ []))
Settled-append out begin cs d h = h
Settled-append out (asked ip) cs d h = h
Settled-append out (absent ip) cs d h = h
Settled-append out (started ip ps) cs d h = h
Settled-append out (placed ip pos) cs d h = StandsAt-append out ip cs d pos h
Settled-append out (answered reply) cs d h = OkReply-append out reply cs d h
