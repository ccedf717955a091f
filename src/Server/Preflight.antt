-- ===== src/Server/Preflight.antt =====
-- Which sessions the preflight list of src/api/routes.c leaves in the manager.
use pcmm_policy_server.Base.{
  ℕ, ◌+◌, ◌≤◌, ◌<◌, ◌≡◌, ◌≢◌, refl, ap, false, Option, none, some, List, [], ◌∷◌, ◌++◌, append-nil,
  append_assoc, arith, ne→==, length, length-append, replicate, Mem, map,
}
use pcmm_policy_server.Base.Text.{Str, str}
use pcmm_policy_server.Iputil.{Inet}
use pcmm_policy_server.Lcm.{same_address, Client}
use pcmm_policy_server.Lcm.Table.{find}
use pcmm_policy_server.Api.{Reply, json_ok, Outside, Shared}
use pcmm_policy_server.Api.Admission.{
  AllDistinct, IsRegistered, session_at, IsFree, if_none, matches-false_sym,
  gctl_connect-IsRegistered,
}
use pcmm_policy_server.Api.Gates.Answer.{IsText, c_string_lem, IsText-append, print_text}
use pcmm_policy_server.Api.Responses.{is_text, is_text_lem}
use pcmm_policy_server.Server.{connect_request, Body, connect_body, preflight_connect, connect_all}

find-none_mid :
    (a : Option Str) (cs ds : List Client) (d : Client)
    → find a (cs ++ (d ∷ ds)) ≡ none
    → same_address d.cmts_addr a ≡ false
find-none_mid a [] ds d h = (if_none (same_address d.cmts_addr a) d (find a ds) h).0
find-none_mid a (c ∷ cs) ds d h =
    find-none_mid a cs ds d (if_none (same_address c.cmts_addr a) c (find a (cs ++ (d ∷ ds))) h).1

-- In a list without two sessions at one address, none of the sessions before one is at its address.
AllDistinct-find :
    (cs ds : List Client) (ps : ℕ) (ip : Str)
    → AllDistinct (cs ++ (session_at ps ip ∷ ds))
    → find (some ip) cs ≡ none
AllDistinct-find [] ds ps ip all = refl
AllDistinct-find (c ∷ cs) ds ps ip (first, all) =
    rw (other c.cmts_addr (find-none_mid c.cmts_addr cs ds (session_at ps ip) first))
      (AllDistinct-find cs ds ps ip all)
  where
    other : (a : Option Str) → same_address (some ip) a ≡ false → same_address a (some ip) ≡ false
    other none h = refl
    other (some addr) h = matches-false_sym ip addr h

-- An address of the list, the pointer of its session, and its bytes.
pub record Peer : Type 0 where
  pub ip : Str
  pub ps : ℕ
  pub behind : Mem

abbrev pub bytes_of : Peer → Mem
bytes_of p = p.ip ++ (0 ∷ p.behind)

abbrev pub session_of : Peer → Client
session_of p = session_at p.ps p.ip

-- The body of a request for an address with room in the buffer.
connect_body_lem :
    (ip behind : Mem)
    → IsText ip
    → length ip < 290
    → connect_body (ip ++ (0 ∷ behind)) ≡ some (connect_request ip)
unfolding connect_body is_text
connect_body_lem ip behind text short =
    rw
      (
        c_string_lem ip behind text,
        print_text (connect_request ip) (replicate 336 0)
            (omega (arith, length-append ip (str "\", \"dry_run\": 0}}"))),
      )
      (c_string_lem (connect_request ip) _ (
        IsText-append (str "{\"input\": {\"cmts_ip\": \"") _
          (is_text_lem (str "{\"input\": {\"cmts_ip\": \"") refl)
          (IsText-append ip (str "\", \"dry_run\": 0}}") text
            (is_text_lem (str "\", \"dry_run\": 0}}") refl))))

connect_request-length : (ip : Str) → length (connect_request ip) ≢ 0
connect_request-length ip = omega arith

module _ (inet : Inet) (parse : Str → Body) where
  -- The address is one of IPv4 in text, yyjson reads it back from the request, and the session is
  -- made, connects and gets its thread, with all locks free.
  pub record Connects (out : Outside) (p : Peer) : Type 0 where
    pub address : ℕ
    pub valid : inet.pton4 p.ip ≡ some address
    pub text : IsText p.ip
    pub short : length p.ip ≤ 15
    pub parsed : parse (connect_request p.ip) ≡ record { cmts_ip = some p.ip; dry_run = false }
    pub free : IsFree out
    pub made : out.ps_new ≡ some p.ps
    pub connects : out.ps_admctl ≢ 0
    pub boots : out.ps_boot ≢ 0

  abbrev pub AllConnect : (ℕ → Outside) → ℕ → List Peer → Type 0
  AllConnect calls i [] = Unit
  AllConnect calls i (p ∷ ps) = Connects (calls i) p × AllConnect calls (i + 1) ps

  connected :
      (out : Outside) (p : Peer) (shared : Shared) (cs : List Client)
      → Connects out p
      → IsRegistered shared cs
      → find (some p.ip) cs ≡ none
      → length cs < shared.lcm.maxpep
      → (shared' : Shared) × (preflight_connect inet parse out (connect_request p.ip) shared
          ≡ some (shared', json_ok (some p.ip)))
        × IsRegistered shared' (cs ++ (session_of p ∷ []))
        × (shared'.lcm.maxpep ≡ shared.lcm.maxpep)
  unfolding preflight_connect
  connected out p shared cs c registered absent less =
      gctl_connect-IsRegistered inet _ shared cs p.ip c.address c.free registered
        (connect_request-length p.ip) (ap (λ b. b.cmts_ip) c.parsed) c.valid p.ps absent less c.made
        (rw (c.parsed) (ne→== out.ps_admctl 0 c.connects)) c.boots

  abbrev pub oks : List Peer → List Reply
  oks [] = []
  oks (p ∷ ps) = json_ok (some p.ip) ∷ oks ps

  -- Addresses of which no two are the same or that of a session, with room for all of them below
  -- the limit, each of which connects: all replies are the addresses, and the sessions stand behind
  -- the others in the order of the list.
  pub connect_all-IsRegistered :
      (calls : ℕ → Outside) (i : ℕ) (ps : List Peer) (shared : Shared) (cs : List Client)
      → AllConnect calls i ps
      → IsRegistered shared cs
      → AllDistinct (cs ++ map session_of ps)
      → length cs + length ps ≤ shared.lcm.maxpep
      → (shared' : Shared) × (connect_all inet parse calls i (map bytes_of ps) shared
          ≡ some (shared', oks ps))
        × IsRegistered shared' (cs ++ map session_of ps)
  unfolding connect_all
  connect_all-IsRegistered calls i [] shared cs all registered distinct room =
      (shared, refl, rw append-nil registered)
  connect_all-IsRegistered calls i (p ∷ ps) shared cs (first, all) registered distinct room =
      let absent = AllDistinct-find cs (map session_of ps) p.ps p.ip distinct in
      let (shared', e, registered', kept) =
        connected (calls i) p shared cs first registered absent (omega arith) in
      let moved = append_assoc cs (session_of p ∷ []) (map session_of ps) in
      let (shared'', e', registered'') =
        connect_all-IsRegistered calls (i + 1) ps shared' (cs ++ (session_of p ∷ [])) all
          registered' (rw moved distinct)
          (omega (arith, length-append cs (session_of p ∷ []), kept)) in
      (
        shared'',
        rw (connect_body_lem p.ip p.behind first.text (omega (arith, first.short)), e, e') refl,
        rw (← moved) registered'',
      )
