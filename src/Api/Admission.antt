-- ===== src/Api/Admission.antt =====
-- Which sessions `gctl_connect` of src/api/routes.c lets in.
use mathlib.Core.Option.{none-ne-some}
use pcmm_policy_server.Base.{
  ℕ, zero, suc, ◌<◌, ◌≡◌, ◌≢◌, refl, sym, ap, ◌∙◌, Bool, true, false, ◌&&◌, not, Option, none, some,
  List, [], ◌∷◌, ◌++◌, arith, ◌==◌, ne→==, if◌then◌else◌, length,
}
use pcmm_policy_server.Base.Text.{Str, matches, matches_self, eq_of_matches}
use pcmm_policy_server.Iputil.{Inet, is_ip4}
use pcmm_policy_server.Lcm.{maxroom, same_address, lcm_err, lcm_ok, Client, lcm_alloc_ok, store}
use pcmm_policy_server.Lcm.Table.{Holds, find, lcm_set-Holds, lcm_getps-find, lcm_alloc_ok_lem}
use pcmm_policy_server.Api.{
  econflict, enoroom, json_err, json_ok, Outside, gctl_lock_tid, Shared, register, start_session,
  admit, check_address, gctl_connect,
}

-- No two sessions have the same address.
abbrev pub AllDistinct : List Client → Type 0
AllDistinct [] = Unit
AllDistinct (c ∷ cs) = (find c.cmts_addr cs ≡ none) × AllDistinct cs

-- The manager holds `cs`, no two at one address, and there is a thread's place for each.
abbrev pub IsRegistered : Shared → List Client → Type 0
IsRegistered shared cs = Holds shared.lcm cs × AllDistinct cs × (length shared.threads ≡ maxroom)

abbrev pub session_at : ℕ → Str → Client
session_at ps ip = record { pointer = ps; cmts_addr = some ip }

pub matches-false_sym : (s t : Str) → matches s t ≡ false → matches t s ≡ false
matches-false_sym s t h = ground (arith, eq_of_matches t s, matches_self s)

same_address-false_sym :
    (a : Option Str) (ip : Str)
    → same_address a (some ip) ≡ false
    → same_address (some ip) a ≡ false
same_address-false_sym none ip h = refl
same_address-false_sym (some addr) ip h = matches-false_sym addr ip h

pub if_none :
    (b : Bool) (c : Client) (o : Option Client)
    → (if b then some c else o) ≡ none
    → (b ≡ false) × (o ≡ none)
if_none true c o h = absurd (none-ne-some c (sym h))
if_none false c o h = (refl, h)

find-append :
    (addr : Option Str) (cs : List Client) (d : Client)
    → find addr cs ≡ none
    → same_address d.cmts_addr addr ≡ false
    → find addr (cs ++ (d ∷ [])) ≡ none
find-append addr [] d h e = rw e refl
find-append addr (c ∷ cs) d h e =
    let (other, rest) = if_none (same_address c.cmts_addr addr) c (find addr cs) h in
    rw other (find-append addr cs d rest e)

AllDistinct-append :
    (cs : List Client) (ip : Str) (ps : ℕ)
    → AllDistinct cs
    → find (some ip) cs ≡ none
    → AllDistinct (cs ++ (session_at ps ip ∷ []))
AllDistinct-append [] ip ps all h = (refl, record {})
AllDistinct-append (c ∷ cs) ip ps (first, all) h =
    let (other, rest) = if_none (same_address c.cmts_addr (some ip)) c (find (some ip) cs) h in
    (
      find-append c.cmts_addr cs _ first (same_address-false_sym c.cmts_addr ip other),
      AllDistinct-append cs ip ps all rest,
    )

pub store-length :
    {A : Type 0} (i : ℕ) (a : A) (xs : List A)
    → i < length xs
    → (ys : List A) × (store i a xs ≡ some ys) × (length ys ≡ length xs)
unfolding store
store-length i a [] h = absurd (omega arith)
store-length zero a (x ∷ xs) h = (a ∷ xs, refl, refl)
store-length (suc i) a (x ∷ xs) h =
    let (ys, e, l) = store-length i a xs (omega arith) in (x ∷ ys, rw e refl, ap suc l)

-- Every lock can be taken.
abbrev pub IsFree : Outside → Type 0
IsFree out = ((c : Client) → out.evnt_lock c ≡ 0) × (out.internal_lock ≡ 0) × (out.lcm_lock ≡ 0)

register-IsRegistered :
    (out : Outside) (ip : Str) (ps : ℕ) (shared : Shared) (cs : List Client)
    → IsFree out
    → IsRegistered shared cs
    → find (some ip) cs ≡ none
    → length cs < shared.lcm.maxpep
    → (shared' : Shared) × (register out ip ps shared ≡ some (shared', json_ok (some ip)))
      × IsRegistered shared' (cs ++ (session_at ps ip ∷ []))
      × (shared'.lcm.maxpep ≡ shared.lcm.maxpep)
unfolding register gctl_lock_tid
register-IsRegistered out ip ps shared cs (free, internal, outer) (holds, all, places) absent less =
    let (lcm', e, kept, holds') = lcm_set-Holds shared.lcm cs (session_at ps ip) holds less in
    let (threads', e', l) =
      store-length (length cs) out.ps_boot shared.threads (omega (arith, holds.capped, places)) in
    (
      record { lcm = lcm'; threads = threads' },
      rw (internal, e, outer, ne→== (length cs) lcm_err (omega (arith, holds.capped)), e') refl,
      (holds', AllDistinct-append cs ip ps all absent, l ∙ places),
      kept,
    )

module _ (inet : Inet) (out : Outside) (shared : Shared) (cs : List Client) (ip : Str) (address : ℕ)
    (free : IsFree out) (registered : IsRegistered shared cs) (body : out.binary_body_length ≢ 0)
    (given : out.cmts_ip ≡ some ip) (valid : inet.pton4 ip ≡ some address) where
  looked_up : check_address inet out shared (some ip) ≡ admit out shared ip (find (some ip) cs)
  looked_up =
      let (evnt, internal, _) = free in
      let (holds, _, _) = registered in
      rw (accepted, internal, lcm_getps-find out.evnt_lock evnt shared.lcm cs (some ip) holds) refl
    where
      accepted : is_ip4 inet (some ip) ≡ some true
      accepted = unfold is_ip4 in ground arith

  checked : gctl_connect inet out shared ≡ admit out shared ip (find (some ip) cs)
  unfolding gctl_connect
  checked =
      rw (ne→== out.binary_body_length 0 body)
        (ap (check_address inet out shared) given ∙ looked_up)

  -- A valid request for an address without a session, with room below the limit, all locks free,
  -- and a session that is made, connects (or need not, in a dry run) and gets its thread: the reply
  -- is the address, the session is the last one registered, no two are at one address, and the limit
  -- stays.
  pub gctl_connect-IsRegistered :
      (ps : ℕ)
      → find (some ip) cs ≡ none
      → length cs < shared.lcm.maxpep
      → out.ps_new ≡ some ps
      → (not out.dry_run && out.ps_admctl == 0) ≡ false
      → out.ps_boot ≢ 0
      → (shared' : Shared) × (gctl_connect inet out shared ≡ some (shared', json_ok (some ip)))
        × IsRegistered shared' (cs ++ (session_at ps ip ∷ []))
        × (shared'.lcm.maxpep ≡ shared.lcm.maxpep)
  gctl_connect-IsRegistered ps absent less made connects boots =
      let (shared', e, registered', kept) =
        register-IsRegistered out ip ps shared cs free registered absent less in
      (
        shared',
        checked ∙ rw (absent, has_room) (ap (start_session out ip shared) made ∙ started ∙ e),
        registered',
        kept,
      )
    where
      started : start_session out ip shared (some ps) ≡ register out ip ps shared
      started = rw (connects, ne→== out.ps_boot 0 boots) refl

      has_room : lcm_alloc_ok out.internal_lock shared.lcm ≡ lcm_ok
      has_room =
          let (_, internal, _) = free in
          let (holds, _, _) = registered in
          rw internal (lcm_alloc_ok_lem shared.lcm cs holds ∙ ground arith)

  -- A valid request for an address that has a session is refused with code 100, and nothing
  -- changes.
  pub gctl_connect_conflict :
      (c : Client)
      → find (some ip) cs ≡ some c
      → gctl_connect inet out shared ≡ some (shared, json_err econflict)
  gctl_connect_conflict c present = checked ∙ rw present refl

  -- A valid request for an address without a session, at the limit, is refused with code 103, and
  -- nothing changes.
  pub gctl_connect_full :
      find (some ip) cs ≡ none
      → length cs ≡ shared.lcm.maxpep
      → gctl_connect inet out shared ≡ some (shared, json_err enoroom)
  gctl_connect_full absent full = checked ∙ rw (absent, no_room) refl
    where
      no_room : lcm_alloc_ok out.internal_lock shared.lcm ≡ lcm_err
      no_room =
          let (_, internal, _) = free in
          let (holds, _, _) = registered in
          rw internal (lcm_alloc_ok_lem shared.lcm cs holds ∙ ground arith)
