-- ===== src/Api/Peers.antt =====
-- Addresses, connect requests and managers for the tests of src/api/routes.c.
use pcmm_policy_server.Base.{
  ℕ, ◌^◌, ◌<◌, ◌≤◌, ◌≡◌, refl, false, Option, none, some, [], ◌∷◌, arith, if◌then◌else◌, replicate,
}
use pcmm_policy_server.Base.Text.{Str, str, matches}
use pcmm_policy_server.Iputil.{Inet}
use pcmm_policy_server.Lcm.{Client}
use pcmm_policy_server.Api.{Outside, Shared}
use pcmm_policy_server.Api.Admission.{session_at, IsRegistered}

abbrev pub inet4 : Str → Option ℕ
inet4 s =
    if matches s (str "10.0.0.2")
    then some 167772162
    else if matches s (str "10.0.0.1")
    then some 167772161
    else none

pub inet4_fits : (s : Str) (a : ℕ) → inet4 s ≡ some a → a < 2 ^ 32
inet4_fits s a e = ground arith

abbrev pub inet : Inet
inet = record { pton4 = inet4; pton6 = λ s. false; pton4_fits = inet4_fits }

abbrev pub connect_to : Str → Outside
connect_to ip = record {
  binary_body_length = 40;
  cmts_ip = some ip;
  dry_run = false;
  evnt_lock = λ c. 0;
  internal_lock = 0;
  lcm_lock = 0;
  lcm_lock_init = 0;
  lcm_lock_again = 0;
  ps_new = some 8192;
  ps_admctl = 1;
  ps_boot = 77;
}

abbrev pub first : Client
first = session_at 4096 (str "10.0.0.1")

-- One session, below a limit.
abbrev pub limited : ℕ → Shared
limited n = record {
  lcm = record { count = 1; maxpep = n; clients = some first ∷ replicate 19 none };
  threads = replicate 20 0;
}

pub limited-IsRegistered : (n : ℕ) → 1 ≤ n → n ≤ 20 → IsRegistered (limited n) (first ∷ [])
limited-IsRegistered n low high = (
  record {
    rest = replicate 19 none;
    slots = refl;
    counted = refl;
    room = refl;
    bounded = low;
    capped = high;
  },
  (refl, record {}),
  refl,
)
