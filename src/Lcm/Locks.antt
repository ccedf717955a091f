-- ===== src/Lcm/Locks.antt =====
-- Two ways in which the manager of src/api/lcm.c breaks: a lock that is not given back, and a
-- negative limit.
use pcmm_policy_server.Base.{
  ℕ, ◌+◌, ◌-◌, ◌^◌, ◌≤◌, ◌<◌, ◌≡◌, ◌≢◌, refl, true, Option, none, some, List, ◌∷◌, arith, ne→==,
  length, replicate,
}
use pcmm_policy_server.Base.Text.{Str}
use pcmm_policy_server.Lcm.Table.{store-none}
use pcmm_policy_server.Lcm.{
  maxroom, lcm_ok, Client, Lcm, lcm_init, search, lcm_getps, lcm_alloc_ok, lcm_set,
}
use pcmm_policy_server.Lcm.Table.{Holds}

-- When the event lock of the first session cannot be taken, the lookup finds nothing and returns
-- with `lcm_internal_lock` held, whatever the address.
pub lcm_getps_held :
    (evnt_lock : Client → ℕ) (self : Lcm) (c : Client) (cs : List Client) (ip : Option Str)
    → Holds self (c ∷ cs)
    → evnt_lock c ≢ 0
    → lcm_getps evnt_lock 0 (some self) ip ≡ some (record { ps = none; held = true })
unfolding lcm_getps search
lcm_getps_held evnt_lock self c cs ip h stuck =
    rw (h.counted, ne→== (length (c ∷ cs)) 0 (omega arith), h.slots, ne→== (evnt_lock c) 0 stuck)
      refl

-- A negative limit passes the test against 20. The manager then says that there is room whatever
-- the number of sessions below 2 ^ 63, and the one after the twentieth is written past the array.
pub lcm_init_negative :
    (n count : ℕ) (clients : List (Option Client)) (c : Client)
    → 2 ^ 31 ≤ n
    → n < 2 ^ 32
    → maxroom ≤ count
    → count < 2 ^ 63
    → length clients ≡ maxroom
    → (self : Lcm) × (lcm_init 0 n ≡ some self)
      × (lcm_alloc_ok 0 (record self { count = count; clients = clients }) ≡ lcm_ok)
      × (lcm_set 0 (record self { count = count; clients = clients }) c ≡ none)
unfolding lcm_init lcm_alloc_ok lcm_set
lcm_init_negative n count clients c low high many few room = (
  record { count = 0; maxpep = n + 2 ^ 64 - 2 ^ 32; clients = replicate maxroom none },
  ground arith,
  ground arith,
  rw (store-none count (some c) clients (omega arith)) refl,
)
