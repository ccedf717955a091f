-- ===== src/Lcm.antt =====
-- src/api/lcm.c: the local connection manager, a table of the sessions by CMTS address.
-- The result of each `pthread_mutex_lock` is an argument: 0, or an error's number. A result tells
-- beside its value whether `lcm_internal_lock` is still held.
pub mod Table
pub mod Locks
pub mod Rc
mod Tests
use pcmm_policy_server.Base.{
  ℕ, zero, suc, ◌+◌, ◌-◌, ◌%◌, ◌^◌, Bool, true, false, not, Option, none, some, List, [], ◌∷◌, ◌==◌,
  ltb, leb, if◌then◌else◌, length, get_elem?, replicate, u32,
}
use pcmm_policy_server.Base.Fault.{◌>>=◌}
use pcmm_policy_server.Base.Text.{Str, matches}

abbrev pub maxroom : ℕ
maxroom = 20

-- `LCM_ERR` is -1.
abbrev pub lcm_err : ℕ
lcm_err = 2 ^ 32 - 1

abbrev pub lcm_ok : ℕ
lcm_ok = 1

-- A session as the manager sees it: the pointer and the address, which may be null.
pub record Client : Type 0 where
  pub pointer : ℕ
  pub cmts_addr : Option Str

-- The slots of `clients` that were never written are `none`.
pub record Lcm : Type 0 where
  pub count : ℕ
  pub maxpep : ℕ
  pub clients : List (Option Client)

-- `maxpep` is an `int`; as a `size_t` a negative one is close to 2 ^ 64.
abbrev pub to_size : ℕ → ℕ
to_size n = if ltb (u32 n) (2 ^ 31) then u32 n else u32 n + 2 ^ 64 - 2 ^ 32

-- `maxpep > MAXROOM` in `int`. `none` is a null pointer.
unfoldable pub lcm_init : ℕ → ℕ → Option Lcm
lcm_init mutex_init maxpep =
    if ltb (u32 maxpep) (2 ^ 31)
    then if ltb maxroom (u32 maxpep)
      then none
      else if not (mutex_init == 0)
      then none
      else some (record { count = 0; maxpep = to_size maxpep; clients = replicate maxroom none })
    else if not (mutex_init == 0)
    then none
    else some (record { count = 0; maxpep = to_size maxpep; clients = replicate maxroom none })

-- A null address, or a null target, is no match: the loop logs it and goes on.
abbrev pub same_address : Option Str → Option Str → Bool
same_address none ip = false
same_address (some addr) none = false
same_address (some addr) (some target) = matches addr target

-- What `lcm_getps` returns, and whether `lcm_internal_lock` is held then.
pub record Found : Type 0 where
  pub ps : Option Client
  pub held : Bool

module _ (evnt_lock : Client → ℕ) where
  -- The loop from slot `i` on, with `left` slots to look at.
  unfoldable pub search : ℕ → ℕ → List (Option Client) → Option Str → Option Found
  search zero i clients ip = some (record { ps = none; held = false })
  search (suc left) i clients ip =
      let rest = search left (i + 1) clients ip in
      do
        slot ← get_elem? clients i
        temp ← slot
        if not (evnt_lock temp == 0)
            then some (record { ps = none; held = true })
            else if same_address temp.cmts_addr ip
            then some (record { ps = some temp; held = false })
            else rest

  unfoldable pub lcm_getps : ℕ → Option Lcm → Option Str → Option Found
  lcm_getps internal_lock none ip = some (record { ps = none; held = false })
  lcm_getps internal_lock (some self) ip =
      if not (internal_lock == 0)
      then some (record { ps = none; held = false })
      else if self.count == 0
      then some (record { ps = none; held = false })
      else search self.count 0 self.clients ip

unfoldable pub lcm_alloc_ok : ℕ → Lcm → ℕ
lcm_alloc_ok internal_lock self =
    if not (internal_lock == 0)
    then lcm_err
    else if leb self.maxpep self.count
    then lcm_err
    else lcm_ok

-- `array[i] = a`, a fault beyond the array.
unfoldable pub store : {A : Type 0} → ℕ → A → List A → Option (List A)
store i a [] = none
store zero a (x ∷ xs) = some (a ∷ xs)
store (suc i) a (x ∷ xs) = store i a xs >>= λ xs'. some (x ∷ xs')

-- The manager and the returned index.
unfoldable pub lcm_set : ℕ → Lcm → Client → Option (Lcm × ℕ)
lcm_set internal_lock self conn =
    if not (internal_lock == 0)
    then some (self, lcm_err)
    else (store self.count (some conn) self.clients >>= λ clients.
        some (record self { count = (self.count + 1) % 2 ^ 64; clients = clients }, u32 self.count))
