-- ===== src/Lcm/Rc.antt =====
-- The code of src/api/lcm.c under RCFILE: the file `data/.connectrc`, with a row for each session that
-- goes into the manager.
pub mod Rows
mod Tests
use pcmm_policy_server.Base.{
  ℕ, ◌+◌, Bool, true, false, Option, none, some, [], ◌∷◌, ◌++◌, ◌==◌, not, if◌then◌else◌, take,
  replicate, u8, Mem, fill, memcpy,
}
use pcmm_policy_server.Base.Fault.{◌>>=◌}
use pcmm_policy_server.Base.Text.{Str, str}
use pcmm_policy_server.Lcm.{Client, Lcm, lcm_init, lcm_set}
use pcmm_policy_server.Api.Gates.{c_string}
use pcmm_policy_server.Api.Responses.{decimal}

-- What `H_FMT` prints, and `R_FMT` for a `uint8_t` and an address.
abbrev pub header_row : Str
header_row = str "count,cmts_ip" ++ (10 ∷ [])

abbrev pub row : ℕ → Str → Str
row id addr = decimal id ++ (b',' ∷ (addr ++ (10 ∷ [])))

-- The contents of a file that may not exist.
abbrev pub contents : Option Str → Str
contents none = []
contents (some text) = text

-- `opens` tells whether `fopen` succeeds. The result is the file, and whether it is `RC_OK`.
unfoldable pub rcw_hdr : Bool → Option Str → Option Str × Bool
rcw_hdr opens file = if opens then (some header_row, true) else (file, false)

-- A session without an address is printed from a null pointer.
unfoldable pub rcw_row : Bool → ℕ → Client → Option Str → Option (Option Str × Bool)
rcw_row opens id ps file =
    if not opens
    then some (file, false)
    else (ps.cmts_addr >>= λ addr. some (some (contents file ++ row id addr), true))

-- `strncat(dst, src, n)`
unfoldable pub strncat : Mem → Str → ℕ → Option Mem
strncat dst src n = c_string dst >>= λ s. fill (s ++ (take n src ++ (0 ∷ []))) dst

-- The array `rcp` of 110 bytes, from what `getcwd` leaves in `cwd`.
unfoldable pub rc_path : Mem → Option Mem
rc_path cwd = do
  dir ← c_string cwd
  a ← strncat (replicate 110 0) dir 119
  b ← strncat a (str "/data/") 7
  strncat b (str ".connectrc") 10

-- A file that exists is opened for writing and closed.
abbrev pub purge : Bool → Option Str → Option (Option Str)
purge opens none = some none
purge opens (some text) = if opens then some (some []) else none

-- The global path, the file, and whether the result is `RC_OK`. The path is a `const` member that is
-- written through a cast, which C leaves undefined; it is taken to hold what is copied.
unfoldable pub rc_init : Bool → Mem → Option Str → Option (Mem × (Option Str × Bool))
rc_init opens cwd file = do
  rcp ← rc_path cwd
  purged ← purge opens file
  path ← memcpy rcp 110 (replicate 200 0)
  some (path, rcw_hdr opens purged)

-- `lcm_init` with the file: that it fails is only logged.
unfoldable pub init_with_rc : Bool → Mem → Option Str → ℕ → ℕ → Option (Option Lcm × Option Str)
init_with_rc opens cwd file mutex_init maxpep =
    rc_init opens cwd file >>= λ (path, (file', ok)). some (lcm_init mutex_init maxpep, file')

-- `lcm_set` with the file, whose row is written under the lock.
unfoldable pub set_with_rc : Bool → ℕ → Lcm → Client → Option Str → Option ((Lcm × ℕ) × Option Str)
set_with_rc opens internal_lock self conn file = lcm_set internal_lock self conn >>= λ result.
    if not (internal_lock == 0)
    then some (result, file)
    else (rcw_row opens (u8 (self.count + 1)) conn file >>= λ (file', ok). some (result, file'))
