-- ===== src/Conf/File.antt =====
-- `conf_read_file` of src/conf.c: the options from a configuration file in JSON.
pub mod Kept
mod Tests
use pcmm_policy_server.Base.{
  ℕ, zero, suc, ◌+◌, ◌*◌, ◌^◌, ◌%◌, Bool, ◌&&◌, ◌||◌, Option, none, some, List, [], ◌∷◌, leb,
  if◌then◌else◌, length, replicate, Mem, memcpy,
}
use pcmm_policy_server.Base.Fault.{◌>>=◌}
use pcmm_policy_server.Base.Text.{Str, str, matches}
use pcmm_policy_server.Api.Json.{Yyjson}
use pcmm_policy_server.Conf.{
  Settings, Conf, Outcome, options, exited, undefined, run_unittest, conf_get_defaults, contains,
  conf_argparse_get, assert, set_option, then_read,
}

unfoldable pub or_undefined : {A : Type 0} → Option A → (A → Outcome) → Outcome
or_undefined none next = undefined
or_undefined (some a) next = next a

-- `a <= b` in `int`
unfoldable pub int_leb : ℕ → ℕ → Bool
int_leb a b = if leb (2 ^ 31) b then leb (2 ^ 31) a && leb a b else leb (2 ^ 31) a || leb a b

-- `memory` is what lies from the text of a value on, and `raw` the bytes of a value itself up to the
-- first zero, which the parser of the command line takes for a text.
module _ {Val : Type 0} (json : Yyjson Val) (memory : Option Val → Mem) (raw : Val → Str) where
  -- An address of the preflight list: `strlen(ip) * sizeof(char*)` bytes.
  unfoldable pub copy_address : Option Val → Option Mem
  copy_address value = do
    ip ← json.get_str value
    memcpy (memory value) (length ip * 8) (replicate (length ip * 8) 0)

  -- From element `i` on, with `left` elements to copy.
  unfoldable pub copy_addresses : ℕ → ℕ → Option Val → Option (List Mem)
  copy_addresses zero i value = some []
  copy_addresses (suc left) i value = do
    address ← copy_address (json.arr_get value i)
    addresses ← copy_addresses left (i + 1) value
    some (address ∷ addresses)

  -- `conf_argparse_opt` for a member of the file.
  unfoldable pub member_opt : Str → Val → Conf → Outcome
  member_opt arg value conf =
      set_option arg
        (if contains (str "=") (raw value)
          then conf_argparse_get (raw value)
          else json.get_int (some value))
        conf

  unfoldable pub read_member : Str → Val → Conf → Outcome
  read_member arg value conf =
      if matches arg (str "connect")
      then (let len = json.get_len (some value) in
          or_undefined (copy_addresses len 0 (some value)) λ addresses. options (record conf {
            opts = record (conf.opts) { preflight = addresses; pflen = len % 2 ^ 32 };
          }))
      else if matches arg (str "mode")
      then (or_undefined (json.get_str (some value)) λ mode. options (
          if contains (str "unittest") mode
          then record conf { opts = record (conf.opts) { mode = run_unittest } }
          else conf))
      else member_opt arg value conf

  -- The loop over the members of the root.
  unfoldable pub read_members : List (Str × Val) → Conf → Outcome
  read_members [] conf = options conf
  read_members ((arg, value) ∷ members) conf =
      let rest = λ (c : Conf). read_members members c in then_read (read_member arg value conf) rest

  unfoldable pub read_root : Settings → Option (List (Str × Val)) → Outcome
  read_root settings none = exited
  read_root settings (some members) =
      then_read (read_members members (record { settings = settings; opts = conf_get_defaults }))
        λ conf. assert (int_leb conf.opts.pflen conf.opts.max_pep) conf

  -- `file` gives the members of the root of the file at a path, if the file can be read.
  unfoldable pub conf_read_file : (Str → Option (List (Str × Val))) → Str → Settings → Outcome
  conf_read_file file path settings = read_root settings (file path)
