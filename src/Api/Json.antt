-- ===== src/Api/Json.antt =====
-- The fields of a request, as src/api/routes.c reads them with yyjson.
use pcmm_policy_server.Base.{ℕ, ◌^◌, ◌<◌, ◌≡◌, Bool, true, false, Option, none, some}
use pcmm_policy_server.Base.Text.{Str, str}

-- The lookups of yyjson, on values that may be null. An `int` is its 32-bit pattern.
pub record Yyjson (Val : Type 0) : Type 0 where
  pub obj_get : Option Val → Str → Option Val
  pub get_str : Option Val → Option Str
  pub get_int : Option Val → ℕ
  pub get_len : Option Val → ℕ
  pub arr_get : Option Val → ℕ → Option Val
  pub obj_get_null : (key : Str) → obj_get none key ≡ none
  pub get_str_null : get_str none ≡ none
  pub get_int_null : get_int none ≡ 0
  pub get_len_null : get_len none ≡ 0
  pub get_int_fits : (v : Option Val) → get_int v < 2 ^ 32

abbrev pub gctl_isnil : {Val : Type 0} → Option Val → Bool
gctl_isnil none = true
gctl_isnil (some v) = false

module _ {Val : Type 0} (json : Yyjson Val) where
  -- Object to string.
  abbrev pub gctl_otos : Option Val → Str → Option Str
  gctl_otos object field = json.get_str (json.obj_get object field)

  -- Object to int.
  abbrev pub gctl_otoi : Option Val → Str → ℕ
  gctl_otoi object field = json.get_int (json.obj_get object field)

  -- From the root of the document to the input.
  abbrev pub gctl_ytoi : Option Val → Option Val
  gctl_ytoi root = json.obj_get root (str "input")
