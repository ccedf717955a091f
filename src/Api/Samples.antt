-- ===== src/Api/Samples.antt =====
-- Requests and addresses for the tests of src/api/routes.c.
use pcmm_policy_server.Base.{
  ℕ, zero, suc, ◌^◌, ◌<◌, ◌≡◌, refl, true, false, Option, none, some, List, [], ◌∷◌, arith,
  if◌then◌else◌, u32, length, replicate,
}
use pcmm_policy_server.Base.Text.{Str, str, matches}
use pcmm_policy_server.Iputil.{Inet}
use pcmm_policy_server.Lcm.{Client}
use pcmm_policy_server.Pcmm.Envelope.{Floats}
use pcmm_policy_server.Session.{Gctl, Session}
use pcmm_policy_server.Api.Json.{Yyjson}
use pcmm_policy_server.Api.Gates.{line, no_file, World}

mutual
  pub data Json : Type 0 where
    text : Str → Json
    num : ℕ → Json
    arr : Items → Json
    obj : Fields → Json

  pub data Items : Type 0 where
    end : Items
    item : Json → Items → Items

  pub data Fields : Type 0 where
    no_field : Fields
    field : Str → Json → Fields → Fields

abbrev pub field_of : Fields → Str → Option Json
field_of no_field key = none
field_of (field name v rest) key = if matches name key then some v else field_of rest key

abbrev pub item_of : Items → ℕ → Option Json
item_of end i = none
item_of (item v rest) zero = some v
item_of (item v rest) (suc i) = item_of rest i

abbrev pub count : Items → ℕ
count end = 0
count (item v rest) = suc (count rest)

abbrev pub obj_get : Option Json → Str → Option Json
obj_get none key = none
obj_get (some (text s)) key = none
obj_get (some (num n)) key = none
obj_get (some (arr vs)) key = none
obj_get (some (obj fs)) key = field_of fs key

abbrev pub get_str : Option Json → Option Str
get_str none = none
get_str (some (text s)) = some s
get_str (some (num n)) = none
get_str (some (arr vs)) = none
get_str (some (obj fs)) = none

abbrev pub get_int : Option Json → ℕ
get_int none = 0
get_int (some (text s)) = 0
get_int (some (num n)) = u32 n
get_int (some (arr vs)) = 0
get_int (some (obj fs)) = 0

abbrev pub get_len : Option Json → ℕ
get_len none = 0
get_len (some (text s)) = length s
get_len (some (num n)) = 0
get_len (some (arr vs)) = count vs
get_len (some (obj fs)) = 0

abbrev pub arr_get : Option Json → ℕ → Option Json
arr_get none i = none
arr_get (some (text s)) i = none
arr_get (some (num n)) i = none
arr_get (some (arr vs)) i = item_of vs i
arr_get (some (obj fs)) i = none

pub get_int_fits : (v : Option Json) → get_int v < 2 ^ 32
get_int_fits none = omega arith
get_int_fits (some (text s)) = omega arith
get_int_fits (some (num n)) = omega arith
get_int_fits (some (arr vs)) = omega arith
get_int_fits (some (obj fs)) = omega arith

abbrev pub json : Yyjson Json
json = record {
  obj_get = obj_get;
  get_str = get_str;
  get_int = get_int;
  get_len = get_len;
  arr_get = arr_get;
  obj_get_null = λ key. refl;
  get_str_null = refl;
  get_int_null = refl;
  get_len_null = refl;
  get_int_fits = get_int_fits;
}

abbrev pub inet4 : Str → Option ℕ
inet4 s =
    if matches s (str "10.0.0.2")
    then some 167772162
    else if matches s (str "10.0.0.1")
    then some 167772161
    else none

pub inet4_fits : (s : Str) (a : ℕ) → inet4 s ≡ some a → a < 2 ^ 32
inet4_fits s a e = ground arith

abbrev pub inet : Inet
inet = record { pton4 = inet4; pton6 = λ s. false; pton4_fits = inet4_fits }

-- One bit pattern for every number, which is enough for the layout.
abbrev pub floats : Floats
floats = record { image = λ n. 0 ∷ 64 ∷ 28 ∷ 70 ∷ []; four_bytes = λ n. refl }

abbrev pub garbage : Gctl
garbage = record {
  subscriber_id = none;
  cmts_ip = none;
  gate = record {
    dscp_tos_field = 0;
    dscp_tos_ovwr = 0;
    dscp_tos_mask = 0;
    preemption = 0;
    priority = 0;
    timer1 = 0;
    timer2 = 0;
    timer3 = 0;
    timer4 = 0;
    direction = none;
  };
  application_id = 0;
  gate_id = 0;
  dry_run = 0;
  envelope_size = 0;
  classifier_size = 0;
  failed = false;
  failop = 0;
}

abbrev pub spec : Json
spec = obj (field (str "direction") (text (str "upstream")) (field (str "t1") (num 200) no_field))

abbrev pub legacy : Json
legacy = obj (
    field (str "srcIp") (text (str "10.0.0.1")) (
      field (str "dstIp") (text (str "10.0.0.2"))
        (field (str "protocol") (num 17) (field (str "dstPort-start") (num 5060) no_field))))

abbrev pub classifiers : Json
classifiers = arr (item (obj (field (str "classifier") legacy no_field)) end)

abbrev pub gate : Json
gate = obj (
    field (str "gate-spec") spec (
      field (str "traffic-profile")
        (obj (field (str "service-class-name") (text (str "extrm_up")) no_field))
        (field (str "classifiers") classifiers no_field)))

-- A GATE-SET, which is a valid GATE-INFO too.
abbrev pub request : Json
request = obj (
    field (str "cmts_ip") (text (str "10.0.0.1")) (
      field (str "subscriberId") (text (str "10.0.0.2"))
        (field (str "gateId") (num 7) (field (str "gate") gate no_field))))

abbrev pub root : Json
root = obj (field (str "input") request no_field)

abbrev pub envelope : List ℕ
envelope =
    0 ∷ 20 ∷ 7 ∷ 2 ∷ 7 ∷ 0 ∷ 0 ∷ 0 ∷ 101 ∷ 120 ∷ 116 ∷ 114 ∷ 109 ∷ 95 ∷ 117 ∷ 112 ∷ replicate 76 0

abbrev pub only_session : Client
only_session = record { pointer = 4096; cmts_addr = some (str "10.0.0.1") }

abbrev pub session : Session
session = record {
  cmts_addr = str "10.0.0.1";
  connection = 1;
  cmts_port = 3918;
  ka_timer = 60;
  ac_timer = 0;
  sock = 5;
  handle = 1 ∷ 2 ∷ 3 ∷ 4 ∷ 0 ∷ 0 ∷ 0 ∷ 0 ∷ [];
  uuid_received = true;
  die = false;
}

-- A response of more than 100 bytes, which is found at the third turn.
abbrev pub response : Str
response = replicate 120 65

abbrev pub world : World
world = record {
  evnt_lock = λ c. 0;
  internal_lock = 0;
  session = λ c. session;
  random = 70000;
  polls = no_file ∷ no_file ∷ line response ∷ [];
  metrics = replicate 70 48;
}
