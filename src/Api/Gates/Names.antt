-- ===== src/Api/Gates/Names.antt =====
-- How long the names of src/pcl/pcmm.c are.
use Prim.Native.String.{String}
use pcmm_policy_server.Base.{
  ℕ, ◌≡◌, refl, Bool, true, false, ◌&&◌, List, [], ◌∷◌, ◌==◌, leb, if◌then◌else◌, length, arith,
}
use pcmm_policy_server.Base.Text.{str}
use pcmm_policy_server.Pcmm.Names.{pcmm_otoact, pcmm_otoerr}
use pcmm_policy_server.Api.Responses.{is_text, is_text_lem}
use pcmm_policy_server.Api.Gates.Sized.{Sized}

-- A name of 3 to `high` bytes.
abbrev is_name : ℕ → String → Bool
is_name high name =
    is_text (str name) && (leb 3 (length (str name)) && leb (length (str name)) high)

is_name_lem : (high : ℕ) (name : String) → is_name high name ≡ true → Sized 3 high (str name)
is_name_lem high name h = record {
  text = is_text_lem (str name) (ground arith);
  above = ground arith;
  below = ground arith;
}

-- The name of the first row with a code, and "NIL" without one.
abbrev pick : List (ℕ × String) → ℕ → String
pick [] code = "NIL"
pick ((n, name) ∷ rows) code = if code == n then name else pick rows code

abbrev all_names : ℕ → List (ℕ × String) → Bool
all_names high [] = is_name high "NIL"
all_names high ((n, name) ∷ rows) = is_name high name && all_names high rows

pick-Sized :
    (high : ℕ) (rows : List (ℕ × String)) (code : ℕ)
    → all_names high rows ≡ true
    → Sized 3 high (str (pick rows code))
pick-Sized high [] code h = is_name_lem high "NIL" h
pick-Sized high ((n, name) ∷ rows) code h =
    choose (code == n) (is_name_lem high name (ground arith))
      (pick-Sized high rows code (ground arith))
  where
    choose :
        (test : Bool)
        → Sized 3 high (str name)
        → Sized 3 high (str (pick rows code))
        → Sized 3 high (str (if test then name else pick rows code))
    choose true here rest = here
    choose false here rest = rest

abbrev commands : List (ℕ × String)
commands =
    (1, "GATE-ALLOC")
    ∷ (2, "GATE-ALLOC-ACK")
    ∷ (3, "GATE-ALLOC-ERR")
    ∷ (4, "GATE-SET")
    ∷ (5, "GATE-SET-ACK")
    ∷ (6, "GATE-SET-ERR")
    ∷ (7, "GATE-INFO")
    ∷ (8, "GATE-INFO-ACK")
    ∷ (9, "GATE-INFO-ERR")
    ∷ (10, "GATE-DELETE")
    ∷ (11, "GATE-DELETE-ACK")
    ∷ (12, "GATE-DELETE-ERR")
    ∷ (13, "GATE-OPEN")
    ∷ (14, "GATE-CLOSE")
    ∷ []

abbrev errors : List (ℕ × String)
errors =
    (1, "Insufficient resources")
    ∷ (2, "Unknown Gate ID")
    ∷ (3, "Unknown")
    ∷ (4, "Unknown")
    ∷ (5, "Unknown")
    ∷ (6, "Missing Required Object")
    ∷ (7, "Invalid Object")
    ∷ (8, "Volume based usage limit exceeded")
    ∷ (9, "Time based usage limit exceeded")
    ∷ (10, "Session Class Limit Exceeded")
    ∷ (11, "Undefined Service Class Name")
    ∷ (12, "Incompatible Envelope")
    ∷ (13, "Invalid subscriber identifier")
    ∷ (14, "Unauthorized AMID")
    ∷ (15, "Number of Classifiers not supported")
    ∷ (16, "Policy Exception")
    ∷ (17, "Invalid field value in object")
    ∷ (18, "Transport Error")
    ∷ (19, "Unknown gate command")
    ∷ (20, "DOCSIS 1.0 CM")
    ∷ (21, "Number of SIDs exceeded in CM")
    ∷ (22, "Number of SIDs exceeded in CMTS")
    ∷ (23, "Unauthorized PSID")
    ∷ (24, "No state for PDPD")
    ∷ (25, "Unsupport Sync Type")
    ∷ (26, "State data incomplete")
    ∷ (127, "Other, Unspecified Error")
    ∷ []

pub pcmm_otoact-Sized : (code : ℕ) → Sized 3 15 (str (pcmm_otoact code))
unfolding pcmm_otoact is_text
pcmm_otoact-Sized code = pick-Sized 15 commands code refl

pub pcmm_otoerr-Sized : (code : ℕ) → Sized 3 35 (str (pcmm_otoerr code))
unfolding pcmm_otoerr is_text
pcmm_otoerr-Sized code = pick-Sized 35 errors code refl
