-- ===== src/Pcmm/Names.antt =====
-- The name tables of src/pcl/pcmm.c and its tests on object numbers.
use Prim.Native.String.{String}
use pcmm_policy_server.Base.{ℕ, Bool, ◌&&◌, ◌==◌, if◌then◌else◌}

unfoldable pub pcmm_is_gateid : ℕ → ℕ → Bool
pcmm_is_gateid major minor = major == 4 && minor == 1

unfoldable pub pcmm_is_gatespec : ℕ → ℕ → Bool
pcmm_is_gatespec major minor = major == 5 && minor == 1

unfoldable pub pcmm_is_classifier : ℕ → Bool
pcmm_is_classifier major = major == 6

-- Gate commands.
unfoldable pub pcmm_otoact : ℕ → String
pcmm_otoact code =
    if code == 1
    then "GATE-ALLOC"
    else if code == 2
    then "GATE-ALLOC-ACK"
    else if code == 3
    then "GATE-ALLOC-ERR"
    else if code == 4
    then "GATE-SET"
    else if code == 5
    then "GATE-SET-ACK"
    else if code == 6
    then "GATE-SET-ERR"
    else if code == 7
    then "GATE-INFO"
    else if code == 8
    then "GATE-INFO-ACK"
    else if code == 9
    then "GATE-INFO-ERR"
    else if code == 10
    then "GATE-DELETE"
    else if code == 11
    then "GATE-DELETE-ACK"
    else if code == 12
    then "GATE-DELETE-ERR"
    else if code == 13
    then "GATE-OPEN"
    else if code == 14
    then "GATE-CLOSE"
    else "NIL"

-- PacketCable errors.
unfoldable pub pcmm_otoerr : ℕ → String
pcmm_otoerr opcode =
    if opcode == 1
    then "Insufficient resources"
    else if opcode == 2
    then "Unknown Gate ID"
    else if opcode == 3
    then "Unknown"
    else if opcode == 4
    then "Unknown"
    else if opcode == 5
    then "Unknown"
    else if opcode == 6
    then "Missing Required Object"
    else if opcode == 7
    then "Invalid Object"
    else if opcode == 8
    then "Volume based usage limit exceeded"
    else if opcode == 9
    then "Time based usage limit exceeded"
    else if opcode == 10
    then "Session Class Limit Exceeded"
    else if opcode == 11
    then "Undefined Service Class Name"
    else if opcode == 12
    then "Incompatible Envelope"
    else if opcode == 13
    then "Invalid subscriber identifier"
    else if opcode == 14
    then "Unauthorized AMID"
    else if opcode == 15
    then "Number of Classifiers not supported"
    else if opcode == 16
    then "Policy Exception"
    else if opcode == 17
    then "Invalid field value in object"
    else if opcode == 18
    then "Transport Error"
    else if opcode == 19
    then "Unknown gate command"
    else if opcode == 20
    then "DOCSIS 1.0 CM"
    else if opcode == 21
    then "Number of SIDs exceeded in CM"
    else if opcode == 22
    then "Number of SIDs exceeded in CMTS"
    else if opcode == 23
    then "Unauthorized PSID"
    else if opcode == 24
    then "No state for PDPD"
    else if opcode == 25
    then "Unsupport Sync Type"
    else if opcode == 26
    then "State data incomplete"
    else if opcode == 127
    then "Other, Unspecified Error"
    else "NIL"

-- Gate states.
unfoldable pub pcmm_gatestate_rpt_state : ℕ → String
pcmm_gatestate_rpt_state value =
    if value == 1
    then "Idle/Closed"
    else if value == 2
    then "Authorized"
    else if value == 3
    then "Reserved"
    else if value == 4
    then "Committed"
    else if value == 5
    then "Committed Recovery"
    else "NIL"

-- Why a gate changed its state.
unfoldable pub pcmm_gatestate_rpt_reason : ℕ → String
pcmm_gatestate_rpt_reason value =
    if value == 1
    then "Close Initiated by CMTS because of reservation reassignment"
    else if value == 2
    then "Close Initiated by CMTS because of lack of DOCSIS responses"
    else if value == 3
    then "Close Initiated by CMTS because of timer T1 expiry"
    else if value == 4
    then "Close Initiated by CMTS because of timer T2 expiry"
    else if value == 5
    then "Inactivity timer (T3) expired"
    else if value == 6
    then "Close Initiated by CMTS because of lack of reservation maintenance"
    else if value == 7
    then "Gate state unchanged, but volume limit reached"
    else if value == 8
    then "Close Initiated by CMTS because of timer T4 expiry"
    else if value == 9
    then "Gate State unchanged, but T2 expiry caused reservation reduction"
    else if value == 10
    then "Gate State unchanged, but time limit reached"
    else if value == 11
    then "Close Initiated by PS or CMTS, volume limit reached"
    else if value == 12
    then "Close Initiated by PS or CMTS, time limit reached"
    else if value == 13
    then "Close Initiated by CMTS, other"
    else if value == 14
    then "Gate state unchanged, but SharedResourceID updated"
    else if value == 15
    then "Close initiated by CMTS due to loss of shared resource"
    else if value == 16
    then "Persistent Gate idle due to cable modem going offline"
    else if value == 17
    then "Persistent Gate recreated by CMTS due to cm coming online"
    else if value == 18
    then "Persistent Gate deleted from CMTS gate database"
    else if value == 65535
    then "Other"
    else "NIL"

-- The names of the objects with S-Num 6 and 7, by S-Type.
classifier_name : ℕ → String
classifier_name minor =
    if minor == 1
    then "Classifier"
    else if minor == 2
    then "Extended Classifier"
    else if minor == 3
    then "IPv6 Classifier"
    else "NIL"

profile_name : ℕ → String
profile_name minor =
    if minor == 1
    then "Subscriber Identifier"
    else if minor == 2
    then "Flow Spec"
    else if minor == 3
    then "DOCSIS Service Class Name"
    else if minor == 4
    then "Best Effort Service"
    else if minor == 5
    then "Non-Real-Time Polling Service"
    else if minor == 6
    then "Real-Time Polling Service"
    else if minor == 7
    then "Unsolicited Grant Service"
    else if minor == 8
    then "Unsolicited Grant Service with Activity Detection"
    else if minor == 9
    then "Downstream"
    else "NIL"

-- The arguments are the numbers that the pointers stand for, cast to `int`.
unfoldable pub pcmm_mmtoid : ℕ → ℕ → String
unfolding classifier_name profile_name
pcmm_mmtoid major minor =
    if major == 1
    then "Transaction Identifier"
    else if major == 2
    then "Application Manager Identifier"
    else if major == 3
    then "Subscriber Identifier"
    else if major == 4
    then "Gate Identifier"
    else if major == 5
    then "Gate Specification"
    else if major == 9
    then "Volume Based Usage Limit"
    else if major == 10
    then "Time Based Usage Limit"
    else if major == 11
    then "Opaque Data"
    else if major == 12
    then "Gate Time Info"
    else if major == 13
    then "Gate Usage Info"
    else if major == 14
    then "Packet Cable Error"
    else if major == 15
    then "Gate State"
    else if major == 16
    then "Version Info"
    else if major == 17
    then "Policy Server Identifier"
    else if major == 18
    then "Synch Options"
    else if major == 19
    then "Msg Receipt Keys"
    else if major == 8
    then (if minor == 1 then "Event-Generation-Info" else "NIL")
    else if major == 6
    then classifier_name minor
    else if major == 7
    then profile_name minor
    else "NIL"
