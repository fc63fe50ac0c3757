-- ===== src/Interpreter/Table.antt =====
-- The table that Session::Session registers (Sources/GDBRemote/Session.cpp).
use ds.Base.{ℕ, Bool, true, ◌&&◌, some, List, [], ◌∷◌, Bytes, codes}
use ds.Interpreter.{equals, starts_with, Handler, register_handler}

abbrev pub equal_to : ℕ → Bytes → Handler
equal_to id name = record { mode = equals; command = name; callback = some id }

-- REGISTER_HANDLER_EQUALS and REGISTER_HANDLER_STARTS_WITH
abbrev pub starting_with : ℕ → Bytes → Handler
starting_with id name = record { mode = starts_with; command = name; callback = some id }

-- In the order of the constructor; a callback is numbered by its place.
unfoldable pub session_handlers : List Handler
session_handlers =
    equal_to 0 (3 ∷ [])
    ∷ equal_to 1 (codes "?")
    ∷ equal_to 2 (codes "!")
    ∷ equal_to 3 (codes "A")
    ∷ equal_to 4 (codes "B")
    ∷ equal_to 5 (codes "b")
    ∷ equal_to 6 (codes "bc")
    ∷ equal_to 7 (codes "bs")
    ∷ equal_to 8 (codes "C")
    ∷ equal_to 9 (codes "c")
    ∷ equal_to 10 (codes "D")
    ∷ equal_to 11 (codes "d")
    ∷ equal_to 12 (codes "G")
    ∷ equal_to 13 (codes "g")
    ∷ equal_to 14 (codes "H")
    ∷ equal_to 15 (codes "I")
    ∷ equal_to 16 (codes "i")
    ∷ equal_to 17 (codes "jThreadsInfo")
    ∷ equal_to 18 (codes "k")
    ∷ equal_to 19 (codes "_M")
    ∷ equal_to 20 (codes "_m")
    ∷ equal_to 21 (codes "M")
    ∷ equal_to 22 (codes "m")
    ∷ equal_to 23 (codes "P")
    ∷ equal_to 24 (codes "p")
    ∷ equal_to 25 (codes "QAgent")
    ∷ equal_to 26 (codes "QAllow")
    ∷ equal_to 27 (codes "QDisableRandomization")
    ∷ equal_to 28 (codes "QEnvironment")
    ∷ equal_to 29 (codes "QEnvironmentHexEncoded")
    ∷ equal_to 30 (codes "QLaunchArch")
    ∷ equal_to 31 (codes "QListThreadsInStopReply")
    ∷ equal_to 32 (codes "QNonStop")
    ∷ equal_to 33 (codes "QPassSignals")
    ∷ equal_to 34 (codes "QProgramSignals")
    ∷ equal_to 35 (codes "QRestoreRegisterState")
    ∷ equal_to 36 (codes "QSaveRegisterState")
    ∷ equal_to 37 (codes "QSetDisableASLR")
    ∷ equal_to 38 (codes "QSetEnableAsyncProfiling")
    ∷ equal_to 39 (codes "QSetLogging")
    ∷ equal_to 40 (codes "QSetMaxPacketSize")
    ∷ equal_to 41 (codes "QSetMaxPayloadSize")
    ∷ equal_to 42 (codes "QSetSTDERR")
    ∷ equal_to 43 (codes "QSetSTDIN")
    ∷ equal_to 44 (codes "QSetSTDOUT")
    ∷ equal_to 45 (codes "QSetWorkingDir")
    ∷ equal_to 46 (codes "QStartNoAckMode")
    ∷ equal_to 47 (codes "QSyncThreadState")
    ∷ equal_to 48 (codes "QThreadSuffixSupported")
    ∷ equal_to 49 (codes "Qbtrace")
    ∷ equal_to 50 (codes "qAttached")
    ∷ equal_to 51 (codes "qC")
    ∷ equal_to 52 (codes "qCRC")
    ∷ equal_to 53 (codes "qEcho")
    ∷ equal_to 54 (codes "qFileLoadAddress")
    ∷ equal_to 55 (codes "qGDBServerVersion")
    ∷ equal_to 56 (codes "qGetPid")
    ∷ equal_to 57 (codes "qGetProfileData")
    ∷ equal_to 58 (codes "qGetTIBAddr")
    ∷ equal_to 59 (codes "qGetTLSAddr")
    ∷ equal_to 60 (codes "qGetWorkingDir")
    ∷ equal_to 61 (codes "qGroupName")
    ∷ equal_to 62 (codes "qHostInfo")
    ∷ equal_to 63 (codes "qKillSpawnedProcess")
    ∷ equal_to 64 (codes "qL")
    ∷ equal_to 65 (codes "qLaunchGDBServer")
    ∷ equal_to 66 (codes "qLaunchSuccess")
    ∷ equal_to 67 (codes "qMemoryRegionInfo")
    ∷ equal_to 68 (codes "qModuleInfo")
    ∷ equal_to 69 (codes "qOffsets")
    ∷ equal_to 70 (codes "qP")
    ∷ equal_to 71 (codes "qPlatform_chmod")
    ∷ equal_to 72 (codes "qPlatform_mkdir")
    ∷ equal_to 73 (codes "qPlatform_shell")
    ∷ equal_to 74 (codes "qProcessInfo")
    ∷ equal_to 75 (codes "qProcessInfoPID")
    ∷ equal_to 76 (codes "qRcmd")
    ∷ starting_with 77 (codes "qRegisterInfo")
    ∷ equal_to 78 (codes "qSearch")
    ∷ equal_to 79 (codes "qShlibInfoAddr")
    ∷ equal_to 80 (codes "qSpeedTest")
    ∷ equal_to 81 (codes "qStepPacketSupported")
    ∷ equal_to 82 (codes "qSupported")
    ∷ equal_to 83 (codes "qSupportsDetachAndStayStopped")
    ∷ equal_to 84 (codes "qSymbol")
    ∷ starting_with 85 (codes "qThreadStopInfo")
    ∷ equal_to 86 (codes "qThreadExtraInfo")
    ∷ equal_to 87 (codes "qTStatus")
    ∷ equal_to 88 (codes "qUserName")
    ∷ equal_to 89 (codes "qVAttachOrWaitSupported")
    ∷ equal_to 90 (codes "qWatchpointSupportInfo")
    ∷ equal_to 91 (codes "qXfer")
    ∷ equal_to 92 (codes "qfProcessInfo")
    ∷ equal_to 93 (codes "qsProcessInfo")
    ∷ equal_to 94 (codes "qfThreadInfo")
    ∷ equal_to 95 (codes "qsThreadInfo")
    ∷ equal_to 96 (codes "R")
    ∷ equal_to 97 (codes "r")
    ∷ equal_to 98 (codes "S")
    ∷ equal_to 99 (codes "s")
    ∷ equal_to 100 (codes "T")
    ∷ equal_to 101 (codes "t")
    ∷ equal_to 102 (codes "vAttach")
    ∷ equal_to 103 (codes "vAttachName")
    ∷ equal_to 104 (codes "vAttachWait")
    ∷ equal_to 105 (codes "vAttachOrWait")
    ∷ equal_to 106 (codes "vCont?")
    ∷ equal_to 107 (codes "vCont")
    ∷ equal_to 108 (codes "vFile")
    ∷ equal_to 109 (codes "vFlashDone")
    ∷ equal_to 110 (codes "vFlashErase")
    ∷ equal_to 111 (codes "vFlashWrite")
    ∷ equal_to 112 (codes "vKill")
    ∷ equal_to 113 (codes "vRun")
    ∷ equal_to 114 (codes "vStopped")
    ∷ equal_to 115 (codes "X")
    ∷ equal_to 116 (codes "x")
    ∷ equal_to 117 (codes "Z")
    ∷ equal_to 118 (codes "z")
    ∷ []

-- The calls of registerHandler, and whether all of them succeed, which the constructor asserts.
unfoldable pub register_all : List Handler → List Handler → List Handler × Bool
register_all table [] = (table, true)
register_all table (h ∷ hs) =
    let (taken, done) = register_handler table h in
    let (table', rest) = register_all taken hs in (table', done && rest)

unfoldable pub session_table : List Handler
session_table = (register_all [] session_handlers).0

-- The same handlers, sorted by their commands.
unfoldable pub sorted_handlers : List Handler
sorted_handlers =
    equal_to 0 (3 ∷ [])
    ∷ equal_to 2 (codes "!")
    ∷ equal_to 1 (codes "?")
    ∷ equal_to 3 (codes "A")
    ∷ equal_to 4 (codes "B")
    ∷ equal_to 8 (codes "C")
    ∷ equal_to 10 (codes "D")
    ∷ equal_to 12 (codes "G")
    ∷ equal_to 14 (codes "H")
    ∷ equal_to 15 (codes "I")
    ∷ equal_to 21 (codes "M")
    ∷ equal_to 23 (codes "P")
    ∷ equal_to 25 (codes "QAgent")
    ∷ equal_to 26 (codes "QAllow")
    ∷ equal_to 27 (codes "QDisableRandomization")
    ∷ equal_to 28 (codes "QEnvironment")
    ∷ equal_to 29 (codes "QEnvironmentHexEncoded")
    ∷ equal_to 30 (codes "QLaunchArch")
    ∷ equal_to 31 (codes "QListThreadsInStopReply")
    ∷ equal_to 32 (codes "QNonStop")
    ∷ equal_to 33 (codes "QPassSignals")
    ∷ equal_to 34 (codes "QProgramSignals")
    ∷ equal_to 35 (codes "QRestoreRegisterState")
    ∷ equal_to 36 (codes "QSaveRegisterState")
    ∷ equal_to 37 (codes "QSetDisableASLR")
    ∷ equal_to 38 (codes "QSetEnableAsyncProfiling")
    ∷ equal_to 39 (codes "QSetLogging")
    ∷ equal_to 40 (codes "QSetMaxPacketSize")
    ∷ equal_to 41 (codes "QSetMaxPayloadSize")
    ∷ equal_to 42 (codes "QSetSTDERR")
    ∷ equal_to 43 (codes "QSetSTDIN")
    ∷ equal_to 44 (codes "QSetSTDOUT")
    ∷ equal_to 45 (codes "QSetWorkingDir")
    ∷ equal_to 46 (codes "QStartNoAckMode")
    ∷ equal_to 47 (codes "QSyncThreadState")
    ∷ equal_to 48 (codes "QThreadSuffixSupported")
    ∷ equal_to 49 (codes "Qbtrace")
    ∷ equal_to 96 (codes "R")
    ∷ equal_to 98 (codes "S")
    ∷ equal_to 100 (codes "T")
    ∷ equal_to 115 (codes "X")
    ∷ equal_to 117 (codes "Z")
    ∷ equal_to 19 (codes "_M")
    ∷ equal_to 20 (codes "_m")
    ∷ equal_to 5 (codes "b")
    ∷ equal_to 6 (codes "bc")
    ∷ equal_to 7 (codes "bs")
    ∷ equal_to 9 (codes "c")
    ∷ equal_to 11 (codes "d")
    ∷ equal_to 13 (codes "g")
    ∷ equal_to 16 (codes "i")
    ∷ equal_to 17 (codes "jThreadsInfo")
    ∷ equal_to 18 (codes "k")
    ∷ equal_to 22 (codes "m")
    ∷ equal_to 24 (codes "p")
    ∷ equal_to 50 (codes "qAttached")
    ∷ equal_to 51 (codes "qC")
    ∷ equal_to 52 (codes "qCRC")
    ∷ equal_to 53 (codes "qEcho")
    ∷ equal_to 54 (codes "qFileLoadAddress")
    ∷ equal_to 55 (codes "qGDBServerVersion")
    ∷ equal_to 56 (codes "qGetPid")
    ∷ equal_to 57 (codes "qGetProfileData")
    ∷ equal_to 58 (codes "qGetTIBAddr")
    ∷ equal_to 59 (codes "qGetTLSAddr")
    ∷ equal_to 60 (codes "qGetWorkingDir")
    ∷ equal_to 61 (codes "qGroupName")
    ∷ equal_to 62 (codes "qHostInfo")
    ∷ equal_to 63 (codes "qKillSpawnedProcess")
    ∷ equal_to 64 (codes "qL")
    ∷ equal_to 65 (codes "qLaunchGDBServer")
    ∷ equal_to 66 (codes "qLaunchSuccess")
    ∷ equal_to 67 (codes "qMemoryRegionInfo")
    ∷ equal_to 68 (codes "qModuleInfo")
    ∷ equal_to 69 (codes "qOffsets")
    ∷ equal_to 70 (codes "qP")
    ∷ equal_to 71 (codes "qPlatform_chmod")
    ∷ equal_to 72 (codes "qPlatform_mkdir")
    ∷ equal_to 73 (codes "qPlatform_shell")
    ∷ equal_to 74 (codes "qProcessInfo")
    ∷ equal_to 75 (codes "qProcessInfoPID")
    ∷ equal_to 76 (codes "qRcmd")
    ∷ starting_with 77 (codes "qRegisterInfo")
    ∷ equal_to 78 (codes "qSearch")
    ∷ equal_to 79 (codes "qShlibInfoAddr")
    ∷ equal_to 80 (codes "qSpeedTest")
    ∷ equal_to 81 (codes "qStepPacketSupported")
    ∷ equal_to 82 (codes "qSupported")
    ∷ equal_to 83 (codes "qSupportsDetachAndStayStopped")
    ∷ equal_to 84 (codes "qSymbol")
    ∷ equal_to 87 (codes "qTStatus")
    ∷ equal_to 86 (codes "qThreadExtraInfo")
    ∷ starting_with 85 (codes "qThreadStopInfo")
    ∷ equal_to 88 (codes "qUserName")
    ∷ equal_to 89 (codes "qVAttachOrWaitSupported")
    ∷ equal_to 90 (codes "qWatchpointSupportInfo")
    ∷ equal_to 91 (codes "qXfer")
    ∷ equal_to 92 (codes "qfProcessInfo")
    ∷ equal_to 94 (codes "qfThreadInfo")
    ∷ equal_to 93 (codes "qsProcessInfo")
    ∷ equal_to 95 (codes "qsThreadInfo")
    ∷ equal_to 97 (codes "r")
    ∷ equal_to 99 (codes "s")
    ∷ equal_to 101 (codes "t")
    ∷ equal_to 102 (codes "vAttach")
    ∷ equal_to 103 (codes "vAttachName")
    ∷ equal_to 105 (codes "vAttachOrWait")
    ∷ equal_to 104 (codes "vAttachWait")
    ∷ equal_to 107 (codes "vCont")
    ∷ equal_to 106 (codes "vCont?")
    ∷ equal_to 108 (codes "vFile")
    ∷ equal_to 109 (codes "vFlashDone")
    ∷ equal_to 110 (codes "vFlashErase")
    ∷ equal_to 111 (codes "vFlashWrite")
    ∷ equal_to 112 (codes "vKill")
    ∷ equal_to 113 (codes "vRun")
    ∷ equal_to 114 (codes "vStopped")
    ∷ equal_to 116 (codes "x")
    ∷ equal_to 118 (codes "z")
    ∷ []
