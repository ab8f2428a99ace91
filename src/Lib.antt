-- ===== src/Lib.antt =====
-- The client of an SFU conference on Ant Media Server: a manager that keeps WebRTC peer connections,
-- a signaling link to the server, the messages on this link, the GStreamer pipelines that give and
-- play the media, and a console that sends chat messages.
--
-- Parts and files. The folder of the repository is the root of all paths.
--   * Base: texts, maps as association lists, numbers as text, and methods that change an object, call
--     libraries and may throw (Base/Exec), with rules for what they keep (Base/Exec/Keeps) and what
--     they ensure (Base/Exec/Ensures).
--   * Platform: what the program calls and does not implement. JsonLib is nlohmann::json with
--     sdptransform::parse, Call is a call of libdatachannel or GStreamer, Rtc is what these libraries
--     answer and when they throw. All of it is a parameter. A library object is the number of calls
--     made before it was created, so that no two objects have one number.
--   * Command: AMS_SFU_ConferenceSignalingCommand.cpp. Outgoing has the messages and the methods that
--     send them, Incoming has handleMessage. The callback that handleMessage ends in is a value.
--   * Signaling: AMS_SFU_ConferenceSignaling.cpp. Dispatch goes from the text of a message to the event
--     for the manager, Link has Connect, Disconnect and the proxies.
--   * Gst: GstManager.cpp. Pipelines has startVideo and startAudio with the texts of the pipelines,
--     Player has the audio player and the destructor, Samples has the callbacks of the appsinks;
--     Frames, Release and Partial hold proofs.
--   * Manager: WebRTCManager.cpp. State has the members, Peers the peer connections, tracks and data
--     channels, Sdp the descriptions and candidates, Chat the data channel messages, Events the
--     lambdas of initWebRTCStateMachine together with the socket's callbacks, Lifecycle start, stop
--     and cleanup. Steps is the step relation of a run: requests of the application and callbacks of
--     the libraries, in any order. The other files of Manager hold proofs.
--   * Protocol: what two clients understand of each other, under the documented behaviour of the JSON
--     library (Protocol/Json).
--   * Console: main.cpp. Input has what startConsoleInputThread does with its buffer, Lines the proofs.
--   * Api: WebRTC_API.cpp, and the part of main.cpp up to the start of the console thread. Settings
--     has calls in a row of the functions that set a value.
--   * Log: Log.cpp and include/Log.h. System has the calls of the operating system and of the C
--     library, and their answers as a parameter; Backup has BackupLogFile with its info file,
--     Publish what appends a line, Old what compresses old logs, Expired what removes them, Scan and
--     Bytes what the code reads and writes of C strings. Names, Replay and Rotation hold the proofs
--     on the backups, Returns those on what always returns and on the lock, Rounds those on the loop
--     of dbg_log, Oldest those on RemoveTheOldestLog. Signal has nativeSignalHandler of main.cpp.
--   * Process: main.cpp as a whole. Threads has main and the console thread, which take turns at each
--     access to what they share; Steps is the step relation of the process, with signals and
--     callbacks between any two turns. Begins, Order, Ends, Exit and Returns hold the proofs on the
--     start, on the order of join and stop, and on the end of the process, Reads those on one read
--     of the console.
--   * Tests: the libraries at concrete functions, and the theorems at concrete inputs.
--
-- State and failures. A method of the source is a function from the object and the calls made so
-- far, newest first, to its result or an exception, the object and the calls. An exception keeps
-- what was changed before it. A part that is owned through a pointer is an Option inside its owner.
-- A step is one request or one callback, run to its end; in Process it is a turn of one thread, up
-- to its next access to what is shared. gDebugLock of Log.cpp is a member that says whether it is
-- held; the two mutexes of the manager, and those that libdatachannel holds while a callback runs,
-- are not modelled. Callbacks of the libraries come only while the manager is communicating, since
-- cleanup closes every connection and the socket, and a closed one calls nothing. An unordered_map
-- is walked in the order of the association list; a key has one entry, since insert replaces.
--
-- Fuel. The loop over the console buffer takes the length of the buffer and one, since every round
-- takes at least one byte; Console/Lines shows that this is enough. A number is written with at
-- most as many digits as its value and one. The loop of dbg_log takes the number of its rounds,
-- since it need not end: Log/Rounds/Leaves shows when three are enough. No other loop needs a
-- bound.
--
-- Not modelled: the libraries themselves; what the other parts write to the log; what happens when
-- two methods or callbacks of the manager run at the same time, and where such threads wait for
-- each other's mutexes; the text of the time overlay; numbers outside the range of int, for which
-- the increments of the candidate label and of the numbers of log files are undefined. In Log, the
-- count of backups and the numbers in a name are taken to be in the range of int; what a folder
-- holds is read at the time of opendir; DBG_signal_safe and dbg_log do not take the lock, as in the
-- source.
pub mod Base
pub mod Platform
pub mod Command
pub mod Signaling
pub mod Gst
pub mod Manager
pub mod Protocol
pub mod Console
pub mod Api
pub mod Log
pub mod Process
pub mod Tests
