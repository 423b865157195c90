-- ===== src/Lib.antt =====
-- The verification library of opendisplay-win, a Windows program that extends the desktop to a
-- tablet: it captures a virtual display, encodes it with H.264 and sends it over TCP, and receives
-- control messages on the same connection.
--
-- The parts and how they interact. A sender dials a receiver (src/net/Connection.cpp), reads the
-- hello and later control frames from it, and parses them (src/net/Protocol.cpp). From the hello
-- it takes the display's size and a share of the display, which all senders of the process hold in
-- common (src/app/SenderApp.cpp). The encoder's output is cut into NAL units, completed with
-- cached parameter sets and framed again (src/encode/AnnexB.cpp); its bit rate follows a profile
-- that steps down when frames are dropped (src/app/EncodeProfile.h). The display driver that all
-- tablets share is told the sizes of each tablet in an EDID and in the driver's settings text
-- (src/display/MttVddSettings.cpp). Touch, scroll, pencil and proximity messages go to the input
-- injector (src/input/InputInjector.cpp).
--
-- Which file models which part. A function keeps its name, in snake case.
--   Common            numbers, tests, lists, options, signed integers and byte strings; the laws
--                     that the parts share. Common/Search is `std::string::find` and its relatives.
--   Encode/AnnexB     src/encode/AnnexB.h and AnnexB.cpp. FindMarkers is find_markers and
--                     collect_units is the loop of ScanStartCodes; Split is a one-pass reading of
--                     the same scan, on which the round trips are proved.
--   Encode/Encoder    the part of src/encode/H264Encoder.cpp that feeds the transform and takes its
--                     output; Configure has a new transform. Inside says which pictures it holds,
--                     Rounds is about DrainSync, and Queue is a transform to run it on.
--   Encode/Profile    src/app/EncodeProfile.h, with the mode and preset names of src/app/Config.h.
--   Net/Socket        what recv and send do on a stream socket, and the two loops over them.
--   Net/Connection    ReadFrame, SendFrame and Close of src/net/Connection.cpp.
--   Net/Protocol      src/net/Protocol.h and Protocol.cpp: Scan has the field scanner, Arrays the
--                     nested array, Message ParseControlMessage, and FpsLimit StreamFpsLimit.
--   Net/Mdns          BuildQuery, AppendName and ReadName of src/net/Mdns.cpp; Response has
--                     ParseResponse.
--   Net/UsbMux        src/net/UsbMux.cpp: the texts and the device list; Plist has the messages,
--                     Request a reader for the request to connect, Queries the functions that ask
--                     the multiplexer, and Watch a round of WatchLoop.
--   Net/Base64        Base64Encode of src/net/CursorMessages.cpp; Decode is a reader for it.
--   App/Config        src/app/Config.h and Config.cpp: the settings in memory; Serials has the USB
--                     bindings, Devices the rows, and File reads and writes the text of the file.
--   App/Panel         PanelState and the functions over it of src/app/SenderApp.cpp; Senders has
--                     any number of senders as a step relation.
--   App/Geometry      the sizes of display and encoder of src/app/SenderApp.cpp, and the wait after
--                     a link that closed before its hello.
--   App/Usb           UsbClaim and PickUsbForEntry of src/app/SenderApp.cpp; Claims has any number
--                     of senders that take and drop cables.
--   App/Dial          the loop of SenderApp::RunLoop up to the link: its variables, and which link
--                     an attempt dials. What an attempt meets is the record Meets.
--   App/Attempt       the rest of an attempt, up to the stream: the hello, the check of the cable,
--                     the share of the panel. It is one pass of the loop, and the loop repeats it.
--   App/Signals       src/app/PauseSignals.cpp, and pauseReasonNow of src/app/SenderApp.cpp.
--   App/Pause         the paused session of src/app/SenderApp.cpp: its entry, a pass of the loop and
--                     the resume; Loop has the passes that stream and those that are paused. Hidden,
--                     Sent and Blank follow the desktop through the encoder, Entry has the two
--                     places where a pause begins, and Locked follows the loop through a lock.
--   App/Pacing        when a streaming session of src/app/SenderApp.cpp encodes.
--   App/Frames        PrefixAnnexBWithTiming of the same file.
--   Display/Edid      the EDID of src/display/MttVddSettings.cpp; Modes has MttModesForHello, and
--                     Decode a reader of the block.
--   Display/Settings  the resolutions and options in the settings text of the driver, in the same
--                     file; Blocks and Resolutions have what is read again, Wanted the modes.
--   Input/Contacts    pointer flags and the table of contacts of src/input/InputInjector.cpp.
--   Input/Injector    src/input/InputInjector.h and InputInjector.cpp: the touches, with the pen and
--                     the end of a session in Injector/Pen. View reads off the injected frames what
--                     Windows holds, and Session has any sequence of messages.
--
-- Representation. A buffer or string is a list of numbers, its bytes. A position in a string is the
-- rest of the string from there, and npos is none. A `uint32_t` or `uint64_t` is a natural number
-- with its wrap-around written out where an operation can wrap; `& ~15u` is a division and a
-- multiplication. A member function that changes its object returns the new one.
--
-- Parameters. The socket is a parameter `Socket`; `IsStream` states what TCP gives, that bytes
-- arrive in order and that recv and send move one byte at least and no more than asked. Doubles,
-- with the conversions from text and to integers, are a parameter of the messages. The injector
-- has Windows as a parameter `Desktop`: whether a device can be created, whether it takes a frame,
-- where the virtual screen begins, and the arithmetic on doubles. The search for a timing has the
-- double `err` of each round as a parameter `Precision`. The transform that encodes is a parameter
-- `Mft`; `IsMft` states what Media Foundation documents of the pictures inside it, and that a
-- flush that succeeds drops them. A frame of the model carries the picture that its bytes show,
-- which the code does not have. What an attempt to connect and a paused pass meet (the clock, the
-- desktop, the events that come in time) is a record, `Meets` or `Reads`; a rebuild of the
-- pipeline is a function, and `IsBuild` states that it keeps the encoder or makes one that has only
-- pictures without the desktop, such as the black ones of ProbeFirstFrame.
--
-- Loops. The loops over buffers are structural recursion. The loops of ReadExact and WriteExact
-- run on fuel, the number of bytes still to move: each call moves one byte at least or ends the
-- loop, so this is enough, and the frame theorems show the whole frame moved. Reading a name runs
-- on fuel for seventeen runs through the packet, one for each pointer that ReadName follows and
-- the first. The list that FindMarkers fills is given back, as is the text between brackets that
-- FindArray scans. DrainSync runs for as many rounds as the transform has outputs and one more.
--
-- Not modelled: threads, dialling and waiting on sockets; the session that streams, but for when
-- it encodes and what it encodes and pauses; a rebuild of the pipeline; the calls of display
-- drivers, the choice and set-up of the transform, windows and the command line, which are calls
-- of the system; the sockets of service discovery, the USB forwarder to a local port, the saved
-- topology of the shared display head, and the cursor messages but for their Base64; the tools
-- and the vendored Parsec header.
pub mod App
pub mod Common
pub mod Display
pub mod Encode
pub mod Input
pub mod Net
