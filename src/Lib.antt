-- ===== src/Lib.antt =====
-- Verification of libupnpp, a C++ layer over the UPnP library libupnp: for control points, which find
-- devices and call them, and for devices, which publish services and files.
--
-- The modelled parts, with the file that models each, and how they meet:
--   * Base64 (libupnpp/base64.cxx): `base64_decode` as a scan over the bytes with the output, the index
--     `io` and the state; `base64_encode` by groups of three bytes, with the `int` that measures the text.
--     The decoder's `int` and `unsigned int` are not bounded, which is right below 2^31 decoded bytes.
--   * Text: the helpers of libupnpp/smallut.cpp, with those of libupnpp/upnpplib.cxx,
--     libupnpp/soaphelp.cxx and libupnpp/upnpavutils.cxx that work on text: Words (stringToStrings,
--     stringsToString), Csv (csvToStrings, stringsToCSV), Tokens (stringToTokens, stringSplitString),
--     Trim (trimstring, neutchars, beginswith, endswith), Escape (xmlQuote, xmlUnquote, escapeHtml,
--     escapeShell, makeCString), Percent (reSanitizeURL, pc_decode, pcSubst, hexprint), Decimal
--     (lltodecstr, i2s, upnpduration, upnpdurationtos), Case (stringlowercmp, stringuppercmp), Url
--     (caturl, baseurl), Ranges (parseHTTPRanges), Prefix (commonprefix), Lines (breakIntoLines,
--     truncate_to_word), Flags (flagsToString, valToString).
--   * WorkQueue (libupnpp/workqueue.h): the record `Queue` is the object's state; `put`, `take`,
--     `waitIdle`, `waitminsz` and `setTerminateAndWait` are cut into the stretches that the mutex makes
--     atomic. WorkQueue/System has the steps of all threads together, in any order, with wake-ups at
--     any time, which covers spurious ones.
--   * Discovery (libupnpp/control/discovery.cxx): the pool of devices, the tasks that the queue hands to
--     `discoExplorer`, expiry, searches, visitors and callbacks; Discovery/Selector has
--     `getDevBySelector` and the delays, Discovery/Messages has `cluCallBack`, cut at its download, with
--     the threads that run it as steps.
--   * VirtualDir (libupnpp/device/vdir.cxx, and the path functions of libupnpp/upnpplib.cxx): the
--     directories that a device serves; VirtualDir/Handles has the files that libupnp opens in them.
--   * Library (libupnpp/upnpplib.cxx): the options, the one library object and the handlers, by which an
--     event of libupnp comes to Device, Control or Discovery.
--   * Soap (libupnpp/soaphelp.cxx, libupnpp/upnpp_p.hxx): the arguments of an action, as they are written
--     and read on both sides.
--   * Device (libupnpp/device/device.cxx, libupnpp/device/service.cxx): a device with its services and
--     action routines; Device/Dispatch has the callbacks that libupnp makes, Device/Loop the event loop,
--     Device/Start the description that goes into VirtualDir.
--   * Control (libupnpp/control/service.cxx): a control point's service, which runs actions;
--     Control/Subscribing has its subscriptions, where `Conn` is the object with the static map of
--     callbacks. Control/Actions joins it to Device through a libupnp that carries actions;
--     Control/Typed is libupnpp/control/typedservice.cxx.
--   * Rendering (libupnpp/control/renderingcontrol.cxx), Playlist (libupnpp/control/ohplaylist.cxx),
--     ContentDirectory (libupnpp/control/cdirectory.cxx) and Transport
--     (libupnpp/control/avtransport.cxx): services built on Control.
--   * Xml (libupnpp/expatmm.h): the path of elements and the handlers that expat's events are given to.
--     Didl (libupnpp/control/cdircontent.cxx) and Description (libupnpp/control/description.cxx) are the
--     parsers of directory contents and of devices and services; Xml/LastChange is
--     libupnpp/control/avlastchg.cxx, and Xml/Written has the events of a document of elements with
--     fields, by which the parsers are specified. Description makes the devices of Discovery.
--   * OpenHome (ohproduct.cxx, ohradio.cxx, ohreceiver.cxx, ohsender.cxx, ohinfo.cxx, ohtime.cxx and
--     ohvolume.cxx of libupnpp/control, with read and readList of ohplaylist.cxx): the actions and events
--     of the OpenHome services, on Control and on the parsers; OpenHome/Tracks is the parser of track and
--     channel lists.
--   * Renderer (libupnpp/control/mediarenderer.cxx): the services of a renderer, found in its description.
--   * Songcast (libupnpp/control/linnsongcast.cxx): the states of receivers; Songcast/Playing and
--     Songcast/Loops set them to play and stop them, and Songcast/Senders has the senders, over product
--     and receiver services that are arguments.
-- Prelude holds what they share: Boolean tests, lists measured by native numbers, bytes, maps with text
-- keys, and integers.
--
-- Bytes are numbers below 256, and text is a list of bytes. Unsigned 32-bit counters wrap by `% 2 ^ 32`.
-- A result `none` stands for behaviour that C++ leaves undefined (a table or a text read out of its
-- bounds, an overflow, a call of an empty function) or for a loop that did not end within its fuel. The
-- fuel is the length of the text and one more, which every loop's theorem shows to be enough, and 29
-- digits for a printed number, the size of the code's buffer; for the reading of a container it is one
-- more than its entries. Clock readings, libupnp's answers, the
-- parser of descriptions and a client's functions are arguments.
--
-- Not modelled: expat and its error messages, downloads over curl, the log and MD5; the detailed
-- properties of directory objects, which no caller in the library asks for; and of the modelled
-- files: dates, regular expressions, the calls that initialise libupnp, the loop thread and shutdown
-- of a device, the search for a typed service, and the waits of `traverse`. Doubles are an argument.
-- Overflow of a file offset, which C++ leaves undefined, is not modelled: offsets are integers
-- without bounds.
pub mod Prelude
pub mod Base64
pub mod Text
pub mod WorkQueue
pub mod Discovery
pub mod VirtualDir
pub mod Soap
pub mod Device
pub mod Control
pub mod Rendering
pub mod Playlist
pub mod ContentDirectory
pub mod Transport
pub mod Library
pub mod Songcast
pub mod Xml
pub mod Didl
pub mod Description
pub mod OpenHome
pub mod Renderer
