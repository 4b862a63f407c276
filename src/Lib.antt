-- ===== src/Lib.antt =====
-- sane-airscan is a SANE backend for scanners that speak eSCL and WSD. This library models a part
-- of its C code and proves what is listed at the end.
--
-- Parts and files. Source paths are from the repository's root.
-- - Device: airscan-device.c, with the types of airscan.h that it stands on. Types has the data
--   (struct device, proto_ctx, proto_result, proto_handler), Job the status of a job and the
--   setter of the state, Geom the scan window and the image format, Image the detection of an
--   image's format (airscan-image.c) and the table of decoders, Stm the callbacks that the
--   event loop runs for a scan job (device_stm_op_callback and what follows a reply, the cancel
--   machinery, device_http_onerror, device_stm_start_scan), Client the calls of the SANE client
--   (device_start, device_read with the pulling of an image, device_cancel, device_set_io_mode,
--   device_set_option, device_close). Read has the clipping of a received image
--   (device_read_next), its conversion to gray, and the loop of device_read with
--   device_read_decode_line. Events puts the rest together: the event loop and
--   one client thread as steps on the device and the position of the thread. Inv, Ending, Replies,
--   Safety, Whole and Calls hold the invariant of the state machine and its preservation; Drift,
--   Images, Reading, Starts, Reads and Pulls that of the reader; Reach the runs, Progress what
--   holds in all of them, and Races what an untimely event leads to.
-- - Ip: airscan-ip.c and the address functions of airscan.h. Prefix is about networks, Members and
--   Set about ip_addrset, Order about the order in which a user sees addresses.
-- - Id: the tables of airscan-id.c. Filter: the chain of airscan-filter.c. Array: airscan-array.c.
-- - Inifile: airscan-inifile.c. File has the characters of a file and the array of tokens, Scan
--   the state machine of inifile_gets, Record the records of inifile_read and inifile_match_name.
--   Turns and Ends are about the end of inifile_gets, Offsets and Tokens about its tokens, Writing
--   and Quoted about quoted texts, Match about names, Blank about lines without a token.
-- - Netif: the lists of addresses of airscan-netif.c. Order is about their comparison, Sort about
--   sorting and merging, Diff about the difference of two lists.
-- - Http: the parts of airscan-http.c that work on texts. Header has http_hdr with the callbacks
--   of the parser, Params the parameters of a field (http_hdr_params_parse), Path the removal of
--   dot segments; Lookup and Pieces are about headers, Settles and Quoting about parameters,
--   Shrinks, Segments and Resolve about paths.
-- - Caps: devcaps_source and its merging, from airscan-devcaps.c. Usable says what a source needs,
--   Listed and Merging are about the merging.
-- - Options: airscan-devops.c. Data has devopt and devcaps, Choose the values that are chosen for a
--   source, Single the handlers of the single options, Handlers devopt_set_option and
--   devopt_set_defaults, Get devopt_get_option. Nearest and Modes are about the choices, Valid has
--   the invariant, Kept and Reloads its preservation, Consistent, Defaults and Runs the calls and
--   their sequences, Exact numbers that are set and read, Scans the request that
--   device_stm_start_scan makes of the options, Stale the color mode after a switch of the source.
-- - Zeroconf: parts of airscan-zeroconf.c. Ident has the ident strings, Device the devices with
--   their findings and the lookup by an ident, Buddies zeroconf_merge_recompute_buddies. RoundTrip
--   and Find are about idents, Sets about the protocols of a device, Paired and Named about buddies.
-- - Uuid: airscan-uuid.c. Devid: airscan-devid.c. Math: airscan-math.c and the inline functions of
--   airscan.h on SANE_Word.
--
-- How code corresponds to definitions. A function has the name of its C function; a piece of a
-- long function has a name for what it does, and its comment tells the function. A function on an
-- object takes its record and returns the changed one. A failed log_assert is `none`, and so is a
-- shift that C leaves undefined. A call that waits on the condition variable of a device is cut at
-- the wait, and goes on by a step of the client thread. What is posted to the event loop for a
-- device (a query in flight, a timer, the cancel event, the call of device_start_do) is a part of
-- the device's record; the loop runs one callback at a time, as the code does under the mutex of
-- eloop. Logging, traces, the time of the last failure and the pause before a retry are left out,
-- and so is the HTTP status that the decoders of a protocol look at.
--
-- What is a parameter: the conversion of millimeters to pixels, which is floating-point
-- arithmetic; the replies that a protocol's decoder gives, which are arguments of the events;
-- which functions a protocol has; random bytes and the SHA-256 digest; the window that an image
-- decoder grants, and what it makes of the line buffer, and in a step of Events what the decoding
-- of an image comes to in a call of device_read (Decoding); the names of color modes, which SANE's
-- headers define (ModeNames). What the kernel reports of addresses, and the bytes of a file, are arguments.
--
-- Bounds and fuel. SANE_Word values are integers whose sums and products do not overflow, since an
-- overflow is undefined in C; the cast in math_muldiv wraps. images_received is a 32-bit counter.
-- math_gcd takes at most x + y rounds. The loop of device_read takes two rounds a line, and three
-- more. The loops of math_range_merge take at most as many rounds as the bounds are above the
-- lower start. inifile_gets takes two rounds a byte, since a byte may be pushed back, and one more
-- at the end of the file; where a backslash is pushed back for another byte, it may take more than
-- any number. netif_addr_list_sort goes at most as deep as the list is long, and the loops on two
-- lists take a node or more a round. The loop of http_hdr_params_parse takes a byte up to five
-- times, one after the other, and that of http_uri_remove_dot_segments reads a byte or more a
-- round. devid_alloc looks at 65536 IDs at most while one is free.
--
-- devcaps_source_merge takes the fuel of the one call of math_range_merge that can loop, for the
-- ranges of resolutions. `%x` of an unsigned int has 8 digits at most, and strtoul is that of a
-- 64-bit long.
--
-- A set of flags, color modes, formats or protocols is its membership function. A state of the options
-- without a current source, as it is before devopt_set_defaults, is left out.
--
-- The runs of Device are those of an environment that is timely: replies ask for operations that the
-- protocol has and bring images of a format that a decoder is there for, no operation ends between a
-- request to cancel and the event's callback, and no operation fails in transport while the CANCEL is
-- in flight. Events.Races shows what happens otherwise to a cancel; an image of an unknown format makes
-- the next device_read index its table of decoders by -1. A client calls device_start, device_read,
-- device_set_io_mode and device_set_option one at a time, with any arguments, and device_cancel at
-- any time; device_close ends the device, and is not a step.
--
-- Not modelled: probing, the image decoders behind the reading of a line, the
-- justification and the constant texts of the option descriptors, the protocols, the rest of HTTP,
-- the lists of endpoints and of devices, WS-Discovery, the configuration that is read from the
-- records of the ini file. MDNS discovery is callbacks of Avahi. The event loop, XML and sockets are calls of libraries. The parser of HTTP messages is
-- a copy of another project's; what it hands over is the input of the callbacks.
pub mod Base
pub mod Math
pub mod Caps
pub mod Options
pub mod Zeroconf
pub mod Device
pub mod Ip
pub mod Uuid
pub mod Id
pub mod Filter
pub mod Array
pub mod Inifile
pub mod Http
pub mod Netif
pub mod Devid
mod Tests
