-- ===== src/Lib.antt =====
-- A verification library for AIRS, a program that reduces astronomical images as they arrive: a
-- file server announces each image over TCP, the daemon puts it through image reduction,
-- astrometry, catalogue matching and photometry, and results go to the control server.
--
-- Parts, with the files of the repository and of this library:
-- - Base: shared names, tests, lists, 32-bit ints and texts. Characters are their codes; `stoi`
--   and the decimal output are written out.
-- - Host: what the program takes from Boost and from floating point (airs/src/AsciiProtocol.cpp
--   uses boost::algorithm, boost::format and std::stod), as the record Host with the laws
--   HostLaws. Host/Sample is a concrete one, in which whole numbers stand for the doubles.
-- - Proto: the ASCII protocol of airs/src/AsciiProtocolBase.h, AsciiProtocol.h and
--   AsciiProtocol.cpp. Data and Init are the message classes and their constructors, Buffer the
--   output buffer, Compact, Fields and Methods the Compact* methods, Pointing and Imaging the
--   resolve_* methods (set_* is the body of their loop), Resolve the rest of Resolve. A null
--   pointer is `none`, an exception of std::stoi or std::stod is `throw`. The proofs are in the
--   other modules below Proto.
-- - Net: class TCPClient of airs/src/tcpasio.h and tcpasio.cpp. Client and Transfer are its
--   members and methods; boost::circular_buffer is the record Circular with CircularLaws, and
--   Circular/Plain a concrete one. What the socket reports is an argument, what is asked of it is
--   kept in the state.
-- - Daemon: class DoProcess of airs/src/DoProcess.h and DoProcess.cpp. Receive is the handler of
--   lines from the file server; it uses Net and Proto. Engine holds the working flag and the frame
--   of the four engines (airs/src/AstroDIP.cpp, AstroMetry.cpp, MatchCatalog.cpp, PhotoMetry.cpp)
--   and the rounds of their threads, Finders get_finder with the ids and queues of
--   airs/src/AFindPV.cpp, Process the state, the callbacks and IsOver. What check_image reads and
--   whether fork succeeds are arguments.
-- - Badmark: the bad columns and pixels of the cameras. Marks and Store are CameraBadcol,
--   CameraBadpix and the functions on them of Parameter in airs/src/Parameter.h, LoadBadmark and
--   SaveBadmark included; the two structs, which repeat each other, are one record. Suspects and
--   Doubts are uncertain_badcol, doubt_pixel and doubt_pixel_set of airs/src/AFindPV.h with
--   test_badcol and remove_badpix of airs/src/AFindPV.cpp. Boost.PropertyTree is the record
--   PropertyTree with TreeLaws; what is read from the file is an argument.
-- - TimeSpace: class ATimeSpace of airs/src/ATimeSpace.h and ATimeSpace.cpp. Calendar is SetUTC's
--   check, ModifiedJulianDay and Mjd2Cal, Leap is DeltaAT, Formulas, NutationTerms and Static are
--   the functions of arguments, Values and Getters the functions without arguments and the values
--   they keep, Clock SetUTC and SetSite, Angles HourStr2Dbl and DegStr2Dbl, with std::atof an
--   argument. The doubles are the record Real, without laws.
-- - Tracks: class AFindPV of airs/src/AFindPV.h and AFindPV.cpp. Points are pv_point and pv_frame,
--   with shared pointers as numbers into a store; Candidate is pv_candidate; Finder is the members,
--   with what it uses of Boost as the record Boost; Output is candidate2object with the files it
--   names, and create_dir; Matching is new_frame, the aberration and cross_match; Sequence is the
--   rest, up to one round of thread_newframe; Thread is a run of rounds and arriving frames. Counts,
--   Keeping, Batches, Frames, Objects, Invariant, Above, Sound and Grown carry one invariant through
--   the operations for Related; Shape and Ends do the same for Orbits.
-- - Mathematics: SwapEndian, Lagrange, spline and splint of airs/src/AMath.cpp. Endian, Lagrange and
--   Spline are the code, Reversal, Window, Between and Knots the proofs. Doubles is what this,
--   Tracks and Stars use of double, without laws.
-- - Stars: ACatalog and ACatUCAC4 of airs/src/ACatalog.h, ACatalog.cpp, ACatUCAC4.h and
--   ACatUCAC4.cpp. Border is catseek_border, Item the record of a star, Search the rest, with
--   SphereRange of airs/src/AMath.cpp; what the files hold is an argument. Zones, Rows, Found and
--   Kept follow the loops of FindStar from the inside out.
-- - Messages: class MessageQueue of airs/src/MessageQueue.h and MessageQueue.cpp. Queue is its
--   members and methods; boost::interprocess::message_queue is the record BoostQueue with QueueLaws.
--
-- Bounds: the output buffer has ten slots of 1024 bytes, a packet 1500 bytes and a circular buffer
-- 150,000 bytes, as in the source; an int has 32 bits: the dates of TimeSpace wrap around, and in
-- Stars a number beyond an int is `none`. The functions are by recursion on their data; the loop
-- of the handler of lines is on fuel, of which the number of bytes received plus two is enough
-- (Daemon/Loop); the decimal digits of a number are on fuel, of which the number itself plus one
-- is enough, as the proofs in Base/Decimal show. In Calendar the decimal factors of Mjd2Cal are
-- fractions, and the fraction of the day is left out. The loop of the message thread is on fuel,
-- one for each message that it takes (Messages/Stop), and the search of splint on fuel, of which
-- the number of values is enough (Mathematics/Between).
--
-- Not modelled: TCPServer and the service thread, logs, the database client, the settings in the
-- parameter file, the image reduction itself, which is floating point; of ATimeSpace the printing
-- of angles, the coordinate transformations and twilight; of AFindPV the database, the series of
-- the aberration and the lines of the files; of AMath the splines of two arguments and the
-- matrices; the threads' locks, since each modelled method is one step; the start of the message
-- thread and the threads that connect again; and airs1/src, the older version of the program.
pub mod Base
pub mod Host
pub mod Proto
pub mod Net
pub mod Daemon
pub mod Badmark
pub mod Doubles
pub mod Tracks
pub mod TimeSpace
pub mod Mathematics
pub mod Stars
pub mod Messages
