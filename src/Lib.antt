-- ===== src/Lib.antt =====
-- QMSP, a chat protocol over QUIC: integers of variable length, message headers and frames on
-- the wire, the messages that join them, the state machine of a connection, and the files in
-- which chats are kept.
--
-- The wire code stands at the repository's root and is layered: Frames.c and Messages.c call
-- VariableLengthInt.c, which calls ByteSwap.c. Names of colours and formatting commands are
-- read by FtextPacker.c, which calls colorNames.c, which calls stringCompareAnyCase.c. The
-- state machines stand beside it: QMSPkernel.c at the root and the later
-- OriginalLinuxCode/QMSPkernel.c, which the program calls with what it reads off messages
-- (header byte, version, source id, types of the frames). OriginalLinuxCode/MessageReader.c
-- packs headers and frames into messages and reads them back; what is received is applied to
-- the files by chatReader.c and chatWriter.c. QMSP_Runner.c is the program: its client takes
-- a target from its arguments or from the cache of chatCache.c, and makes a message of a line
-- of input that is "logout" without a newline; it leaves its loop at any other.
--
-- - Base: lists and tests over native numbers, words of 8 to 64 bits with their wrap-around,
--   bytes of a word in memory and reading them back, malloc and memcpy (Base/Memory), and
--   rows of copies that fill a block (Base/Fill).
-- - ByteSwap: ByteSwap.c. isLittleEndian is is_little_endian, which takes and returns the
--   global litend; rev_16, rev_32, rev_64 keep their names.
-- - VariableLengthInt: VariableLengthInt.c. unpackLogVarInt is unpack_log_var_int and so on.
--   The loop of packLogVarInt is move_to_front with 8 rounds of fuel: each moves the word by
--   one of its eight bytes, and packLogVarInt never shifts a word that is 0
--   (VariableLengthInt/Log).
-- - Messages: Messages.c and the structs of Messages.h. Serialize* are
--   serialize_message_stub, serialize_data_message_header and
--   serialize_control_message_header; rebuild* and construct* keep their names.
-- - Frames: Frames.c and the structs of Frames.h: the unpackers in Frames, extractFrames in
--   Frames/Extract, the sizes and serializers in Frames/Pack. The loop of extractFrames takes
--   fuel because it has no bound of its own; the loop of unpackPostMetadata has the number of
--   bytes as fuel, since each round reads two.
-- - MessageReader: OriginalLinuxCode/MessageReader.c. PackMessage is pack_message and
--   unpackMessage is unpack_message; the frames that can be sent, with their bytes and what
--   is read of them, are the data types of MessageReader/Wire. MessageReader/Apply has
--   applyMessage and the loop over the buffers of a received event in QMSP_Runner.c; applying
--   comes to adding a post, which is undefined (MessageReader/Apply/Undefined). The functions
--   of Messages.c and Frames.c that these call are the ones at the root; Linux says where
--   those of the program agree with them.
-- - ChatFiles: chatReader.c and chatWriter.c of OriginalLinuxCode. ./localChats is a list of
--   entries in the order of readdir, or none if it cannot be opened; an open file is the
--   bytes from its position on. ChatFiles/Stdio has the C library's reading of lines,
--   comparison and printing of numbers. The loops over lines take fuel, because at the end of
--   a file they do not end; the loops that end with the file have its length as fuel, since
--   each round reads a byte. ChatFiles/Spec has the chats that a file stands for,
--   ChatFiles/Store the relation between the two and what each operation does to it: for
--   addNewUser and addNewPost, the part behind their call of findChat_storeName or
--   findChatName (rewrite_chat and append_post), since these write a terminator behind the
--   block that they allocate (ChatFiles/Writer/Names).
-- - ChatCache: OriginalLinuxCode/chatCache.c, in the same way. An unsigned long has eight
--   bytes there and in the client, as on Linux.
-- - Client: QMSP_Runner.c, the arguments of RunClient and the message that it makes of a line
--   of input. The look-up of an argument by its name is a parameter.
-- - Arguments: quichelper.h, GetFlag and GetValue. _strnicmp is a parameter, whether it gives
--   0; Arguments/Laws says what is documented of it.
-- - Linux: VariableLengthInt.c, Messages.c and Frames.c of OriginalLinuxCode, which the
--   Makefile there builds the program from, with names that begin with linux_. What has the
--   same text as at the root, and calls nothing that differs, is the root's definition.
--   Linux/Headers, Rebuild, RoundTrip, Packed and Extract compare the two; the machines of
--   LinuxLong have an unsigned long of four bytes, or of eight with the lowest byte first.
-- - Runner: QMSP_Runner.c, the callbacks of server and client, main and what it calls. A
--   history is a list of entries: the calls that the program makes and the events that it is
--   handed. What a call of MsQuic or malloc answers is an argument of the function that makes
--   it; the blocks that receiving a message allocates, and that nothing frees, are entries of
--   their own. Runner/Replay follows a history for one address and fails where one is used or
--   given back that is not in use. Runner/Server/History and Runner/Client/History are the
--   histories in which MsQuic and malloc keep to their documentation, and the premises of
--   their steps say what that is; Runner/Setup/Nesting follows what is set up and taken down.
-- - Kernel: OriginalLinuxCode/QMSPkernel.c. The globals are the record Kernel, a handler is a
--   function from it to itself, and each `if(currentState == ...)` of a handler is a function
--   of its own, composed in the order of the code. Kernel/Events has the handlers besides
--   receivedMessage and sentMessage, and a run over a sequence of calls.
-- - RootKernel: QMSPkernel.c at the root, in the same way; a condition that is an assignment
--   assigns.
-- - StringCompare: stringCompareAnyCase.c; stringCaseCmp and stringCaseCmpSeg are
--   string_case_cmp and string_case_cmp_seg, over terminated strings.
-- - ColorNames: colorNames.c and the enumeration of colorNames.h. mapName is map_name, with
--   the global lastLen as a second result.
-- - FtextPacker: colorLen, isValidColor and isValidFormatCmd of FtextPacker.c, the last's
--   loop on fuel: a round moves on by a character or meets a first colour, so two rounds more
--   than there are characters are enough (FtextPacker/Laws).
-- - Examples: tests on concrete inputs.
--
-- A struct is a record, a pointer into bytes is the list of the bytes from there on or an
-- offset, and a block that is written is the list of its bytes. A function returns `none`
-- where the C code's behaviour is undefined (a read past the bytes or a write past a block),
-- and `some none` where it returns NULL. What the compiler and the machine decide is the
-- record Platform: the byte order, sizeof(unsigned long) and the sign of a plain char. malloc
-- is a parameter, the record Allocator: it gives NULL or a block of the size asked for, with
-- any contents; realloc fails where malloc of the new size does. Counts of messages are
-- numbers, without the overflow of an int. Files have no zero bytes, can be written where
-- they can be opened, and keep their place in the directory when they are replaced. A file
-- may be opened a second time, and remove and rename succeed.
--
-- Not modelled: MsQuic (msquiclib) and its functions that quicpatch.h declares; DecodeHexChar
-- and DecodeHexBuffer of quichelper.h, which are called in a comment only; of QMSP_Runner.c
-- the settings of the configurations and the client's loop over its input: that is left at
-- the first line, or writes through a pointer that was never set. getMessages and
-- getLastMessage of chatReader.c and applyPacked of MessageReader.c, which have no body or
-- only return NULL; packFText and the other unfinished functions of FtextPacker.c;
-- SerializePMDInto, getSerializedSizeOfPMD and getSerializedSizeOfENF of Frames.c; the test
-- programs.
pub mod Base
pub mod ByteSwap
pub mod VariableLengthInt
pub mod Messages
pub mod Kernel
pub mod RootKernel
pub mod Frames
pub mod MessageReader
pub mod ChatFiles
pub mod ChatCache
pub mod Client
pub mod Runner
pub mod Linux
pub mod Arguments
pub mod StringCompare
pub mod ColorNames
pub mod FtextPacker
pub mod Examples
