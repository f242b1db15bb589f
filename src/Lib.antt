-- ===== src/Lib.antt =====
-- Phaser's payload buffer, the runtime of its messages, and its wire formats.
--
-- A phaser message lives in a payload buffer: one block of memory that starts with a header
-- (phaser/runtime/payload_buffer.h), holds a heap of its own behind it, and is sent as it is. The
-- same message can be written in protobuf's wire format (phaser/runtime/wireformat.h).
--
-- Memory: the bytes of a buffer, by offset, with the loads, stores, memset, memcpy and memmove that
--   the code makes through typed pointers.
-- Payload: payload_buffer.h and payload_buffer.cc. The header is the record `Buffer`, the bytes are
--   its last field, and a pointer is an offset, 0 for nullptr, so that moving a buffer changes no
--   address. Words and Small are uint32_t arithmetic and the classes of small blocks; Alloc has
--   TryAllocateInPlace, AllocateSlow, AllocateSmallBlock and the growth of a movable buffer; Release
--   has Free, FreeSlow, its merges, and AllocateMany; Realloc, Strings, StringCopy, SetString,
--   Vectors and Presence have the operations of those names.
--   The free list is seen as a list of blocks (Chain). Carve is first fit on such a list and Joined
--   is the insertion of a block into one: they specify allocation and release. Stamp, Taken, Fit,
--   FromList and InPlace relate allocation to the first, and Placed, Freed, Free and Roundtrip
--   relate release to the second; Lifo is about the lists of free small blocks.
-- Wire: wireformat.h. An operation of ProtoBuffer is a function on the buffer that returns the
--   buffer and a status; Ints has the conversions of integers, Write the serializers and
--   ProtoWriter, Read the deserializers, Infer the test that tells the formats apart. Varint, Counted
--   and Bounds prove their properties.
-- Message: message.h. `Runtime` is MessageRuntime: a payload buffer, with whether it is mutable and
--   trusted or was received. FieldTable has the tables that lead from a field's number to its place,
--   Chunks the layout of a vector of messages and its elements, Metadata the control block in which
--   tables are installed, and Reset the freeing of everything since the buffer was new. Lookup,
--   Fits, Trust, Elements, Inside, Hints, Emptied and Freed prove their properties.
-- Ros: ros_wireformat.h. Reader has ROSReader and Writer has ROSBuffer, through which a
--   ROSMessageWriter writes. A value is its bits, and a host has one byte order or the other. Growth
--   is the loop that doubles a capacity, Bytes the encoding of values, Space the making of room,
--   Wrote and Ends the writes and Roundtrip the reads.
-- Fields: fields.h, vectors.h, iterators.h and arrays.h. `Message` is a message's handle and
--   `FieldLoc` a field's place. Scalar has the fields of numbers, bools and enums and Text the
--   string fields; Vectors reads a PrimitiveVectorField, Change changes it, VectorWire writes it
--   to the wire and VectorRead reads it; Iterators has its iterators, and Arrays and ArrayWire
--   have PrimitiveArrayField. A change has an outcome: it is done, or throws on a readonly
--   message. Moves, Insert, Walk, Values, Stored, Written, Sizes, ArraySizes and Overflow prove
--   their properties; Payload.Pushed and Wire.Advance have what they need below.
-- Md5: md5.cc. Reference has the digest as RFC 1321 describes it, apart from the code; Blocks is
--   about the loop over whole blocks, Padding about the tail, Compress about a block and the output,
--   and Digest puts them together.
-- Runs (one in each of Payload, Wire, Message, Fields, Ros and Md5) has concrete buffers.
--
-- uint32_t sums and differences are taken modulo 2 ^ 32 where the code can wrap. Sums of pointers,
-- which are 64 bits wide, are taken as exact.
--
-- Loops: a walk along the free list has full_size + 1 rounds, since the blocks of an ordered list
-- take 8 bytes each; doubling a size has 64 rounds; a call of Allocate nests at most five deep. An
-- operation returns `none`, or the error `stuck`, if its fuel runs out. The loops on varints have
-- ten rounds, the most that 64 bits take, and SkipVarint one more than there are bytes left.
--
-- Parameters: the resizer's effect on the bytes of a movable buffer, the release of one element of
--   a vector of messages, and realloc for a ROSBuffer, which keeps the old bytes.
--
-- Not modelled: the printing of buffers and fields, the resizer's own pointer, the creation and
-- adoption of buffers by a runtime, vectors and arrays of strings and of messages, message fields,
-- unions (union.h, any.h, message.cc), the conversion of whole messages to ROS, the bank,
-- the bindings, the compiler and the plugins.
pub mod Prelude
pub mod Memory
pub mod Payload
pub mod Wire
pub mod Message
pub mod Fields
pub mod Ros
pub mod Md5
