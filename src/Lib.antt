-- ===== src/Lib.antt =====
-- re is a library for real-time communication: buffers and memory, RTP and SRTP, and the protocols
-- that set calls up. This development models the parts below; the files are named for them.
--
-- Platform: what the code takes from the machine and the C library, as a record of operations with
-- the laws that the code relies on: malloc and realloc, the layout of integers in memory, and the
-- byte order functions. Machine fills it with a big-endian machine for the tests.
--
-- Mbuf: src/mbuf/mbuf.c with the inline functions of include/re_mbuf.h, and of src/mem/mem.c the
-- size limit of mem_alloc and mem_realloc. `struct mbuf` is the record Mbuf with the bytes of its
-- block; a function mbuf_x that changes `*mb` is a function x that returns the new buffer behind
-- its result. `size_t` wraps at 2^64. Mbuf/Words has the integers, Mbuf/Text the strings,
-- mbuf_fill and mbuf_shift, Mbuf/Trim what mbuf_trim and mbuf_set_posend leave. Mbuf/Valid says
-- when a buffer is well formed, Mbuf/Write and Mbuf/Read what writing and reading mean for the
-- bytes it holds; the clients use these two and not the code behind them.
--
-- Rtp: Rtp/Header is the header code of src/rtp/rtp.c on these buffers, Rtp/Source is
-- src/rtp/source.c, the jitter in Rtp/Source/Jitter.
--
-- Srtp: Srtp/Replay is src/srtp/replay.c, Srtp/Index is srtp_get_index of src/srtp/misc.c.
--
-- Av1: src/av1/obu.c but for printing. Av1/Leb128 has the numbers of seven-bit groups, Av1/Obu the
-- unit headers and the counts. The loop of the encoder is given nine rounds before the last byte,
-- which is enough for 64 bits; the loop of the counts is given one round for each byte of the
-- bitstream, and each round reads one byte at least.
--
-- Base64: src/base64/b64.c but for base64_print.
--
-- Dns: Dns/Header is src/dns/hdr.c, Dns/Cstr is src/dns/cstr.c, Dns/Dname is dns_dname_decode of
-- src/dns/dname.c with str_ncpy of src/fmt/str.c. The loop of the decoder is a function of its
-- variables that is given 512 rounds: each round either copies a byte at least, of which 255 fit,
-- or follows one of 256 pointers.
--
-- Stun: Stun/Types has the macros of src/stun/stun.h, Stun/Header is src/stun/hdr.c but for names
-- and random transaction identifiers, Stun/Addr is src/stun/addr.c on addresses with their ports.
--
-- Fmt: Fmt/Number has the whole numbers of src/fmt/pl.c; Fmt/Number/Horner says what a numeral
-- means. Fmt/Text has trimming and searching.
--
-- LinkedList: src/list/list.c but for list_sort. A store holds the elements (`struct le`) and the
-- lists at their addresses, 0 is NULL, and a function list_x is a function x from a store to the
-- store it leaves. LinkedList/Valid says when a store holds a list of given elements. A loop is
-- given one round more than the list counts elements. A handler is a function of addresses that
-- changes no list, and the data that list_flush lets go are returned in order.
--
-- Telev: src/telev/telev.c. A `struct telev` is a record with its queue as a buffer, the cases of
-- the switch in telev_poll are functions of their own. Telev/Sender has the automaton that the
-- sending half is compared with, Telev/Link the receiving half.
--
-- Rtmp: Rtmp/Header is src/rtmp/hdr.c, Rtmp/Chunker src/rtmp/chunk.c and Rtmp/Dechunker
-- src/rtmp/dechunk.c, on the little-endian words of Sys, which is part of src/sys/endian.c.
-- tcp_send and the handler of messages are functions that give their error; the loop of the chunker
-- is given a round for each byte of the payload, and each round takes one byte at least. The list
-- of chunk streams is a list of values. Rtmp/RoundTrip joins the chunker and the dechunker.
--
-- Getbit: src/h264/getbit.c on the bits of its input as a list. The count of zeros is given a round
-- for each bit that is left, and the width of a non-symmetric code 32 rounds for its 32 bits.
--
-- Nal: of src/h264/nal.c the headers and h264_nal_send. The handler of packets is a function that
-- gives its error, and the packets are returned in the order they are sent. The loop is given a
-- round for each byte of the unit and one more: a fragment takes a byte at least where the largest
-- packet has more than two.
--
-- Base has the shared helpers: Boolean tests, lists and overlays of them, single bits, and bytes
-- in network order.
--
-- Pointers to structures are values here but for the lists, so the tests for NULL at the head of a
-- function have no counterpart, and a buffer owns its block: buffers made by mbuf_alloc_ref are
-- not modelled. Error numbers are those of Linux. The loops not named above are recursions on a
-- count or on the bytes that are left. An `int` that is made from a larger unsigned value keeps
-- its low 32 bits, as the usual compilers do. Sockets, timers, threads, TLS and printing are not
-- modelled, nor are the other protocols.
mod Base
pub mod Platform
pub mod Machine
pub mod Mbuf
pub mod Rtp
pub mod Srtp
pub mod Dns
pub mod Stun
pub mod Fmt
pub mod Av1
pub mod Base64
pub mod LinkedList
pub mod Telev
pub mod Sys
pub mod Rtmp
pub mod Getbit
pub mod Nal
