-- ===== src/Lib.antt =====
-- Models of trn, a threaded news reader, and theorems about them.
--
-- The program keeps, for each newsgroup, a line of the file .newsrc with the numbers of the
-- articles that were read, such as "comp.lang.c++: 1-3,5". The parts modelled are the work on these
-- lines, and self-contained components of the library that decode and match text.
--
-- Files and what they model, with paths from the repository's root:
--   Base, Base/Tests, Base/Lists, Base/Int, Base/Bits: Boolean tests, lists, options, the integers
--     and the operations on bits.
--     `article_after` and `article_before` are those of config/include/config/typedef.h.
--   Text, Text/Decimal, Text/Find: std::string_view and std::from_chars as far as the sources use
--     them, and the scanners of libtrn/include/trn/string-algos.h.
--   Text/Case: the comparisons but for case, config/cmake/string_case_compare.strings.h.in and
--     config/string_case_compare.cpp.
--   Utf/Scalar: encoding, decoding and width of a scalar value (libtrn/utf.cpp); RoundTrip and
--     Canonical are its theorems. Utf/Charset: the names and tables of the character sets.
--     Utf/Decoder: `CharsetDecoder`, which uses both. Utf/Graphic, Utf/Graphic/Show: the older
--     `GraphicState`; Utf/Graphic/Bounds are its theorems.
--   Mime/Quoted, Mime/Base64: the decoders of libtrn/mime.cpp, each for texts and for files;
--     RoundTrip, Streams, Strip and Files are their theorems. A decoder of files is a function of
--     the bytes that `mime_getc` gives.
--   Url, Url/RoundTrip: `parse_url` of libtrn/url.cpp.
--   Reply, Reply/Strip, Reply/Prefix: the "Re:" of subjects (libtrn/rt-util.cpp), by the characters
--     of Utf/Graphic.
--   Thread, Thread/Preorder: `bump_article` of libtrn/Article.cpp.
--   EditDistance: `edit_distn` of libtrn/edit_dist.cpp, its buffer indexed modulo the radix;
--   EditDistance/Distance, Edits: the recursion of its comment, and the edits between two texts;
--   EditDistance/Ring, Cells, Rows, Reached, Least: what the buffer holds and what the result is.
--   ScanOrder: the entries of a scan in libtrn/sorder.cpp, with its heap sort and its index;
--   ScanOrder/Compare: `s_compare`, and `sa_compare` of libtrn/samisc.cpp;
--   ScanOrder/Places, Heap, Readjust, Build, Sort: the sort; Index, Reach, Walk: the index, and
--   what the operations keep.
--   Marking, Marking/Counts: `one_more`, `one_less`, `one_missing` and `delay_unmark` of
--   libtrn/Article.cpp, and the counters of the group.
--   Ini, Ini/Value: `IniSection::Iterator::advance` and `IniSetting::value` of libtrn/IniSection.cpp
--   and libtrn/IniSetting.cpp; Ini/Document: `IniDocument::Iterator::advance` of
--   libtrn/IniDocument.cpp; Ini/Section, Ini/Header, Ini/File: files that are written and
--   read; Ini/Schema, Ini/Schema/Last: `parse_ini_section` of libtrn/util.cpp, and which of the
--     settings counts.
--   Hash: the hash tables of libtrn/hash.cpp; Lookup and Table are lemmas on one chain and on a
--     table, Refine is the map that a table stands for.
--   NewsgroupOrder: the doubly linked order of the newsgroups (libtrn/ngdata.cpp); Chain are its
--     links, Moves its operations, Reach what they lead to, with the groups that
--     `append_newsgroup_data` of libtrn/rcstuff.cpp makes.
--   Newsrc: NewsgroupData and the parts of its line (libtrn/ngdata.cpp, include/trn/ngdata.h).
--   Newsrc/Ranges: the specification of a line, a list of ranges and its text.
--   Newsrc/Lookup: `was_read_group` of libtrn/rcln.cpp; Canonical and Total are its theorems.
--   Newsrc/Insert, Newsrc/AddRead: `add_art_num` of libtrn/rcln.cpp, its scan and its new line;
--     AddRead/Same are its theorems.
--   Newsrc/CatchUp, Newsrc/CatchUp/AllRead: `NewsgroupData::catch_up` of libtrn/rcln.cpp.
--   Newsrc/Expire, Newsrc/ToRead: `check_expired` and `set_to_read` of libtrn/rcln.cpp, which
--     `add_art_num` calls for a group that was not looked at before.
--   Newsrc/Rewrite: `bits_to_rc` of libtrn/bits.cpp, which writes the line of the current group from
--     the flags of its articles; Head, Tail, Text and RoundTrip are its lemmas and theorems.
--   Cache, Cache/Bounds: the article cache of libtrn/cache.cpp and include/trn/cache.h, which
--     `bits_to_rc` reads.
--   BackPage, BackPage/Refine: the paged array of libtrn/backpage.cpp.
--   Wildmat, Wildmat/Spec, Wildmat/Sound, Wildmat/Complete: wildmat/wildmat.cpp.
--   Moderators, Moderators/Address: libtrn/moderators.cpp, which calls the matcher.
--   Uudecode/Line, Uudecode/Machine, Uudecode/Prescan: libtrn/uudecode.cpp.
--   Yenc, Yenc/Crc, Yenc/Header, Yenc/Decode: libtrn/yenc.cpp.
--   Tests: runs on small inputs.
--
-- Hash tables take the client's comparison as an argument, and the theorems suppose that it tells
-- the key of a datum whose key has a known length, as `default_cmp` does. `sort` takes `std::sort`
-- with the user's criterion as an argument, and the theorems suppose that it permutes.
--
-- Conventions: a text is the list of its bytes, 0 to 255. `none` stands for npos, nullptr and
-- std::nullopt. A state is a record that the operations take and return; a global variable that a
-- function uses is an argument. Article numbers are integers without a bound, and the theorems that
-- need it suppose that they fit a `long` of 64 bits. Unsigned bytes wrap modulo 256.
--
-- Fuel: a loop that drops a varying number of bytes a round runs on fuel. The callers give the
-- length of the text and one more, and each round drops a byte at least. The loops of `bits_to_rc`
-- raise the article number each round, and get two more than the highest number. A step through a
-- thread climbs no more levels than it has articles.
--
-- Not modelled: the user interface, processes, files and the network; the messages that are printed;
-- what DEBUG adds. `find_newsgroup`, the line of the active file, and whether a file opens are
-- arguments. Article files reach the uudecoder as their lines.
pub mod Base
pub mod Text
pub mod Wildmat
pub mod Moderators
pub mod Uudecode
pub mod Utf
pub mod Ini
pub mod Marking
pub mod ScanOrder
pub mod EditDistance
pub mod Thread
pub mod Reply
pub mod Url
pub mod Mime
pub mod NewsgroupOrder
pub mod Hash
pub mod Yenc
pub mod Cache
pub mod BackPage
pub mod Newsrc
pub mod Tests
