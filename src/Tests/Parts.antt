-- ===== src/Tests/Parts.antt =====
-- A yEnc part, a uuencoded line, and the rules for moderators.
use trn.Base.{
  ◌<◌, true, false, ◌≡◌, refl, ap, none, some, List, [], ◌∷◌, ◌++◌, Bytes, codes, All, arith,
}
use trn.Base.Int.{pos, negsuc}
use trn.Moderators.{
  is_empty, moderator_address, rules_loop, rule_address, matches, matches_loop, match_pattern,
  pattern_end, trim, expand, expand_loop, is_address, rfind,
}
use trn.Moderators.Address.{IsAddress, moderator_address-IsAddress}
use trn.Text.{find_if, skip_while}
use trn.Uudecode.Line.{uudecode_line, groups_loop, first_byte, second_byte, third_byte, char_at}
use trn.Uudecode.Machine
use trn.Uudecode.Machine.{
  DecodeState, maybe_done, UuDecoder, step, look_for_begin, open_file, begin_filename, cut_cr,
  decode_active, decode_next_to_last, decode_last,
}
use trn.Uudecode.Machine.Files.{IsReady, lines_loop-IsReady}
use trn.Uudecode.Line.RoundTrip.{encode_line, uudecode_line-encode_line}
use trn.Uudecode.Prescan.{
  Part, uue_prescan, parse_number, read_digits, post_file_or_rest, is_begin, file,
}
use trn.Uudecode.Prescan.Slash.{uue_prescan-slash}
use trn.Uudecode.Prescan.Valid.{IsRanked, uue_prescan-IsRanked}
use trn.Wildmat.{wildcard_match, do_match, star_loop, match_byte, class_scan, class_match}
use trn.Yenc.{
  next_line, strip_line_end, field, fields_loop, parse_fields, filename_value, number, number_int,
  whole_number,
}
use trn.Yenc.Decode.{
  YencPart, yenc_decode, decode_line, find_header, decode_part, lines_loop, finish, check_crc,
  read_crc, has_part,
}
use trn.Yenc.Decode.RoundTrip.{encode, decode_line-encode}
use trn.Yenc.Decode.Size.{IsWhole, yenc_decode-IsWhole}
use trn.Yenc.Header.{yenc_prescan, read_part, read_total}

-- The byte 19 becomes an equals sign, and 214 a NUL; both are escaped.
abbrev bytes : Bytes
bytes = 104 ∷ 19 ∷ 214 ∷ 255 ∷ []

bytes-small : All (λ b. b < 256) bytes
bytes-small = (ground arith, (ground arith, (ground arith, (ground arith, tt))))

decode_line-encode_example : decode_line 6 (1 ∷ []) (encode bytes) ≡ some (1 ∷ bytes)
decode_line-encode_example = decode_line-encode 6 (1 ∷ []) bytes bytes-small (ground arith)

uudecode_line-encode_line_example : uudecode_line (encode_line bytes ++ (10 ∷ [])) ≡ bytes
uudecode_line-encode_line_example =
    uudecode_line-encode_line bytes (10 ∷ []) bytes-small (ground arith)

-- A file of two bytes, "hi", without a checksum.
abbrev message : Bytes
message =
    codes "=ybegin line=128 size=2 name=a b"
    ++ (10 ∷ (146 ∷ 147 ∷ 10 ∷ (codes "=yend size=2" ++ (10 ∷ []))))

abbrev decoded : YencPart
decoded = record {
  header = record {
    filename = codes "a b";
    size = 2;
    line_length = 128;
    part = pos 1;
    total = pos 1;
    multipart = false;
  };
  first = 1;
  last = 2;
  bytes = codes "hi";
  crc32 = none;
}

message-decoded : yenc_decode message ≡ some decoded
unfolding yenc_decode find_header decode_part lines_loop finish check_crc read_crc has_part
    decode_line yenc_prescan read_part read_total next_line strip_line_end field fields_loop
    parse_fields filename_value number number_int whole_number find_if skip_while
message-decoded = refl

yenc_decode-IsWhole_example : IsWhole decoded
yenc_decode-IsWhole_example = yenc_decode-IsWhole message message-decoded

abbrev fresh : Part
fresh = record { filename = []; part = negsuc 0; total = pos 0 }

abbrev file_line : Bytes
file_line = codes "File: a.gif -- part 2 of 3 -- "

file_line_seen : (uue_prescan file_line fresh).0 ≡ true
unfolding uue_prescan is_begin parse_number read_digits post_file_or_rest file find_if
file_line_seen = refl

file_line_other : is_begin file_line ≡ false
unfolding is_begin
file_line_other = refl

uue_prescan-IsRanked_example : IsRanked (uue_prescan file_line fresh).1
uue_prescan-IsRanked_example = uue_prescan-IsRanked file_line fresh file_line_other file_line_seen

abbrev slash_line : Bytes
slash_line = codes "section 2/3 file a.gif "

slash_number : parse_number slash_line 8 ≡ some (2, 9)
unfolding parse_number read_digits
slash_number = refl

uue_prescan-slash_example : uue_prescan slash_line fresh ≡ (false, fresh)
uue_prescan-slash_example = uue_prescan-slash slash_line fresh 2 9 refl slash_number refl refl

abbrev rules : Bytes
rules = codes "# rules" ++ (10 ∷ (codes "!comp.*,comp.lang.*: %s@mods.org" ++ (10 ∷ [])))

moderator_found : moderator_address (codes "comp.lang.c++") rules ≡ codes "comp-lang-c++@mods.org"
unfolding moderator_address rules_loop rule_address matches matches_loop match_pattern pattern_end
    trim expand expand_loop is_address rfind wildcard_match do_match star_loop match_byte class_scan
    class_match find_if skip_while
moderator_found = refl

moderator_present : is_empty (moderator_address (codes "comp.lang.c++") rules) ≡ false
moderator_present = ap is_empty moderator_found

moderator_address-IsAddress_example : IsAddress (moderator_address (codes "comp.lang.c++") rules)
moderator_address-IsAddress_example =
    moderator_address-IsAddress (codes "comp.lang.c++") rules moderator_present

abbrev idle : UuDecoder
idle = record {
  state = DecodeState.start;
  ofp = none;
  closed = [];
  line_length = 0;
  last_line = [];
  decode_filename = [];
}

abbrev uu_lines : List Bytes
uu_lines =
    (codes "begin 644 a.txt" ++ (10 ∷ []))
    ∷ (codes "#86)C" ++ (10 ∷ []))
    ∷ (codes "`" ++ (10 ∷ []))
    ∷ (codes "end" ++ (10 ∷ []))
    ∷ []

abbrev ended : UuDecoder
ended = record {
  state = maybe_done;
  ofp = none;
  closed = codes "abc" ∷ [];
  line_length = 6;
  last_line = [];
  decode_filename = codes "a.txt";
}

uu_lines-ended : Machine.lines_loop (λ name. true) idle uu_lines ≡ some ended
unfolding Machine.lines_loop step look_for_begin open_file begin_filename cut_cr decode_active
    decode_next_to_last decode_last uudecode_line groups_loop first_byte second_byte third_byte
    char_at find_if
uu_lines-ended = refl

lines_loop-IsReady_example : IsReady ended
lines_loop-IsReady_example =
    lines_loop-IsReady (λ name. true) idle uu_lines (record { ready = refl }) uu_lines-ended
